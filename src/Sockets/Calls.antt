-- ===== src/Sockets/Calls.antt =====
-- The methods of Sockets (pkg/web/sockets/sockets.ts), one action each. While a call to the
-- outside is awaited, messages of other threads may change the bindings and programs their
-- memories, so such a call is an action on the whole state.
pub mod Laws
pub mod Keeps
pub mod Accepted
use unisockets.Prelude.{
  ℕ, ltb, List, [], ◌∷◌, ◌++◌, Option, none, some, length, Bool, Text, codes, text_key, nat_key,
  ◌==◌, if◌then◌else◌,
}
use unisockets.Map.{Map, get, has, set, get_or}
use unisockets.Signaling.Errors.{Error, foreign, memory_does_not_exist, socket_does_not_exist}
unfoldable pub use unisockets.Run.{continue, pure, throw, gets, modify, zoom, ◌>>=◌, ◌>>◌}
use unisockets.Run.{Run}
use unisockets.Sockets.Memory.{Bytes}

-- sockets/bind.ts
pub record Bind : Type 0 where
  pub alias : Text
  pub connector_id : Text

-- A memory is known by its buffer, as programs share one and change it. `world` is what the
-- callbacks of the constructor change.
pub record Sockets (W : Type 0) : Type 0 where
  pub binds : Map ℕ Bind
  pub client_aliases : Map ℕ Text
  pub memories : Map Text ℕ
  pub buffers : Map ℕ Bytes
  pub world : W

-- The callbacks of the constructor, and what else the class takes from outside.
pub record Externals (W : Type 0) : Type 0 where
  pub external_bind : Text → Run (Sockets W) (Unit {0})
  pub external_accept : Text → Run (Sockets W) Text
  pub external_connect : Text → Run (Sockets W) (Option Text)
  pub external_send : Text → Text → Bytes → Run (Sockets W) (Unit {0})
  pub external_recv : Text → Text → Run (Sockets W) Bytes
  pub external_close : Text → Run (Sockets W) (Unit {0})
  pub external_socket : Run (Sockets W) ℕ
  pub update_binds : Run (Sockets W) (Map ℕ Bind)
  pub notify_bind_set : ℕ → Bind → W → W
  -- `self.signalingClient.id`
  pub client_id : W → Text
  -- `new TextEncoder("utf-8").encode`
  pub encode : Text → Bytes

abbrev pub stub : Bind
stub = record { alias = codes "stub"; connector_id = codes "stub" }

-- A property of `undefined`.
abbrev pub type_error : Error
type_error = foreign (codes "TypeError")

-- `(await this.updateBinds()).forEach((value, key) => binds.set(key, value))`
unfoldable pub set_all : Map ℕ Bind → Map ℕ Bind → Map ℕ Bind
set_all [] binds = binds
set_all ((key, value) ∷ news) binds = set_all news (set key value binds)

module _ {W : Type 0} where
  abbrev pub with_binds : (Map ℕ Bind → Map ℕ Bind) → Sockets W → Sockets W
  with_binds f s = record s { binds = f s.binds }

  unfoldable pub or_throw : {A : Type 0} → Error → Option A → Run (Sockets W) A
  or_throw x none = throw x
  or_throw x (some a) = pure a

  -- `this.binds.get(fd)` where a property of it is taken.
  unfoldable pub bound : ℕ → Run (Sockets W) Bind
  unfolding or_throw
  bound fd = do b ← gets (λ s. get fd s.binds); or_throw type_error b

  unfoldable pub set_memory : Text → ℕ → Run (Sockets W) (Unit {0})
  set_memory memory_id buffer =
      modify (λ s. record s { memories = set memory_id buffer s.memories })

  unfoldable pub access_memory : Text → Run (Sockets W) ℕ
  unfolding or_throw
  access_memory memory_id = do
    buffer ← gets (λ s. get memory_id s.memories)
    or_throw memory_does_not_exist buffer

module _ {W : Type 0} (e : Externals W) where
  unfoldable pub set_bind : ℕ → Text → Run (Sockets W) (Unit {0})
  set_bind fd alias = modify (λ s.
      let b : Bind = record { alias = alias; connector_id = e.client_id s.world } in
      record s { binds = set fd b s.binds; world = e.notify_bind_set fd b s.world })

  unfoldable pub update_then_check : ℕ → Run (Sockets W) (Unit {0})
  unfolding set_all
  update_then_check fd = do
    news ← e.update_binds
    modify (with_binds (set_all news))
    found ← gets (λ s. has fd s.binds)
    if found then pure tt else throw socket_does_not_exist

  unfoldable pub ensure_bound : ℕ → Run (Sockets W) (Unit {0})
  unfolding update_then_check
  ensure_bound fd = do
    found ← gets (λ s. has fd s.binds)
    if found then pure tt else update_then_check fd

  unfoldable pub socket : Run (Sockets W) ℕ
  socket = do fd ← e.external_socket; modify (with_binds (set fd stub)); pure fd

  unfoldable pub bind : ℕ → Text → Run (Sockets W) (Unit {0})
  unfolding ensure_bound set_bind
  bind fd alias = do ensure_bound fd; e.external_bind alias; set_bind fd alias

  unfoldable pub accept : ℕ → Run (Sockets W) (ℕ × Text)
  unfolding ensure_bound socket bound set_bind
  accept server_fd = do
    ensure_bound server_fd
    client_fd ← socket
    b ← bound server_fd
    client_alias ← e.external_accept b.alias
    set_bind client_fd client_alias
    pure (client_fd, client_alias)

  -- `undefined` and the empty alias are not kept.
  unfoldable pub remember : ℕ → Option Text → Run (Sockets W) (Unit {0})
  remember fd none = pure tt
  remember fd (some client_alias) =
      if ltb 0 (length client_alias)
      then modify (λ s. record s { client_aliases = set fd client_alias s.client_aliases })
      else pure tt

  -- The binding is set before the connection is asked for.
  unfoldable pub connect : ℕ → Text → Run (Sockets W) (Option Text)
  unfolding ensure_bound set_bind remember
  connect server_fd alias = do
    ensure_bound server_fd
    set_bind server_fd alias
    client_alias ← e.external_connect alias
    remember server_fd client_alias
    pure client_alias

  unfoldable pub send : ℕ → Bytes → Run (Sockets W) (Unit {0})
  unfolding ensure_bound bound
  send fd msg = do ensure_bound fd; b ← bound fd; e.external_send b.alias b.connector_id msg

  unfoldable pub recv : ℕ → Run (Sockets W) Bytes
  unfolding ensure_bound bound
  recv fd = do ensure_bound fd; b ← bound fd; e.external_recv b.alias b.connector_id

  unfoldable pub close_bind : Option Bind → Run (Sockets W) (Unit {0})
  close_bind none = pure tt
  close_bind (some b) = e.external_close b.alias

  -- Under the client's own alias where there is one, else under the binding's.
  unfoldable pub close_as : ℕ → Option Text → Run (Sockets W) (Unit {0})
  unfolding close_bind
  close_as fd (some client_alias) = e.external_close client_alias
  close_as fd none = do b ← gets (λ s. get fd s.binds); close_bind b

  unfoldable pub close : ℕ → Run (Sockets W) (Unit {0})
  unfolding ensure_bound close_as
  close fd = do
    ensure_bound fd
    client_alias ← gets (λ s. get fd s.client_aliases)
    close_as fd client_alias
