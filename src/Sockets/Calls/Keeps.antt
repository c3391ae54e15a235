-- ===== src/Sockets/Calls/Keeps.antt =====
-- Invariants of the methods of Sockets: what every callback and every change of the maps keeps,
-- every method keeps.
use unisockets.Prelude.{
  ℕ, Option, none, some, Bool, true, false, Text, text_key, nat_key, if◌then◌else◌,
}
use unisockets.Map.{Map, set}
use unisockets.Signaling.Errors.{Error}
use unisockets.Run.{Run}
use unisockets.Run.Keeps.{Keeps, Keeps-pure, Keeps-throw, Keeps-modify, Keeps-bind, run_rules}
use unisockets.Sockets.Memory.{Bytes}
use unisockets.Sockets.Calls.{
  Bind, Sockets, Externals, stub, with_binds, set_all, or_throw, bound, access_memory, set_bind,
  update_then_check, ensure_bound, socket, bind, accept, remember, connect, send, recv, close_bind,
  close_as, close, modify,
}

-- The callbacks keep `P`.
pub record CallsKeep {W : Type 0} (e : Externals W) (P : Sockets W → Type 0) : Type 0 where
  pub on_bind : (alias : Text) → Keeps P (e.external_bind alias)
  pub on_accept : (alias : Text) → Keeps P (e.external_accept alias)
  pub on_connect : (alias : Text) → Keeps P (e.external_connect alias)
  pub on_send : (alias id : Text) (msg : Bytes) → Keeps P (e.external_send alias id msg)
  pub on_recv : (alias id : Text) → Keeps P (e.external_recv alias id)
  pub on_close : (alias : Text) → Keeps P (e.external_close alias)
  pub on_socket : Keeps P e.external_socket
  pub on_update : Keeps P e.update_binds

-- The callbacks keep `P`, and so do the changes that a method makes itself.
pub record Respects {W : Type 0} (e : Externals W) (P : Sockets W → Type 0) : Type 0 where
  pub calls : CallsKeep e P
  pub on_set : (fd : ℕ) (b : Bind) (s : Sockets W) → P s → P (with_binds (set fd b) s)
  pub on_set_all : (news : Map ℕ Bind) (s : Sockets W) → P s → P (with_binds (set_all news) s)
  pub on_world : (w : W) (s : Sockets W) → P s → P (record s { world = w })
  pub on_aliases : (l : Map ℕ Text) (s : Sockets W) → P s → P (record s { client_aliases = l })

module _ {W A : Type 0} {P : Sockets W → Type 0} where
  pub Keeps-if :
      (b : Bool) (m n : Run (Sockets W) A) → Keeps P m → Keeps P n → Keeps P (if b then m else n)
  Keeps-if true m n km kn = km
  Keeps-if false m n km kn = kn

  pub Keeps-or_throw : (x : Error) (o : Option A) → Keeps P (or_throw {W = W} x o)
  unfolding or_throw
  Keeps-or_throw x none = Keeps-throw x
  Keeps-or_throw x (some a) = Keeps-pure a

module _ {W : Type 0} {P : Sockets W → Type 0} where
  pub Keeps-bound : (fd : ℕ) → Keeps P (bound {W = W} fd)
  unfolding bound
  Keeps-bound fd = search (run_rules, Keeps-or_throw)

  pub Keeps-access_memory : (memory_id : Text) → Keeps P (access_memory {W = W} memory_id)
  unfolding access_memory
  Keeps-access_memory memory_id = search (run_rules, Keeps-or_throw)

module _ {W : Type 0} (e : Externals W) {P : Sockets W → Type 0} (r : Respects e P) where
  Keeps-set : (fd : ℕ) (b : Bind) → Keeps P (modify (with_binds {W = W} (set fd b)))
  Keeps-set fd b = Keeps-modify _ (r.on_set fd b)

  Keeps-set_all : (news : Map ℕ Bind) → Keeps P (modify (with_binds {W = W} (set_all news)))
  Keeps-set_all news = Keeps-modify _ (r.on_set_all news)

  pub Keeps-set_bind : (fd : ℕ) (alias : Text) → Keeps P (set_bind e fd alias)
  unfolding set_bind
  Keeps-set_bind fd alias = Keeps-modify _ (λ s h. r.on_world _ _ (r.on_set fd _ s h))

  Keeps-update_then_check : (fd : ℕ) → Keeps P (update_then_check e fd)
  unfolding update_then_check
  Keeps-update_then_check fd =
      Keeps-bind _ _ r.calls.on_update
        (λ news. Keeps-bind _ _ (Keeps-set_all news) (λ _. search (run_rules, Keeps-if)))

  pub Keeps-ensure_bound : (fd : ℕ) → Keeps P (ensure_bound e fd)
  unfolding ensure_bound
  Keeps-ensure_bound fd = search (run_rules, Keeps-if, Keeps-update_then_check)

  pub Keeps-socket : Keeps P (socket e)
  unfolding socket
  Keeps-socket =
      Keeps-bind _ _ r.calls.on_socket
        (λ fd. Keeps-bind _ _ (Keeps-set fd stub) (λ _. Keeps-pure fd))

  pub Keeps-remember : (fd : ℕ) (o : Option Text) → Keeps P (remember {W = W} e fd o)
  unfolding remember
  Keeps-remember fd none = Keeps-pure tt
  Keeps-remember fd (some alias) =
      Keeps-if _ _ _ (Keeps-modify _ (λ s h. r.on_aliases (set fd alias s.client_aliases) s h))
        (Keeps-pure tt)

  Keeps-close_bind : (o : Option Bind) → Keeps P (close_bind e o)
  unfolding close_bind
  Keeps-close_bind none = Keeps-pure tt
  Keeps-close_bind (some b) = r.calls.on_close b.alias

  Keeps-close_as : (fd : ℕ) (o : Option Text) → Keeps P (close_as e fd o)
  unfolding close_as
  Keeps-close_as fd none = search (run_rules, Keeps-close_bind)
  Keeps-close_as fd (some alias) = r.calls.on_close alias

  ruleset call_rules = (
    run_rules, Keeps-bound, Keeps-set_bind, Keeps-ensure_bound, Keeps-socket, Keeps-remember,
    Keeps-close_as,
  )

  pub Keeps-bind_call : (fd : ℕ) (alias : Text) → Keeps P (bind e fd alias)
  unfolding bind
  Keeps-bind_call fd alias = search (call_rules, r.calls.on_bind)

  pub Keeps-accept : (fd : ℕ) → Keeps P (accept e fd)
  unfolding accept
  Keeps-accept fd = search (call_rules, r.calls.on_accept) depth 12

  pub Keeps-connect : (fd : ℕ) (alias : Text) → Keeps P (connect e fd alias)
  unfolding connect
  Keeps-connect fd alias = search (call_rules, r.calls.on_connect)

  pub Keeps-send : (fd : ℕ) (msg : Bytes) → Keeps P (send e fd msg)
  unfolding send
  Keeps-send fd msg = search (call_rules, r.calls.on_send)

  pub Keeps-recv : (fd : ℕ) → Keeps P (recv e fd)
  unfolding recv
  Keeps-recv fd = search (call_rules, r.calls.on_recv)

  pub Keeps-close : (fd : ℕ) → Keeps P (close e fd)
  unfolding close
  Keeps-close fd = search (call_rules)

pub ruleset sockets_rules = (
  Keeps-bound, Keeps-access_memory, Keeps-ensure_bound, Keeps-socket, Keeps-bind_call, Keeps-accept,
  Keeps-connect, Keeps-send, Keeps-recv, Keeps-close,
)
