-- ===== src/Sockets/Calls/Accepted.antt =====
-- A connection that was accepted or asked for, and what is sent and closed on it afterwards.
use unisockets.Prelude.{ℕ, ltb, ◌≡◌, refl, ◌∙◌, none, some, length, true, Text, text_key, nat_key}
use unisockets.Map.{get, has, set}
use unisockets.Map.Laws.{==_refl, get-set}
use unisockets.Signaling.Errors.{ok, err, Error}
use unisockets.Sockets.Memory.{Bytes}
use unisockets.Sockets.Calls.{
  Bind, Sockets, Externals, stub, with_binds, socket, accept, remember, connect, send, set_bind,
  close, close_as, close_bind, gets, ◌>>=◌,
}
use unisockets.Sockets.Calls.Laws.{
  bind_to, ensure_bound-known, bound-get, has-get_found, get-set_same, send-bound,
}

module _ {W : Type 0} (e : Externals W) where
  -- accept returns the fresh descriptor with the alias that the server has made for the connection,
  -- and what is sent on that descriptor goes to that alias. Conditions: the listening descriptor is
  -- known and stays bound, a descriptor is given out, and a connection arrives.
  pub accept-send :
      (server_fd client_fd : ℕ) (client_alias : Text) (b : Bind) (s t u : Sockets W) (msg : Bytes)
      → has server_fd s.binds ≡ true
      → e.external_socket s ≡ (ok client_fd, t)
      → get server_fd (set client_fd stub t.binds) ≡ some b
      → e.external_accept b.alias (with_binds (set client_fd stub) t) ≡ (ok client_alias, u)
      → (accept e server_fd s ≡ (ok (client_fd, client_alias), bind_to e client_fd client_alias u))
        × (send e client_fd msg (bind_to e client_fd client_alias u)
            ≡ e.external_send client_alias
                (e.client_id u.world)
                msg
                (bind_to e client_fd client_alias u))
  unfolding accept socket ◌>>=◌ set_bind
  accept-send server_fd client_fd client_alias b s t u msg h fresh server accepted = (
    rw
        (
          ensure_bound-known e server_fd s h,
          fresh,
          bound-get e server_fd b (with_binds (set client_fd stub) t) server,
          accepted,
        )
        refl,
    send-bound e client_fd (record { alias = client_alias; connector_id = e.client_id u.world }) msg
        (bind_to e client_fd client_alias u) (get-set_same e client_fd _ u.binds),
  )

  -- connect sets the binding first; it stays when the connection is refused, so that a later send
  -- still goes to the alias. Conditions: the descriptor is known, and its binding is left alone while
  -- the connection is awaited.
  pub connect-refused :
      (fd : ℕ) (alias : Text) (x : Error) (s t : Sockets W) (msg : Bytes)
      → has fd s.binds ≡ true
      → e.external_connect alias (bind_to e fd alias s) ≡ (err x, t)
      → get fd t.binds ≡ get fd (bind_to e fd alias s).binds
      → (connect e fd alias s ≡ (err x, t))
        × (send e fd msg t ≡ e.external_send alias (e.client_id s.world) msg t)
  unfolding connect ◌>>=◌ set_bind
  connect-refused fd alias x s t msg h refused kept = (
    rw (ensure_bound-known e fd s h, refused) refl,
    send-bound e fd (record { alias = alias; connector_id = e.client_id s.world }) msg t
        (kept ∙ get-set_same e fd _ s.binds),
  )

  -- When the connection is made under an own alias, what is sent goes to the peer's alias, and
  -- close shuts the own alias down and not the peer's. Conditions: the descriptor is known, its
  -- binding is left alone while the connection is awaited, and the own alias is not empty.
  pub connect-close :
      (fd : ℕ) (alias own : Text) (s t : Sockets W) (msg : Bytes)
      → has fd s.binds ≡ true
      → e.external_connect alias (bind_to e fd alias s) ≡ (ok (some own), t)
      → get fd t.binds ≡ get fd (bind_to e fd alias s).binds
      → ltb 0 (length own) ≡ true
      → let u : Sockets W = record t { client_aliases = set fd own t.client_aliases } in
        (connect e fd alias s ≡ (ok (some own), u))
        × (send e fd msg u ≡ e.external_send alias (e.client_id s.world) msg u)
        × (close e fd u ≡ e.external_close own u)
  unfolding connect ◌>>=◌ set_bind remember close gets close_as
  connect-close fd alias own s t msg h made kept long =
      let b : Bind = record { alias = alias; connector_id = e.client_id s.world } in
      let u : Sockets W = record t { client_aliases = set fd own t.client_aliases } in
      let there : get fd t.binds ≡ some b = kept ∙ get-set_same e fd b s.binds in
      let own_alias : get fd (set fd own t.client_aliases) ≡ some own =
        get-set fd fd own t.client_aliases ∙ (rw (==_refl fd) refl) in
      (
        rw (ensure_bound-known e fd s h, made, long) refl,
        send-bound e fd b msg u there,
        rw (ensure_bound-known e fd u (has-get_found e fd b t.binds there), own_alias) refl,
      )

  -- A descriptor without an own alias is closed under the alias that it is bound to.
  pub close-bound :
      (fd : ℕ) (b : Bind) (s : Sockets W)
      → get fd s.binds ≡ some b
      → get fd s.client_aliases ≡ none
      → close e fd s ≡ e.external_close b.alias s
  unfolding ◌>>=◌ close gets close_as close_bind
  close-bound fd b s h alone =
      rw (ensure_bound-known e fd s (has-get_found e fd b s.binds h), alone, h) refl
