-- ===== src/Sockets/Calls/Laws.antt =====
-- What the methods of Sockets do when the calls to the outside return.
use unisockets.Prelude.{
  ℕ, ◌≡◌, refl, ◌∙◌, [], ◌∷◌, some, true, false, ◌||◌, Text, text_key, nat_key, arith, inl, inr,
  Bool-cases, if◌then◌else◌,
}
use unisockets.Map.{Map, get, has, set}
use unisockets.Map.Laws.{==_refl, get-set, has-get}
use unisockets.Map.Keys.{has-set}
use unisockets.Signaling.Errors.{ok, err, Error, socket_does_not_exist}
use unisockets.Sockets.Memory.{Bytes}
use unisockets.Sockets.Calls.{
  Bind, Sockets, Externals, set_all, with_binds, bound, or_throw, set_bind, update_then_check,
  ensure_bound, bind, send, recv, ◌>>=◌,
}

pub has-set_all :
    (fd : ℕ) (news m : Map ℕ Bind) → has fd (set_all news m) ≡ (has fd news || has fd m)
unfolding set_all has
has-set_all fd [] m = refl
has-set_all fd ((k, b) ∷ news) m = ground (arith, has-set_all fd news (set k b m), has-set k fd b m)

module _ {W : Type 0} (e : Externals W) where
  abbrev pub bind_to : ℕ → Text → Sockets W → Sockets W
  bind_to fd alias s =
      let b : Bind = record { alias = alias; connector_id = e.client_id s.world } in
      record s { binds = set fd b s.binds; world = e.notify_bind_set fd b s.world }

  pub ensure_bound-known :
      (fd : ℕ) (s : Sockets W) → has fd s.binds ≡ true → ensure_bound e fd s ≡ (ok tt, s)
  unfolding ensure_bound ◌>>=◌
  ensure_bound-known fd s h = rw h refl

  -- A descriptor that is not known is asked for, and it is found exactly when the answer names it.
  pub ensure_bound-news :
      (fd : ℕ) (news : Map ℕ Bind) (s t : Sockets W)
      → has fd s.binds ≡ false
      → has fd t.binds ≡ false
      → e.update_binds s ≡ (ok news, t)
      → ensure_bound e fd s
        ≡ ((if has fd news then ok tt else err socket_does_not_exist), with_binds (set_all news) t)
  unfolding ensure_bound ◌>>=◌ update_then_check
  ensure_bound-news fd news s t h still answered =
      rw (h, answered, has-set_all fd news t.binds, still)
        (elim (Bool-cases (has fd news)) [
          | inl found ↦ rw found refl
          | inr missing ↦ rw missing refl
        ])

  -- A descriptor that is found after the bindings are fetched.
  pub ensure_bound-fetched :
      (fd : ℕ) (news : Map ℕ Bind) (s t : Sockets W)
      → has fd s.binds ≡ false
      → e.update_binds s ≡ (ok news, t)
      → has fd (set_all news t.binds) ≡ true
      → ensure_bound e fd s ≡ (ok tt, with_binds (set_all news) t)
  unfolding ensure_bound ◌>>=◌ update_then_check
  ensure_bound-fetched fd news s t h answered found = rw (h, answered, found) refl

  pub bound-get :
      (fd : ℕ) (b : Bind) (s : Sockets W) → get fd s.binds ≡ some b → bound fd s ≡ (ok b, s)
  unfolding bound or_throw ◌>>=◌
  bound-get fd b s h = rw h refl

  pub has-get_found : (fd : ℕ) (b : Bind) (m : Map ℕ Bind) → get fd m ≡ some b → has fd m ≡ true
  has-get_found fd b m h = has-get fd m ∙ (rw h refl)

  pub get-set_same : (fd : ℕ) (b : Bind) (m : Map ℕ Bind) → get fd (set fd b m) ≡ some b
  get-set_same fd b m = get-set fd fd b m ∙ (rw (==_refl fd) refl)

  -- What is sent on a bound descriptor goes out under the binding's alias and connector.
  pub send-bound :
      (fd : ℕ) (b : Bind) (msg : Bytes) (s : Sockets W)
      → get fd s.binds ≡ some b
      → send e fd msg s ≡ e.external_send b.alias b.connector_id msg s
  unfolding send ◌>>=◌
  send-bound fd b msg s h =
      rw (ensure_bound-known fd s (has-get_found fd b s.binds h), bound-get fd b s h) refl

  pub recv-bound :
      (fd : ℕ) (b : Bind) (s : Sockets W)
      → get fd s.binds ≡ some b
      → recv e fd s ≡ e.external_recv b.alias b.connector_id s
  unfolding recv ◌>>=◌
  recv-bound fd b s h =
      rw (ensure_bound-known fd s (has-get_found fd b s.binds h), bound-get fd b s h) refl

  pub bind-granted :
      (fd : ℕ) (alias : Text) (s t : Sockets W)
      → has fd s.binds ≡ true
      → e.external_bind alias s ≡ (ok tt, t)
      → bind e fd alias s ≡ (ok tt, bind_to fd alias t)
  unfolding bind ◌>>=◌ set_bind
  bind-granted fd alias s t h granted = rw (ensure_bound-known fd s h, granted) refl

  pub bind-refused :
      (fd : ℕ) (alias : Text) (x : Error) (s t : Sockets W)
      → has fd s.binds ≡ true
      → e.external_bind alias s ≡ (err x, t)
      → bind e fd alias s ≡ (err x, t)
  unfolding bind ◌>>=◌
  bind-refused fd alias x s t h refused = rw (ensure_bound-known fd s h, refused) refl
