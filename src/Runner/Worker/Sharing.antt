-- ===== src/Runner/Worker/Sharing.antt =====
-- How a worker finds the bindings of the other threads.
use unisockets.Prelude.{
  ℕ, ◌≡◌, refl, sym, ap, ◌∙◌, false, [], ◌∷◌, none, some, Text, text_key, nat_key, nat_beq_iff,
  text_beq_iff, ◌==◌, arith, inl, inr, Bool-cases,
}
use unisockets.Map.{Map, get, has, set, keys, contains, Distinct}
use unisockets.Map.Laws.{==_refl, get-set}
use unisockets.Map.Keys.{keys-set-Distinct}
use unisockets.Signaling.Errors.{ok}
use unisockets.Sockets.Memory.{Bytes}
use unisockets.Sockets.Calls.{
  Bind, Sockets, Externals, set_all, with_binds, send, ensure_bound, gets, modify, pure, ◌>>=◌,
}
use unisockets.Sockets.Calls.Laws.{ensure_bound-fetched, bound-get, has-get_found}
use unisockets.Runner.Main.{
  Port, Thread, holder, itself, worker_of, Message, on_fetch_binds, notify_bind_add, Main, post,
  post_to, notify_from, notify_all_threads, handle_bind_update, handle_fetch_binds, get_thread,
  reply,
}
use unisockets.Runner.Worker.Aliases.{notify_from-aliases}
use unisockets.Runner.Worker.{
  Worker, Info, Outside, externals, fetch_binds, post_message, with_world, new_id, set_aliases,
  update_binds, handle_external_send, send_to, wrtc_send,
}

get-set_all_away :
    (fd : ℕ) (news m : Map ℕ Bind)
    → contains fd (keys news) ≡ false
    → get fd (set_all news m) ≡ get fd m
unfolding set_all keys contains
get-set_all_away fd [] m away = refl
get-set_all_away fd ((k, b) ∷ news) m away =
    let head : (k == fd) ≡ false = ground (arith, away) in
    let tail : contains fd (keys news) ≡ false = ground (arith, away) in
    get-set_all_away fd news (set k b m) tail ∙ get-set k fd b m ∙ (rw (head) refl)

-- A binding that was fetched is found after the fetched bindings are set.
pub get-set_all :
    (fd : ℕ) (b : Bind) (news m : Map ℕ Bind)
    → Distinct (keys news)
    → get fd news ≡ some b
    → get fd (set_all news m) ≡ some b
unfolding set_all get keys
get-set_all fd b [] m d h = ground (arith, h)
get-set_all fd b ((k, c) ∷ news) m d h = elim (Bool-cases (k == fd)) [
  | inl same ↦
      (let here : some c ≡ some b = sym (rw (same) refl) ∙ h in
        let key : k ≡ fd = (nat_beq_iff k fd).0 same in
        get-set_all_away fd news (set k c m) (ap (λ j. contains j (keys news)) (sym key) ∙ d.0)
        ∙ get-set k fd c m
        ∙ (rw (same) here))
  | inr other ↦ get-set_all fd b news (set k c m) d.1 (sym (rw (other) refl) ∙ h)
]

module _ {T : Type 0} where
  -- Notices do not change the bindings.
  notify_from-binds :
      (m : Map ℕ Thread) (id : ℕ) (msg : Message) (s : Main T)
      → (notify_from m id msg s).socket_binds ≡ s.socket_binds
  unfolding notify_from worker_of post
  notify_from-binds [] id msg s = refl
  notify_from-binds ((key, holder none) ∷ rest) id msg s = refl
  notify_from-binds ((key, itself p) ∷ rest) id msg s = refl
  notify_from-binds ((key, holder (some w)) ∷ rest) id msg s = elim (Bool-cases (key == id)) [
    | inl own ↦ rw own refl
    | inr other ↦ rw other (notify_from-binds rest id msg (post w msg s))
  ]

updated-set_all :
    {T : Type 0} (page : Main T) (fd : ℕ) (alias : Text) (owner : ℕ) (connector_id : Text)
    (m : Map ℕ Bind)
    → Distinct (keys page.socket_binds)
    → get fd (set_all (handle_bind_update fd alias owner connector_id page).socket_binds m)
      ≡ some (record { alias = alias; connector_id = connector_id })
unfolding handle_bind_update notify_all_threads
updated-set_all page fd alias owner connector_id m d =
    let b : Bind = record { alias = alias; connector_id = connector_id } in
    let page' : Main _ = record page { socket_binds = set fd b page.socket_binds } in
    ap (λ l. get fd (set_all l m))
      (notify_from-binds page.custom_threads owner (notify_bind_add fd alias connector_id) page')
    ∙ get-set_all fd b (set fd b page.socket_binds) m (keys-set-Distinct fd b page.socket_binds d)
        (get-set fd fd b page.socket_binds ∙ (rw (==_refl fd) refl))

-- The worker takes over what comes back under the name of its request.
update_binds_lem :
    {R : Type 0} (o : Outside R) (request_id : Text) (rest : R) (info : Info)
    (s t : Sockets (Worker R))
    → o.fresh_id s.world.rest ≡ (request_id, rest)
    → o.once_info request_id (record s {
      world = post_message (fetch_binds request_id) (record s.world { rest = rest });
    })
      ≡ (ok info, t)
    → update_binds o s ≡ (
      ok info.binds,
      with_world (λ w. record w { aliases_holder = set_aliases info.aliases w.aliases_holder }) t,
    )
unfolding update_binds new_id modify pure ◌>>=◌
update_binds_lem o request_id rest info s t named answered = rw (named, answered) refl

send-after :
    {W : Type 0} (e : Externals W) (fd : ℕ) (b : Bind) (msg : Bytes) (s u : Sockets W)
    → ensure_bound e fd s ≡ (ok tt, u)
    → get fd u.binds ≡ some b
    → send e fd msg s ≡ e.external_send b.alias b.connector_id msg u
unfolding send ◌>>=◌
send-after e fd b msg s u bounded there = rw (bounded, bound-get e fd b u there) refl

get-set_aliases_away :
    (alias : Text) (news m : Map Text Text)
    → contains alias (keys news) ≡ false
    → get alias (set_aliases news m) ≡ get alias m
unfolding set_aliases keys contains
get-set_aliases_away alias [] m away = refl
get-set_aliases_away alias ((k, id) ∷ news) m away =
    let head : (k == alias) ≡ false = ground (arith, away) in
    let tail : contains alias (keys news) ≡ false = ground (arith, away) in
    get-set_aliases_away alias news (set k id m) tail ∙ get-set k alias id m ∙ (rw (head) refl)

-- An alias that was fetched is held after the fetched aliases are set.
get-set_aliases :
    (alias id : Text) (news m : Map Text Text)
    → Distinct (keys news)
    → get alias news ≡ some id
    → get alias (set_aliases news m) ≡ some id
unfolding set_aliases get keys
get-set_aliases alias id [] m d h = ground (arith, h)
get-set_aliases alias id ((k, c) ∷ news) m d h = elim (Bool-cases (k == alias)) [
  | inl same ↦
      (let here : some c ≡ some id = sym (rw (same) refl) ∙ h in
        let key : k ≡ alias = (text_beq_iff k alias).0 same in
        get-set_aliases_away alias news (set k c m)
          (ap (λ j. contains j (keys news)) (sym key) ∙ d.0)
        ∙ get-set k alias c m
        ∙ (rw (same) here))
  | inr other ↦ get-set_aliases alias id news (set k c m) d.1 (sym (rw (other) refl) ∙ h)
]

-- What a worker hands to its page for an alias that it holds, and then awaits.
abbrev pub handed :
    {R : Type 0} → Text → Text → Bytes → Text → R → Sockets (Worker R) → Sockets (Worker R)
handed id connector_id msg sent_id rest s =
    with_world
      (λ w. post_message (wrtc_send id connector_id msg sent_id) (record w { rest = rest })) s

handle_external_send-handed :
    {R : Type 0} (o : Outside R) (alias connector_id id sent_id : Text) (rest : R) (msg : Bytes)
    (s : Sockets (Worker R))
    → get alias s.world.aliases_holder ≡ some id
    → o.fresh_id s.world.rest ≡ (sent_id, rest)
    → handle_external_send o alias connector_id msg s
      ≡ o.once_sent sent_id (handed id connector_id msg sent_id rest s)
unfolding handle_external_send send_to new_id modify gets ◌>>=◌
handle_external_send-handed o alias connector_id id sent_id rest msg s held named =
    rw (held, send_to) (rw (named) refl)

page_aliases :
    {T : Type 0} (page : Main T) (fd : ℕ) (alias : Text) (owner : ℕ) (connector_id : Text)
    → (handle_bind_update fd alias owner connector_id page).socket_aliases ≡ page.socket_aliases
unfolding handle_bind_update notify_all_threads
page_aliases page fd alias owner connector_id =
    notify_from-aliases page.custom_threads owner (notify_bind_add fd alias connector_id) _

-- After a thread has set the binding of a descriptor, the page answers a thread that fetches the
-- bindings with its bindings and aliases; and a worker that does not know the descriptor asks, takes
-- over what it is answered, hands the message to its page under the id that the page held for the
-- alias and the binding's connector, and waits until it is sent. Conditions: the fetching thread is
-- found; no descriptor and no alias stood twice in the page's tables, and the page held an id for the
-- alias; the answer comes back under the name of the request; and the second request gets the name
-- `sent_id`.
pub handle_bind_update-send :
    {T R : Type 0} (page : Main T) (fd : ℕ) (alias : Text) (owner : ℕ)
    (connector_id id request_id sent_id : Text) (p : Port) (o : Outside R) (rest last : R)
    (s t : Sockets (Worker R)) (msg : Bytes)
    → Distinct (keys page.socket_binds)
    → Distinct (keys page.socket_aliases)
    → get alias page.socket_aliases ≡ some id
    → let page' : Main T = handle_bind_update fd alias owner connector_id page in
      get_thread s.world.thread_id page' ≡ some p
      → has fd s.binds ≡ false
      → o.fresh_id s.world.rest ≡ (request_id, rest)
      → o.once_info request_id (record s {
        world = post_message (fetch_binds request_id) (record s.world { rest = rest });
      })
        ≡ (ok (record { binds = page'.socket_binds; aliases = page'.socket_aliases }), t)
      → o.fresh_id t.world.rest ≡ (sent_id, last)
      → (handle_fetch_binds s.world.thread_id request_id page' ≡ (
        ok tt,
        post p (on_fetch_binds request_id page'.socket_binds page'.socket_aliases) page',
      ))
        × (send (externals o) fd msg s
            ≡ o.once_sent sent_id (
                handed id connector_id msg sent_id last (
                  with_binds (set_all page'.socket_binds) (
                    with_world
                      (λ w. record w {
                        aliases_holder = set_aliases page'.socket_aliases w.aliases_holder;
                      })
                      t))))
unfolding handle_fetch_binds reply post_to gets modify ◌>>=◌
handle_bind_update-send page fd alias owner connector_id id request_id sent_id p o rest last s t msg
      d e known found unknown named answered again =
    let b : Bind = record { alias = alias; connector_id = connector_id } in
    let page' : Main _ = handle_bind_update fd alias owner connector_id page in
    let t' : Sockets (Worker _) =
      with_world
        (λ w. record w { aliases_holder = set_aliases page'.socket_aliases w.aliases_holder }) t in
    let u : Sockets (Worker _) = with_binds (set_all page'.socket_binds) t' in
    let there : get fd u.binds ≡ some b =
      updated-set_all page fd alias owner connector_id t.binds d in
    let held : get alias u.world.aliases_holder ≡ some id =
      ap (λ l. get alias (set_aliases l t.world.aliases_holder))
        (page_aliases page fd alias owner connector_id)
      ∙ get-set_aliases alias id page.socket_aliases t.world.aliases_holder e known in
    (
      rw found refl,
      send-after (externals o) fd b msg s u
            (ensure_bound-fetched (externals o) fd page'.socket_binds s t' unknown
              (update_binds_lem o request_id rest _ s t named answered)
              (has-get_found (externals o) fd b u.binds there))
            there
          ∙ handle_external_send-handed o alias connector_id id sent_id last msg u held again,
    )
