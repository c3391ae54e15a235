-- ===== src/Transport/Candidates.antt =====
-- ICE candidates: handleCandidate, handleAnswer and addQueuedCandidates.
use unisockets.Prelude.{
  ◌≡◌, ◌⊎◌, refl, ap, ◌∙◌, sym, subst, true, false, Bool-cases, inl, inr, List, [], ◌∷◌, ◌++◌,
  append-nil, append_assoc, some, Text, text_key, text_beq_iff, ◌==◌, arith, All,
}
use unisockets.Map.{Map, get, get_or, set, contains}
use unisockets.Map.Laws.{get-set, ==_refl}
use unisockets.Signaling.Errors.{Error, ok, err, Result-cases}
use unisockets.Transport.{
  Peer, Transporter, handle_candidate, add_candidate, queue_candidate, without_candidate,
  retry_candidate, retry_all, add_queued_candidates, answer_set, handle_answer,
}

module _ (peer : Peer) (id : Text) where
  open peer use {
    Connection, described, set_remote_description, add_ice_candidate, described-set, described-add,
  }

  -- The candidates tried one after another, whether or not one before was refused.
  abbrev pub add_all : List Text → Connection → Connection
  add_all [] c = c
  add_all (candidate ∷ l) c = add_all l (add_ice_candidate candidate c).1

  -- What is queued for the connection.
  abbrev pub waiting : Transporter peer → List Text
  waiting t = get_or [] (get id t.queued_candidates)

  abbrev without_all : List Text → List Text → List Text
  without_all [] q = q
  without_all (candidate ∷ l) q = without_all l (without_candidate peer candidate q)

  without-contained :
      (candidate : Text) (l q : List Text)
      → All (λ c. contains c (candidate ∷ l) ≡ true) q
      → All (λ c. contains c l ≡ true) (without_candidate peer candidate q)
  unfolding without_candidate contains
  without-contained candidate l [] h = tt
  without-contained candidate l (c ∷ q) (here, rest) = elim (Bool-cases (c == candidate)) [
    | inl e ↦ rw e (without-contained candidate l q rest)
    | inr e ↦ rw e (
      ground (arith, here, e, text_beq_iff c candidate, text_beq_iff candidate c),
      without-contained candidate l q rest,
    )
  ]

  without_all-empty : (l q : List Text) → All (λ c. contains c l ≡ true) q → without_all l q ≡ []
  unfolding contains
  without_all-empty [] [] h = refl
  without_all-empty [] (c ∷ q) (here, rest) = cc
  without_all-empty (candidate ∷ l) q h =
      without_all-empty l (without_candidate peer candidate q) (without-contained candidate l q h)

  contains-middle : (c : Text) (k l : List Text) → contains c (k ++ c ∷ l) ≡ true
  unfolding contains
  contains-middle c [] l = ground (arith, ==_refl c)
  contains-middle c (d ∷ k) l = ground (arith, contains-middle c k l)

  contains_self : (l k : List Text) → All (λ c. contains c (k ++ l) ≡ true) l
  contains_self [] k = tt
  contains_self (c ∷ l) k = (
    contains-middle c k l,
    subst (λ m. All (λ d. contains d m ≡ true) l) (append_assoc k (c ∷ []) l)
        (contains_self l (k ++ c ∷ [])),
  )

  pub own_entry {ℓ} : {V : Type ℓ} (v : V) (m : Map Text V) → get id (set id v m) ≡ some v
  own_entry v m = ground (arith, get-set id id v m, ==_refl id)

  -- One candidate of the queue, for a connection that has its remote description.
  retry_described :
      (candidate : Text) (c : Connection) (t : Transporter peer)
      → get id t.connections ≡ some c
      → described c ≡ true
      → retry_candidate peer id candidate t
        ≡ (add_candidate peer id candidate c (record t {
          queued_candidates =
              set id (without_candidate peer candidate (waiting t)) t.queued_candidates;
        })).1
  unfolding retry_candidate handle_candidate
  retry_described candidate c t e f = rw (e, f, retry_candidate, handle_candidate) refl

  retry_all_lem :
      (l : List Text) (c : Connection) (t : Transporter peer)
      → get id t.connections ≡ some c
      → described c ≡ true
      → (get id (retry_all peer id l t).connections ≡ some (add_all l c))
        × (waiting (retry_all peer id l t) ≡ without_all l (waiting t))
  unfolding retry_all add_candidate
  retry_all_lem [] c t e f = (e, refl)
  retry_all_lem (candidate ∷ l) c t e f =
      let rest = without_candidate peer candidate (waiting t) in
      let tried =
        (add_candidate peer id candidate c
          (record t { queued_candidates = set id rest t.queued_candidates })).1 in
      let (added, left) =
        retry_all_lem l (add_ice_candidate candidate c).1 tried
          (own_entry (add_ice_candidate candidate c).1 t.connections)
          (described-add candidate c ∙ f) in
      subst
        (λ u.
          (get id (retry_all peer id l u).connections ≡ some (add_all (candidate ∷ l) c))
          × (waiting (retry_all peer id l u) ≡ without_all (candidate ∷ l) (waiting t)))
        (sym (retry_described candidate c t e f))
        (added, left ∙ ap (λ q. without_all l (get_or [] q)) (own_entry rest t.queued_candidates))

  -- A connection with its remote description is given every candidate that was queued, in order and
  -- as often as it came, and none stays queued.
  pub add_queued_candidates-add_all :
      (c : Connection) (t : Transporter peer)
      → get id t.connections ≡ some c
      → described c ≡ true
      → (get id (add_queued_candidates peer id t).connections ≡ some (add_all (waiting t) c))
        × (waiting (add_queued_candidates peer id t) ≡ [])
  unfolding add_queued_candidates
  add_queued_candidates-add_all c t e f =
      let (added, left) = retry_all_lem (waiting t) c t e f in
      (added, left ∙ without_all-empty (waiting t) (waiting t) (contains_self (waiting t) []))

  -- So it is with the connection of an answer whose setRemoteDescription is fulfilled.
  pub handle_answer-add_all :
      (answer : Text) (c : Connection) (t : Transporter peer)
      → get id t.connections ≡ some c
      → (set_remote_description answer c).0 ≡ ok tt
      → ((handle_answer peer id answer t).0 ≡ ok tt)
        × (get id (handle_answer peer id answer t).1.connections
            ≡ some (add_all (waiting t) (set_remote_description answer c).1))
        × (waiting (handle_answer peer id answer t).1 ≡ [])
  unfolding handle_answer answer_set
  handle_answer-add_all answer c t e done =
      let c' : Connection = (set_remote_description answer c).1 in
      let (added, left) =
        add_queued_candidates-add_all c' (record t { connections = set id c' t.connections })
          (own_entry c' t.connections) (described-set answer c done) in
      rw (e, done, handle_answer, answer_set) (refl, added, left)

  -- With one that is rejected the candidates stay queued, and the call throws.
  pub handle_answer-rejected :
      (answer : Text) (c : Connection) (e : Error) (t : Transporter peer)
      → get id t.connections ≡ some c
      → (set_remote_description answer c).0 ≡ err e
      → ((handle_answer peer id answer t).0 ≡ err e)
        × (get id (handle_answer peer id answer t).1.connections
            ≡ some (set_remote_description answer c).1)
        × (waiting (handle_answer peer id answer t).1 ≡ waiting t)
  unfolding handle_answer answer_set
  handle_answer-rejected answer c e t there failed =
      rw (there, failed, handle_answer, answer_set)
        (refl, own_entry (set_remote_description answer c).1 t.connections, refl)

  -- Candidates that come in one after another.
  unfoldable pub handle_candidates : List Text → Transporter peer → Transporter peer
  handle_candidates [] t = t
  handle_candidates (candidate ∷ l) t = handle_candidates l (handle_candidate peer id candidate t).1

  queued_early :
      (candidate : Text) (c : Connection) (t : Transporter peer)
      → get id t.connections ≡ some c
      → described c ≡ false
      → handle_candidate peer id candidate t ≡ (ok tt, queue_candidate peer id candidate t)
  unfolding handle_candidate
  queued_early candidate c t e f = rw (e, f, handle_candidate) refl

  handle_candidates_early :
      (l : List Text) (c : Connection) (t : Transporter peer)
      → get id t.connections ≡ some c
      → described c ≡ false
      → (get id (handle_candidates l t).connections ≡ some c)
        × (waiting (handle_candidates l t) ≡ waiting t ++ l)
  unfolding handle_candidates queue_candidate
  handle_candidates_early [] c t e f = (e, sym (append-nil (waiting t)))
  handle_candidates_early (candidate ∷ l) c t e f =
      let (same, more) = handle_candidates_early l c (queue_candidate peer id candidate t) e f in
      subst
        (λ u.
          (get id (handle_candidates l u).connections ≡ some c)
          × (waiting (handle_candidates l u) ≡ waiting t ++ candidate ∷ l))
        (ap (λ y. y.1) (sym (queued_early candidate c t e f)))
        (
          same,
          more
              ∙ ap (λ q. get_or [] q ++ l)
                  (own_entry (waiting t ++ candidate ∷ []) t.queued_candidates)
              ∙ append_assoc (waiting t) (candidate ∷ []) l,
        )

  -- Candidates that come before the answer wait for its setRemoteDescription: if that is fulfilled,
  -- they are tried on the connection in the order in which they came, and none stays queued; if it is
  -- rejected, the call throws, and they stay queued. Condition: the connection is there and has no
  -- remote description before the answer, and nothing is queued at the start.
  pub early_candidates_added :
      (l : List Text) (answer : Text) (c : Connection) (t : Transporter peer)
      → get id t.connections ≡ some c
      → described c ≡ false
      → waiting t ≡ []
      → let (r, c') = set_remote_description answer c in
        let u = handle_answer peer id answer (handle_candidates l t) in
        ((r ≡ ok tt)
          × (u.0 ≡ ok tt)
          × (get id u.1.connections ≡ some (add_all l c'))
          × (waiting u.1 ≡ []))
        ⊎ ((e : Error) × (r ≡ err e)
            × (u.0 ≡ err e)
            × (get id u.1.connections ≡ some c')
            × (waiting u.1 ≡ l))
  early_candidates_added l answer c t e f none_waiting =
      let c' : Connection = (set_remote_description answer c).1 in
      let (same, queue) = handle_candidates_early l c t e f in
      let queued = queue ∙ ap (λ q. q ++ l) none_waiting in
      elim (Result-cases (set_remote_description answer c).0) [
        | inl (_, done) ↦
            (let (r, added, left) =
                handle_answer-add_all answer c (handle_candidates l t) same done in
              inl (done, r, added ∙ ap (λ q. some (add_all q c')) queued, left))
        | inr (x, failed) ↦
            (let (r, there, left) =
                handle_answer-rejected answer c x (handle_candidates l t) same failed in
              inr (x, failed, r, there, left ∙ queued))
      ]
