-- ===== src/Signaling/Server/Owners.antt =====
-- Who has bound an alias, over runs of the server's handlers.
use unisockets.Prelude.{
  ◌≡◌, refl, sym, ap, ◌∙◌, ◌≢◌, ◌&&◌, true, false, Bool, Option, none, some, Text, text_key,
  text_beq_iff, ◌==◌, Bool-cases, Option-cases, inl, inr, arith,
}
use unisockets.Map.{Map, get, has, set, delete}
use unisockets.Map.Laws.{get-set, get-delete, has-get, is_some}
use unisockets.Signaling.Server.Ownership.{owns_iff}
use unisockets.Signaling.Errors.{ok, Result-cases}
use unisockets.Signaling.Operation.{
  Operation, KnockData, BindData, AcceptingData, ShutdownData, ConnectData,
}
use unisockets.Signaling.Subnets.{overflow_id, Subnets, create_tcp_address}
use unisockets.Signaling.Server.Action.{
  MAlias, Server, Socket, send, push, broadcast, modify, throw, gets, ◌>>=◌,
}
use unisockets.Signaling.Server.Goodbye.{handle_close}
use unisockets.Signaling.Server.Handlers.{
  handle_operation, handle_knock, answer_knock, acknowledge, admit, register_goodbye, greet_all,
  handle_offer, handle_answer, handle_candidate, handle_bind, accept_bind, reject_bind,
  handle_accepting, handle_shutdown, accept_shutdown, reject_shutdown, handle_connect,
  answer_connect, accept_connect, complete_connect, reject_connect, owns,
}
use unisockets.Signaling.Server.Invariant.{IsClean, IsSound}
use unisockets.Signaling.Server.Keeps.{Keeps, Keeps-modify, Keeps-bind, keeps_rules}
use unisockets.Signaling.Server.Leaving.{handle_close-Leaves, is_of}
use unisockets.Signaling.Server.Messages.{send_all-sending, greet_all-sending}
use unisockets.Signaling.Server.Reach.{Step, Step-IsSound}

-- The id of the client that has bound an alias.
abbrev pub bound_by : Option MAlias → Option Text
bound_by none = none
bound_by (some a) = some a.id

bound-is_some : (o : Option MAlias) {id : Text} → bound_by o ≡ some id → is_some o ≡ true
bound-is_some none e = cc
bound-is_some (some a) e = refl

module _ (x id : Text) where
  pub record IsOwned (s : Server) : Type 0 where
    pub owned : bound_by (get x s.aliases) ≡ some id

  -- Changes of other parts of the state.
  set_pool-IsOwned : (t : Subnets) (s : Server) → IsOwned s → IsOwned (record s { subnets = t })
  set_pool-IsOwned t s h = record { owned = h.owned }

  set_client-IsOwned :
      (m : Map Text Socket) (s : Server) → IsOwned s → IsOwned (record s { clients = m })
  set_client-IsOwned m s h = record { owned = h.owned }

  send-IsOwned : (w : Option Socket) (op : Operation) → Keeps IsOwned (send w op)
  unfolding send push
  send-IsOwned none op = record { stays = λ s h. h }
  send-IsOwned (some w) op = record { stays = λ s h. record { owned = h.owned } }

  broadcast-IsOwned : (op : Operation) → Keeps IsOwned (broadcast op)
  unfolding broadcast
  broadcast-IsOwned op = record {
    stays = λ s h. rw (send_all-sending s.clients op s) (record { owned = h.owned });
  }

  register_goodbye-IsOwned : (i : Text) → Keeps IsOwned (register_goodbye i)
  unfolding register_goodbye
  register_goodbye-IsOwned i = record {
    stays = λ s h. elim (Option-cases (get i s.clients)) [
      | inl e ↦ rw (e, register_goodbye) h
      | inr (w, e) ↦ rw (e, register_goodbye) (record { owned = h.owned })
    ];
  }

  greet_all-IsOwned : (i : Text) → Keeps IsOwned (modify (λ s. greet_all s.clients i s))
  greet_all-IsOwned i =
      Keeps-modify _ λ s h. rw (greet_all-sending s.clients i s) (record { owned = h.owned })

  -- Another alias is set or deleted.
  set_alias-IsOwned :
      (y : Text) (a : MAlias)
      → (y == x) ≡ false
      → (s : Server) → IsOwned s
      → IsOwned (record s { aliases = set y a s.aliases })
  set_alias-IsOwned y a other s h = record {
    owned = ap bound_by (get-set y x a s.aliases ∙ (rw other refl)) ∙ h.owned;
  }

  delete_alias-IsOwned :
      (y : Text)
      → (y == x) ≡ false
      → (s : Server) → IsOwned s
      → IsOwned (record s { aliases = delete y s.aliases })
  delete_alias-IsOwned y other s h = record {
    owned = ap bound_by (get-delete y x s.aliases ∙ (rw other refl)) ∙ h.owned;
  }

  ruleset owner_rules = (
    keeps_rules, send-IsOwned, broadcast-IsOwned, register_goodbye-IsOwned, greet_all-IsOwned,
    set_alias-IsOwned, delete_alias-IsOwned, set_client-IsOwned, set_pool-IsOwned,
  )

  admit-IsOwned : (i : Text) (client : Socket) → Keeps IsOwned (admit i client)
  unfolding admit
  admit-IsOwned i client = search owner_rules

  answer_knock-IsOwned : (i : Text) (client : Socket) → Keeps IsOwned (answer_knock i client)
  unfolding answer_knock acknowledge
  answer_knock-IsOwned i client = elim (Bool-cases (i == overflow_id)) [
    | inl e ↦ rw e (send-IsOwned _ _)
    | inr e ↦ rw e (Keeps-bind _ _ (send-IsOwned _ _) λ _. admit-IsOwned i client)
  ]

  handle_knock-IsOwned : (d : KnockData) (client : Socket) → Keeps IsOwned (handle_knock d client)
  unfolding handle_knock
  handle_knock-IsOwned d client = search (owner_rules, answer_knock-IsOwned)

  accept_bind-IsOwned : (d : BindData) → (d.alias == x) ≡ false → Keeps IsOwned (accept_bind d)
  unfolding accept_bind
  accept_bind-IsOwned d other = search owner_rules

  reject_bind-IsOwned : (d : BindData) → Keeps IsOwned (reject_bind d)
  unfolding reject_bind
  reject_bind-IsOwned d = search owner_rules

  -- An alias that is bound is not free.
  free_other : (y : Text) (s : Server) → IsOwned s → has y s.aliases ≡ false → (y == x) ≡ false
  free_other y s h free = elim (Bool-cases (y == x)) [
    | inl same ↦
        (let taken = has-get x s.aliases ∙ bound-is_some (get x s.aliases) h.owned in
          let other = ap (λ z. has z s.aliases) (sym ((text_beq_iff y x).0 same)) ∙ free in cc)
    | inr other ↦ other
  ]

  handle_bind-IsOwned : (d : BindData) → Keeps IsOwned (handle_bind d)
  unfolding handle_bind
  handle_bind-IsOwned d = record {
    stays = λ s h. elim (Bool-cases (has d.alias s.aliases)) [
      | inl e ↦ rw e ((reject_bind-IsOwned d).stays s h)
      | inr e ↦ rw e ((accept_bind-IsOwned d (free_other d.alias s h e)).stays s h)
    ];
  }

  -- Who owns the alias in the handlers' sense is its client.
  owns-id :
      (y i : Text) (s : Server) → IsOwned s → owns i y s ≡ true → (y == x) ≡ true → (i == id) ≡ true
  owns-id y i s h own same =
      let own_x = ap (λ z. owns i z s) (sym ((text_beq_iff y x).0 same)) ∙ own in
      elim (Option-cases (get x s.aliases)) [
        | inl e ↦ absurd (ground (arith, e, h.owned))
        | inr (a, e) ↦ ground (
          arith,
          e,
          h.owned,
          sym (owns_iff i x s e) ∙ own_x,
          text_beq_iff a.id i,
          text_beq_iff i id,
        )
      ]

  handle_accepting-IsOwned : (d : AcceptingData) → Keeps IsOwned (handle_accepting d)
  unfolding handle_accepting
  handle_accepting-IsOwned d = record {
    stays = λ s h. elim (Bool-cases (owns d.id d.alias s)) [
      | inl e ↦ rw e (elim (Bool-cases (d.alias == x)) [
        | inl same ↦ record {
          owned =
              ap bound_by {y = some (record { id = d.id; accepting = true })}
                (get-set d.alias x _ s.aliases ∙ (rw same refl))
              ∙ ap some ((text_beq_iff d.id id).0 (owns-id d.alias d.id s h e same));
        }
        | inr other ↦ set_alias-IsOwned d.alias (record { id = d.id; accepting = true }) other s h
      ])
      | inr e ↦ rw e h
    ];
  }

  -- What a message must not do.
  abbrev pub Spares : Operation → Server → Type 0
  Spares (Operation.shutdown d) s = (d.alias == x && d.id == id) ≡ false
  Spares (Operation.connect d) s = (create_tcp_address d.id s.subnets).0 ≢ ok x
  Spares _ s = Unit

  accept_shutdown-IsOwned :
      (d : ShutdownData) → (d.alias == x) ≡ false → Keeps IsOwned (accept_shutdown d)
  unfolding accept_shutdown
  accept_shutdown-IsOwned d other = search owner_rules depth 9

  reject_shutdown-IsOwned : (d : ShutdownData) → Keeps IsOwned (reject_shutdown d)
  unfolding reject_shutdown
  reject_shutdown-IsOwned d = search owner_rules

  handle_shutdown-IsOwned :
      (d : ShutdownData) (s : Server)
      → (d.alias == x && d.id == id) ≡ false
      → IsOwned s
      → IsOwned (handle_shutdown d s).1
  unfolding handle_shutdown
  handle_shutdown-IsOwned d s spared h = elim (Bool-cases (owns d.id d.alias s)) [
    | inl e ↦
        (let other : (d.alias == x) ≡ false = elim (Bool-cases (d.alias == x)) [
          | inl same ↦ ground (arith, spared, same, owns-id d.alias d.id s h e same)
          | inr other ↦ other
        ] in
          rw e ((accept_shutdown-IsOwned d other).stays s h))
    | inr e ↦ rw e ((reject_shutdown-IsOwned d).stays s h)
  ]

  accept_connect-IsOwned :
      (d : ConnectData) (alias : Text) (client : Option Socket)
      → (alias == x) ≡ false
      → Keeps IsOwned (accept_connect d alias client)
  unfolding accept_connect complete_connect
  accept_connect-IsOwned d alias client other = search owner_rules depth 12

  answer_connect-IsOwned :
      (d : ConnectData) (alias : Text) (client : Option Socket) (b : Bool)
      → (alias == x) ≡ false
      → Keeps IsOwned (answer_connect d alias client b)
  unfolding answer_connect reject_connect
  answer_connect-IsOwned d alias client false other = search owner_rules
  answer_connect-IsOwned d alias client true other = accept_connect-IsOwned d alias client other

  handle_connect-IsOwned :
      (d : ConnectData) (s : Server)
      → (create_tcp_address d.id s.subnets).0 ≢ ok x
      → IsOwned s
      → IsOwned (handle_connect d s).1
  unfolding handle_connect ◌>>=◌
  handle_connect-IsOwned d s spared h =
      let t = record s { subnets = (create_tcp_address d.id s.subnets).1 } in
      elim (Result-cases (create_tcp_address d.id s.subnets).0) [
        | inl (alias, e) ↦
            (let other : (alias == x) ≡ false = elim (Bool-cases (alias == x)) [
              | inl same ↦ absurd (spared (e ∙ ap ok ((text_beq_iff alias x).0 same)))
              | inr other ↦ other
            ] in
              rw e
                ((answer_connect-IsOwned d alias _ _ other).stays t (record { owned = h.owned })))
        | inr (x', e) ↦ rw e (record { owned = h.owned })
      ]

  handle_operation-IsOwned :
      (op : Operation) (client : Socket) (s : Server)
      → Spares op s
      → IsOwned s
      → IsOwned (handle_operation op client s).1
  unfolding handle_operation handle_offer handle_answer handle_candidate throw gets ◌>>=◌
  handle_operation-IsOwned (Operation.knock d) client s c h =
      (handle_knock-IsOwned d client).stays s h
  handle_operation-IsOwned (Operation.bind d) client s c h = (handle_bind-IsOwned d).stays s h
  handle_operation-IsOwned (Operation.accepting d) client s c h =
      (handle_accepting-IsOwned d).stays s h
  handle_operation-IsOwned (Operation.shutdown d) client s c h = handle_shutdown-IsOwned d s c h
  handle_operation-IsOwned (Operation.connect d) client s c h = handle_connect-IsOwned d s c h
  handle_operation-IsOwned (Operation.offer d) client s c h =
      (send-IsOwned (get d.answerer_id s.clients) _).stays s h
  handle_operation-IsOwned (Operation.answer d) client s c h =
      (send-IsOwned (get d.offerer_id s.clients) _).stays s h
  handle_operation-IsOwned (Operation.candidate d) client s c h =
      (send-IsOwned (get d.answerer_id s.clients) _).stays s h
  handle_operation-IsOwned (Operation.goodbye d) client s c h = h
  handle_operation-IsOwned (Operation.acknowledgement d) client s c h = h
  handle_operation-IsOwned (Operation.greeting d) client s c h = h
  handle_operation-IsOwned (Operation.alias d) client s c h = h
  handle_operation-IsOwned (Operation.accept d) client s c h = h

  -- Another client's socket closes.
  handle_close-IsOwned :
      (other : Text) (s : Server)
      → (other == id) ≡ false
      → IsSound s
      → IsOwned s
      → IsOwned (handle_close other s).1
  handle_close-IsOwned other s away sound h =
      let leaves = (handle_close-Leaves other s sound).1 in
      elim (Option-cases (get x s.aliases)) [
        | inl e ↦ absurd (ground (arith, e, h.owned))
        | inr (a, e) ↦
            (let kept : is_of other (get x s.aliases) ≡ false =
                ground (arith, e, h.owned, away, text_beq_iff a.id other, text_beq_iff other id) in
              record { owned = ap bound_by (leaves.aliases x ∙ (rw kept refl)) ∙ h.owned })
      ]

  -- Messages and closed sockets after a state, but for what could end the binding of the alias.
  pub data Run (s : Server) : Server → Type 0 where
    start : Run s s
    message :
        {t : Server} (op : Operation) (client : Socket)
        → Run s t
        → IsClean op
        → Spares op t
        → Run s (handle_operation op client t).1
    closes :
        {t : Server} (other : Text)
        → Run s t
        → (other == id) ≡ false
        → Run s (handle_close other t).1

  Run-sound : {s t : Server} → IsSound s → IsOwned s → Run s t → IsSound t × IsOwned t
  Run-sound v h start = (v, h)
  Run-sound v h (message op client r clean spared) =
      let (sound, owned) = Run-sound v h r in
      (
        Step-IsSound (Step.message op client _ clean) sound,
        handle_operation-IsOwned op client _ spared owned,
      )
  Run-sound v h (closes other r away) =
      let (sound, owned) = Run-sound v h r in
      (Step-IsSound (Step.closes other _) sound, handle_close-IsOwned other _ away sound owned)

  -- An alias stays with the client that has bound it, whatever messages the server gets, in any
  -- order, and whatever sockets close, other clients' binds, shutdowns and accepts of the same alias
  -- included, as long as no shutdown of it comes under its client's id, that client's socket does not
  -- close, and no connect is given the alias for its own. Conditions: at the start the pool is well
  -- formed, and no alias and no client is entered twice; and aliases that are bound have a natural
  -- suffix and port.
  pub Run-IsOwned : {s t : Server} → IsSound s → IsOwned s → Run s t → IsOwned t
  Run-IsOwned v h r = (Run-sound v h r).1
