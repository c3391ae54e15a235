-- ===== src/Signaling/Server/Process/Presence.antt =====
-- No client without a connection: what is entered in `clients` belongs to a socket that is open and
-- has a listener which takes the entry out again.
use unisockets.Prelude.{
  ◌≡◌, refl, sym, ap, ◌∙◌, List, [], ◌∷◌, ◌++◌, Bool, true, false, ◌||◌, ◌&&◌, Option, none, some,
  Text, text_key, arith, nat_key, nat_beq_iff, ◌==◌, if◌then◌else◌, inl, inr, Bool-cases,
}
use unisockets.Map.{Map, get, has, set, delete}
use unisockets.Map.Laws.{get-set}
use unisockets.Signaling.Errors.{Result}
use unisockets.Signaling.Operation.{
  Operation, KnockData, BindData, AcceptingData, ShutdownData, ConnectData,
}
use unisockets.Signaling.Subnets.{Subnets, overflow_id}
use unisockets.Signaling.Server.Action.{Socket, MAlias, Server, push, send, broadcast}
use unisockets.Signaling.Server.Handlers.{
  handle_knock, answer_knock, admit, acknowledge, handle_offer, handle_answer, handle_candidate,
  handle_bind, accept_bind, reject_bind, handle_accepting, handle_shutdown, accept_shutdown,
  reject_shutdown, handle_connect, answer_connect, accept_connect, complete_connect, reject_connect,
  handle_operation, owns,
}
use unisockets.Signaling.Server.Messages.{send_all-sending}
use unisockets.Signaling.Server.Keeps.{Keeps, Keeps-bind, keeps_rules}
use unisockets.Signaling.Server.Knocking.{admit_lem}

-- Whether a "close" listener of the socket takes this client out.
abbrev pub listens : Socket → Text → List (Socket × Text) → Bool
listens w id [] = false
listens w id ((v, k) ∷ rest) = (v == w && k == id) || listens w id rest

pub record IsPresent (peers : Map Socket Bool) (s : Server) : Type 0 where
  pub connected : (id : Text) (w : Socket) → get id s.clients ≡ some w → has w peers ≡ true
  pub leaves : (id : Text) (w : Socket) → get id s.clients ≡ some w → listens w id s.closing ≡ true

listens-append :
    (w : Socket) (id : Text) (l k : List (Socket × Text))
    → listens w id (l ++ k) ≡ (listens w id l || listens w id k)
listens-append w id [] k = refl
listens-append w id (e ∷ l) k = ground (arith, listens-append w id l k)

module _ {peers : Map Socket Bool} where
  -- What changes neither the clients nor the listeners.
  same-IsPresent :
      (s t : Server)
      → t.clients ≡ s.clients
      → t.closing ≡ s.closing
      → IsPresent peers s
      → IsPresent peers t
  same-IsPresent s t e f h = record {
    connected = λ id w g. h.connected id w (ap (get id) (sym e) ∙ g);
    leaves = λ id w g. ap (listens w id) f ∙ h.leaves id w (ap (get id) (sym e) ∙ g);
  }

  set_alias-IsPresent :
      (x : Text) (a : MAlias) (s : Server)
      → IsPresent peers s
      → IsPresent peers (record s { aliases = set x a s.aliases })
  set_alias-IsPresent x a s h = same-IsPresent s _ refl refl h

  delete_alias-IsPresent :
      (x : Text) (s : Server)
      → IsPresent peers s
      → IsPresent peers (record s { aliases = delete x s.aliases })
  delete_alias-IsPresent x s h = same-IsPresent s _ refl refl h

  set_pool-IsPresent :
      (t : Subnets) (s : Server) → IsPresent peers s → IsPresent peers (record s { subnets = t })
  set_pool-IsPresent t s h = same-IsPresent s _ refl refl h

  send-IsPresent : (w : Option Socket) (op : Operation) → Keeps (IsPresent peers) (send w op)
  unfolding send push
  send-IsPresent none op = record { stays = λ s h. h }
  send-IsPresent (some w) op = record { stays = λ s h. same-IsPresent s _ refl refl h }

  broadcast-IsPresent : (op : Operation) → Keeps (IsPresent peers) (broadcast op)
  unfolding broadcast
  broadcast-IsPresent op = record {
    stays = λ s h. rw (send_all-sending s.clients op s) (same-IsPresent s _ refl refl h);
  }

  ruleset present_rules = (
    keeps_rules, send-IsPresent, broadcast-IsPresent, set_alias-IsPresent, delete_alias-IsPresent,
    set_pool-IsPresent,
  )

  -- The entry and its listener come together.
  admit-IsPresent :
      (id : Text) (w : Socket) → has w peers ≡ true → Keeps (IsPresent peers) (admit id w)
  admit-IsPresent id w e = record {
    stays = λ s h. rw (admit_lem id w s) (record {
      connected =
          λ k v g. ground (arith, get-set id k w s.clients, h.connected k v, nat_beq_iff w v);
      leaves = λ k v g. ground (
        arith,
        get-set id k w s.clients,
        h.leaves k v,
        listens-append v k s.closing ((w, id) ∷ []),
        nat_beq_iff w v,
      );
    });
  }

  answer_knock-IsPresent :
      (id : Text) (w : Socket) → has w peers ≡ true → Keeps (IsPresent peers) (answer_knock id w)
  unfolding answer_knock acknowledge
  answer_knock-IsPresent id w e = elim (Bool-cases (id == overflow_id)) [
    | inl f ↦ rw f (send-IsPresent _ _)
    | inr f ↦ rw f (Keeps-bind _ _ (send-IsPresent _ _) λ _. admit-IsPresent id w e)
  ]

  accept_bind-IsPresent : (d : BindData) → Keeps (IsPresent peers) (accept_bind d)
  unfolding accept_bind
  accept_bind-IsPresent d = search present_rules

  reject_bind-IsPresent : (d : BindData) → Keeps (IsPresent peers) (reject_bind d)
  unfolding reject_bind
  reject_bind-IsPresent d = search present_rules

  accept_shutdown-IsPresent : (d : ShutdownData) → Keeps (IsPresent peers) (accept_shutdown d)
  unfolding accept_shutdown
  accept_shutdown-IsPresent d = search present_rules depth 9

  reject_shutdown-IsPresent : (d : ShutdownData) → Keeps (IsPresent peers) (reject_shutdown d)
  unfolding reject_shutdown
  reject_shutdown-IsPresent d = search present_rules

  accept_connect-IsPresent :
      (d : ConnectData) (alias : Text) (client : Option Socket)
      → Keeps (IsPresent peers) (accept_connect d alias client)
  unfolding accept_connect complete_connect
  accept_connect-IsPresent d alias client = search present_rules depth 12

  answer_connect-IsPresent :
      (d : ConnectData) (alias : Text) (client : Option Socket) (b : Bool)
      → Keeps (IsPresent peers) (answer_connect d alias client b)
  unfolding answer_connect reject_connect
  answer_connect-IsPresent d alias client false = search present_rules
  answer_connect-IsPresent d alias client true = accept_connect-IsPresent d alias client

  either-IsPresent :
      {A : Type 0} (b : Bool) (m k : Server → Result A × Server) (s : Server)
      → Keeps (IsPresent peers) m
      → Keeps (IsPresent peers) k
      → IsPresent peers s
      → IsPresent peers (if b then m s else k s).1
  either-IsPresent true m k s f g h = f.stays s h
  either-IsPresent false m k s f g h = g.stays s h

  handle_knock-IsPresent :
      (d : KnockData) (w : Socket) → has w peers ≡ true → Keeps (IsPresent peers) (handle_knock d w)
  unfolding handle_knock
  handle_knock-IsPresent d w e = search (present_rules, answer_knock-IsPresent)

  handle_bind-IsPresent : (d : BindData) → Keeps (IsPresent peers) (handle_bind d)
  unfolding handle_bind
  handle_bind-IsPresent d = record {
    stays = λ s h.
        either-IsPresent (has d.alias s.aliases) (reject_bind d) (accept_bind d) s
          (reject_bind-IsPresent d) (accept_bind-IsPresent d) h;
  }

  handle_shutdown-IsPresent : (d : ShutdownData) → Keeps (IsPresent peers) (handle_shutdown d)
  unfolding handle_shutdown
  handle_shutdown-IsPresent d = record {
    stays = λ s h.
        either-IsPresent (owns d.id d.alias s) (accept_shutdown d) (reject_shutdown d) s
          (accept_shutdown-IsPresent d) (reject_shutdown-IsPresent d) h;
  }

  handle_accepting-IsPresent : (d : AcceptingData) → Keeps (IsPresent peers) (handle_accepting d)
  unfolding handle_accepting
  handle_accepting-IsPresent d = record {
    stays = λ s h. elim (Bool-cases (owns d.id d.alias s)) [
      | inl e ↦ rw e (same-IsPresent s _ refl refl h)
      | inr e ↦ rw e h
    ];
  }

  handle_connect-IsPresent : (d : ConnectData) → Keeps (IsPresent peers) (handle_connect d)
  unfolding handle_connect
  handle_connect-IsPresent d = search (present_rules, answer_connect-IsPresent)

  pub handle_operation-IsPresent :
      (op : Operation) (w : Socket)
      → has w peers ≡ true
      → Keeps (IsPresent peers) (handle_operation op w)
  unfolding handle_operation handle_offer handle_answer handle_candidate
  handle_operation-IsPresent (Operation.knock d) w e = handle_knock-IsPresent d w e
  handle_operation-IsPresent (Operation.bind d) w e = handle_bind-IsPresent d
  handle_operation-IsPresent (Operation.accepting d) w e = handle_accepting-IsPresent d
  handle_operation-IsPresent (Operation.shutdown d) w e = handle_shutdown-IsPresent d
  handle_operation-IsPresent (Operation.connect d) w e = handle_connect-IsPresent d
  handle_operation-IsPresent _ w e = search present_rules
