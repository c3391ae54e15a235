-- ===== src/Signaling/Client/Handshake.antt =====
-- The promises of `connect` and `accept` against the messages that the server sends.
use unisockets.Signaling.Operation.{AliasData}
use unisockets.Prelude.{
  ◌++◌, true, Option-cases, some, ℕ, ◌≡◌, refl, ◌≢◌, List, [], ◌∷◌, Text, text_key, ◌==◌,
  if◌then◌else◌, arith, nat_beq, nat_beq_refl, Bool-cases, inl, inr, sym, ◌∙◌,
}
use unisockets.Map.Laws.{==_refl}
use unisockets.Signaling.Operation.{Operation, ConnectData}
use unisockets.Signaling.Client.{
  handle_alias, connection_of, once_accept, accept_settles, get_accept_key, Client, Payload, Effect,
  Attempt, attempt, Promise, pending, resolved, rejected, on_payload, listen, handle_operation,
  handle_all, get_connection_key, settle,
}
use unisockets.Signaling.Server.Action.{Socket}
use unisockets.Signaling.Server.Connecting.{handshake}

-- The messages that a socket gets, in order.
abbrev pub inbox : Socket → List (Socket × Operation) → List Operation
inbox w [] = []
inbox w ((v, op) ∷ l) = if nat_beq v w then op ∷ inbox w l else inbox w l

-- A promise that is settled stays as it is.
abbrev settle_settled : (p q : Promise) → p ≢ pending → settle p q ≡ p
settle_settled pending q h = absurd (h refl)
settle_settled (resolved a) q h = refl
settle_settled (rejected e) q h = refl

on_payload_settled :
    (key : Text) (p : Payload) (t : Attempt)
    → t.promise ≢ pending
    → (on_payload key p t).promise ≡ t.promise
unfolding on_payload
on_payload_settled key p t h = ground (
  arith,
  settle_settled t.promise (resolved (if p.is_connection_alias then p.alias else t.alias)) h,
  settle_settled t.promise (rejected key) h,
)

-- No event after the one that settles the promise of `connect` changes it.
pub listen_settled :
    (key : Text) (es : List Effect) (t : Attempt)
    → t.promise ≢ pending
    → (listen key es t).promise ≡ t.promise
unfolding listen
listen_settled key [] t h = refl
listen_settled key (Effect.emit_connection k p ∷ es) t h = elim (Bool-cases (k == key)) [
  | inl e ↦
      rw (e, listen)
        (listen_settled key es (on_payload key p t)
            (λ q. h (sym (on_payload_settled key p t h) ∙ q))
          ∙ on_payload_settled key p t h)
  | inr e ↦ rw (e, listen) (listen_settled key es t h)
]
listen_settled key (Effect.on_goodbye id ∷ es) t h = listen_settled key es t h
listen_settled key (Effect.on_acknowledgement id r ∷ es) t h = listen_settled key es t h
listen_settled key (Effect.get_offer a o c ∷ es) t h = listen_settled key es t h
listen_settled key (Effect.get_answer a o c x ∷ es) t h = listen_settled key es t h
listen_settled key (Effect.on_answer a o x ∷ es) t h = listen_settled key es t h
listen_settled key (Effect.on_candidate a o x ∷ es) t h = listen_settled key es t h
listen_settled key (Effect.on_alias a o x ∷ es) t h = listen_settled key es t h
listen_settled key (Effect.emit_set k b ∷ es) t h = listen_settled key es t h
listen_settled key (Effect.emit_accept k b ∷ es) t h = listen_settled key es t h

-- The messages of an accepted handshake, as far as they go to the connecting client, resolve its
-- promise with the alias that the server has given it. Condition: the connection's id is not empty.
pub handshake-resolved :
    (d : ConnectData) (alias server_id : Text) (w v : Socket) (c : Client) (x : ℕ) (id : Text)
    → d.client_connection_id ≡ x ∷ id
    → (listen
        (get_connection_key d.client_connection_id)
        (handle_all (inbox w (handshake d alias server_id w v)) c).1
        attempt).promise
      ≡ resolved alias
unfolding listen handle_all handle_operation on_payload
handshake-resolved d alias server_id w v c x id e = elim (Bool-cases (nat_beq v w)) [
  | inl f ↦ rw (e, f, nat_beq_refl w, ==_refl (get_connection_key (x ∷ id))) refl
  | inr f ↦ rw (e, f, nat_beq_refl w, ==_refl (get_connection_key (x ∷ id))) refl
]

-- An Alias message settles no promise of `accept`.
once_accept-handle_alias :
    (key : Text) (d : AliasData) (es : List Effect)
    → once_accept key (handle_alias d ++ es) ≡ once_accept key es
unfolding once_accept handle_alias
once_accept-handle_alias key d es = elim (Option-cases (connection_of d.client_connection_id)) [
  | inl e ↦ rw (e, handle_alias) refl
  | inr (connection, e) ↦ rw (e, handle_alias) refl
]

-- The messages of an accepted handshake, as far as they go to the client that has bound the alias,
-- resolve its promise of `accept` with the alias of the connecting client.
pub handshake-accepted :
    (d : ConnectData) (alias server_id : Text) (w v : Socket) (c : Client)
    → accept_settles d.remote_alias (handle_all (inbox v (handshake d alias server_id w v)) c).1
      ≡ some alias
unfolding accept_settles once_accept handle_all handle_operation
handshake-accepted d alias server_id w v c = elim (Bool-cases (nat_beq w v)) [
  | inl f ↦
      rw (f, nat_beq_refl v)
        (once_accept-handle_alias (get_accept_key d.remote_alias)
            (record {
              id = d.id;
              alias = alias;
              set = true;
              client_connection_id = some d.client_connection_id;
              is_connection_alias = some true;
            })
            _
          ∙ (rw (==_refl (get_accept_key d.remote_alias)) refl))
  | inr f ↦ rw (f, nat_beq_refl v) (rw (==_refl (get_accept_key d.remote_alias)) refl)
]
