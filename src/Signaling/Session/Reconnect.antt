-- ===== src/Signaling/Session/Reconnect.antt =====
-- A client whose connection was lost and that knocks again (handleDisconnect of
-- pkg/web/signaling/services/signaling-client.ts against the server's close listener).
use unisockets.Prelude.{
  ℕ, ◌≤◌, ◌≡◌, refl, sym, ap, ◌∙◌, inl, inr, true, false, List, [], ◌∷◌, some, Text, text_key,
  arith, subst, Bool-cases, ◌==◌,
}
use unisockets.Map.{Map, get, delete}
use unisockets.Map.Laws.{==_refl}
use unisockets.Number.{nat, number_key}
use unisockets.Signaling.Address.{to_ip_address}
use unisockets.Signaling.Address.RoundTrip.{IsSubnet}
use unisockets.Signaling.Subnets.{Subnets, remove_ip_address, remove_tcp_address}
use unisockets.Signaling.Subnets.WellFormed.{IsWellFormed}
use unisockets.Signaling.Subnets.Preservation.{
  remove_ip_address-IsWellFormed, remove_tcp_address-IsWellFormed,
}
use unisockets.Signaling.Subnets.View.{suffix_taken}
use unisockets.Signaling.Subnets.Removal.{
  remove_tcp_address-FreesPort, remove_ip_address-FreesSuffix,
}
use unisockets.Signaling.Subnets.Named.{remove_ip_named}
use unisockets.Signaling.Server.Action.{Socket, Server}
use unisockets.Signaling.Server.Handlers.{handle_knock}
use unisockets.Signaling.Server.Goodbye.{handle_close, aliases_of}
use unisockets.Signaling.Server.Invariant.{IsSound}
use unisockets.Signaling.Server.Leaving.{given_back, handle_close-left}
use unisockets.Signaling.Client.{Client}
use unisockets.Signaling.Session.Knock.{knock_data, IsNew, answered, knock_data-Acknowledged}

-- What the callbacks give back stays well formed, and a suffix that is free stays so.
given_back-IsWellFormed :
    (gone : List Text) (s : Subnets) → IsWellFormed s → IsWellFormed (given_back gone s)
given_back-IsWellFormed [] s v = v
given_back-IsWellFormed (a ∷ gone) s v =
    given_back-IsWellFormed gone (remove_tcp_address a (remove_ip_address a s))
      (remove_tcp_address-IsWellFormed a (remove_ip_address-IsWellFormed a v))

given_back_free :
    (gone : List Text) (net : Text) (n : ℕ) (s : Subnets)
    → IsWellFormed s
    → suffix_taken net (nat n) s ≡ false
    → suffix_taken net (nat n) (given_back gone s) ≡ false
given_back_free [] net n s v free = free
given_back_free (a ∷ gone) net n s v free =
    let s' = remove_ip_address a s in
    let v' = remove_ip_address-IsWellFormed a v in
    given_back_free gone net n (remove_tcp_address a s') (remove_tcp_address-IsWellFormed a v') (
      (remove_tcp_address-FreesPort a s' v').suffixes net (nat n)
      ∙ ground (arith, (remove_ip_address-FreesSuffix a s).suffixes net (nat n), free))

IsNew-delete : (w : Socket) (id : Text) (m : Map Text Socket) → IsNew w m → IsNew w (delete id m)
unfolding delete
IsNew-delete w id [] h = tt
IsNew-delete w id ((k, u) ∷ m) h = elim (Bool-cases (k == id)) [
  | inl e ↦ rw e (IsNew-delete w id m h.1)
  | inr e ↦ rw e (h.0, IsNew-delete w id m h.1)
]

-- The server once the old socket has closed, from then on.
abbrev pub after_close : Text → Server → Server
after_close id s = record (handle_close id s).1 { sent = [] }

module _ (net : Text) (n : ℕ) (s : Server) (three : IsSubnet net) (v : IsSound s) where
  abbrev old_id : Text
  old_id = to_ip_address net (nat n)

  pool_after_close :
      (after_close old_id s).subnets
      ≡ given_back (aliases_of old_id s.aliases) (remove_ip_address old_id s.subnets)
  pool_after_close = ap (λ r. r.1.subnets) (handle_close-left old_id s)

  after_close-IsWellFormed : IsWellFormed (after_close old_id s).subnets
  after_close-IsWellFormed = subst IsWellFormed (sym pool_after_close) (
      given_back-IsWellFormed (aliases_of old_id s.aliases) (remove_ip_address old_id s.subnets)
        (remove_ip_address-IsWellFormed old_id v.pool))

  after_close_free : suffix_taken net (nat n) (after_close old_id s).subnets ≡ false
  after_close_free =
      ap (suffix_taken net (nat n)) pool_after_close
      ∙ (given_back_free (aliases_of old_id s.aliases) net n (remove_ip_address old_id s.subnets)
          (remove_ip_address-IsWellFormed old_id v.pool)
          (ground (
            arith,
            (remove_ip_named net n three s.subnets).suffixes net (nat n),
            ==_refl net,
            ==_refl (nat n),
          )))

  -- Once the old socket of a client has closed, its knock over a new socket is not refused: the
  -- client gets an address of its subnet, under which the server enters the new socket, even if all
  -- addresses were taken. Conditions: the old address has a suffix up to 255 and a subnet of three
  -- bytes, the server's state is sound, and the new socket is none of the clients'.
  pub reconnect_acknowledged :
      (parent_ws : Text) (w : Socket) (c : Client)
      → n ≤ 255
      → IsNew w s.clients
      → let s' = (handle_knock (knock_data net parent_ws) w (after_close old_id s)).1 in
        (m : ℕ) × (m ≤ 255)
        × (answered w s' c ≡ record { id = to_ip_address net (nat m); is_connected = true })
        × (get (answered w s' c).id s'.clients ≡ some w)
  reconnect_acknowledged parent_ws w c le new =
      elim (knock_data-Acknowledged net parent_ws w (after_close old_id s) c
        after_close-IsWellFormed
        (subst (IsNew w) (sym (ap (λ r. r.1.clients) (handle_close-left old_id s)))
          (IsNew-delete w old_id s.clients new))
        refl) [
          | inl (m, small, free, known, entered) ↦ (m, small, known, entered)
          | inr (full, known, same) ↦ absurd (ground (arith, full n le, after_close_free))
        ]
