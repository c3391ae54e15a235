-- ===== src/Signaling/Subnets/Calls/Replies.antt =====
-- Pools that agree in what is taken answer every run of calls alike.
use unisockets.Prelude.{◌≡◌, refl, sym, ap, ◌∙◌, List, [], ◌∷◌, text_key, arith, All}
use unisockets.Number.{number_key}
use unisockets.Signaling.Subnets.{Subnets}
use unisockets.Signaling.Subnets.WellFormed.{IsWellFormed}
use unisockets.Signaling.Subnets.Preservation.{
  IsTcpAddress, create_ip_address-IsWellFormed, create_tcp_address-IsWellFormed,
  claim_tcp_address-IsWellFormed, remove_ip_address-IsWellFormed, remove_tcp_address-IsWellFormed,
}
use unisockets.Signaling.Subnets.Removal.{
  remove_tcp_address-FreesPort, remove_ip_address-FreesSuffix,
}
use unisockets.Signaling.Subnets.Calls.{
  Call, create_ip, create_tcp, claim_tcp, remove_ip, remove_tcp, Answer, serve, serve_all,
}
use unisockets.Signaling.Subnets.Calls.Nets.{
  has-create_ip, has-create_tcp, has-claim_tcp, has-remove_ip, has-remove_tcp,
}
use unisockets.Signaling.Subnets.Calls.Alike.{
  Alike, create_ip-Agree, create_tcp-Agree, claim_tcp-Agree, FreesPort-both, FreesSuffix-both,
}

-- The address that a call claims has a natural suffix and port; the other calls claim none.
abbrev pub IsClaimable : Call → Type 0
IsClaimable (claim_tcp address) = IsTcpAddress address
IsClaimable _ = Unit

serve-IsWellFormed :
    (call : Call) (s : Subnets) → IsClaimable call → IsWellFormed s → IsWellFormed (serve call s).1
unfolding serve
serve-IsWellFormed (create_ip net) s c v = create_ip_address-IsWellFormed net v
serve-IsWellFormed (create_tcp ip) s c v = create_tcp_address-IsWellFormed ip v
serve-IsWellFormed (claim_tcp address) s c v = claim_tcp_address-IsWellFormed address c v
serve-IsWellFormed (remove_ip ip) s c v = remove_ip_address-IsWellFormed ip v
serve-IsWellFormed (remove_tcp address) s c v = remove_tcp_address-IsWellFormed address v

-- The same answer, and pools that are alike.
abbrev pub Replies {ℓ} : {A : Type ℓ} → A × Subnets → A × Subnets → Type ℓ
Replies (x, s) (y, t) = (x ≡ y) × Alike s t

serve-Replies :
    (call : Call) (s t : Subnets)
    → IsClaimable call
    → IsWellFormed s
    → IsWellFormed t
    → Alike s t
    → Replies (serve call s) (serve call t)
unfolding serve
serve-Replies (create_ip net) s t c v v' h =
    let (e, same) = create_ip-Agree net s t v v' h.view in
    (
      ap Answer.ip_created e,
      record {
        view = same;
        nets = λ n. ground (arith, has-create_ip net n s, has-create_ip net n t, h.nets n);
      },
    )
serve-Replies (create_tcp ip) s t c v v' h =
    let (e, same) = create_tcp-Agree ip s t v v' h in
    (
      ap Answer.tcp_created e,
      record {
        view = same;
        nets = λ n. has-create_tcp ip n t ∙ h.nets n ∙ sym (has-create_tcp ip n s);
      },
    )
serve-Replies (claim_tcp address) s t c v v' h =
    let (e, same) = claim_tcp-Agree address s t c v v' h in
    (
      ap Answer.tcp_claimed e,
      record {
        view = same;
        nets = λ n. has-claim_tcp address n t ∙ h.nets n ∙ sym (has-claim_tcp address n s);
      },
    )
serve-Replies (remove_ip ip) s t c v v' h = (
  refl,
  record {
    view =
        FreesSuffix-both h.view (remove_ip_address-FreesSuffix ip s)
          (remove_ip_address-FreesSuffix ip t);
    nets = λ n. has-remove_ip ip n t ∙ h.nets n ∙ sym (has-remove_ip ip n s);
  },
)
serve-Replies (remove_tcp address) s t c v v' h = (
  refl,
  record {
    view =
        FreesPort-both h.view (remove_tcp_address-FreesPort address s v)
          (remove_tcp_address-FreesPort address t v');
    nets = λ n. has-remove_tcp address n t ∙ h.nets n ∙ sym (has-remove_tcp address n s);
  },
)

-- Two well-formed pools that know the same subnets, with the same suffixes and ports taken, give the
-- same answers to every run of calls, errors included, and are then alike again, if the addresses
-- that are claimed have a natural suffix and port.
pub serve_all-Replies :
    (calls : List Call) (s t : Subnets)
    → All IsClaimable calls
    → IsWellFormed s
    → IsWellFormed t
    → Alike s t
    → Replies (serve_all calls s) (serve_all calls t)
unfolding serve_all
serve_all-Replies [] s t c v v' h = (refl, h)
serve_all-Replies (call ∷ calls) s t c v v' h =
    let (e, h') = serve-Replies call s t c.0 v v' h in
    let (es, h'') =
      serve_all-Replies calls (serve call s).1 (serve call t).1 c.1
        (serve-IsWellFormed call s c.0 v) (serve-IsWellFormed call t c.0 v') h' in
    (ap (λ a. a ∷ (serve_all calls (serve call s).1).0) e ∙ ap (λ l. (serve call t).0 ∷ l) es, h'')
