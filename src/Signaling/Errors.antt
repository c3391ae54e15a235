-- ===== src/Signaling/Errors.antt =====
-- The errors that the signaling classes throw (pkg/web/signaling/errors), and results.
use unisockets.Prelude.{Text, ◌≡◌, refl, ◌⊎◌, inl, inr}

pub data Error : Type 0 where
  client_closed : Error
  client_does_not_exist : Error
  port_already_allocated : Error
  subnet_does_not_exist : Error
  suffix_does_not_exist : Error
  channel_does_not_exist : Error
  connection_does_not_exist : Error
  alias_does_not_exist : Error
  memory_does_not_exist : Error
  socket_does_not_exist : Error
  sdp_invalid : Error
  unimplemented_operation : Text → Error
  -- What a platform call or a promise of another part throws.
  foreign : Text → Error

pub data Result {ℓ} (A : Type ℓ) : Type ℓ where
  ok : A → Result A
  err : Error → Result A

pub Result-cases {ℓ} :
    {A : Type ℓ} (r : Result A) → ((a : A) × (r ≡ ok a)) ⊎ ((e : Error) × (r ≡ err e))
Result-cases (ok a) = inl (a, refl)
Result-cases (err e) = inr (e, refl)
