-- ===== src/Signaling/Service/Opcodes.antt =====
-- `receive` against the thirteen strings of ESIGNALING_OPCODES.
use unisockets.Prelude.{
  ◌≡◌, refl, ◌≢◌, ◌==◌, inl, inr, arith, text_beq_iff, Bool-cases, List, [], ◌∷◌, All, text_key,
  if◌then◌else◌,
}
use unisockets.Signaling.Errors.{Result, ok, err, unimplemented_operation}
use unisockets.Signaling.Operation.{Opcode}
use unisockets.Signaling.Service.{RawOperation, ReceivedOperation, opcode_text, receive}

-- All thirteen, in the order of the switch.
abbrev pub opcodes : List Opcode
opcodes =
    Opcode.goodbye ∷ Opcode.knock ∷ Opcode.acknowledged ∷ Opcode.greeting ∷ Opcode.offer
    ∷ Opcode.answer ∷ Opcode.candidate ∷ Opcode.bind ∷ Opcode.accepting ∷ Opcode.alias
    ∷ Opcode.shutdown ∷ Opcode.connect ∷ Opcode.accept ∷ []

module _ {D : Type 0} where
  -- What is sent under an opcode's string is received as that class with the data unchanged.
  pub receive-opcode_text :
      (o : Opcode) (d : D)
      → receive (record { opcode = opcode_text o; content = d })
        ≡ ok (record { opcode = o; content = d })
  unfolding receive opcode_text
  receive-opcode_text Opcode.goodbye d = refl
  receive-opcode_text _ d = refl

  -- The switch as a search through a list of opcodes.
  first_case : RawOperation D → List Opcode → Result (ReceivedOperation D)
  first_case raw [] = err (unimplemented_operation raw.opcode)
  first_case raw (o ∷ os) =
      if raw.opcode == opcode_text o
      then ok (record { opcode = o; content = raw.content })
      else first_case raw os

  receive-first_case : (raw : RawOperation D) → receive raw ≡ first_case raw opcodes
  unfolding receive first_case
  receive-first_case raw = refl

  -- What a result says of the raw operation, where the opcodes of a list are tried.
  abbrev pub Classified : RawOperation D → List Opcode → Result (ReceivedOperation D) → Type 0
  Classified raw os (ok m) = (raw.opcode ≡ opcode_text m.opcode) × (m.content ≡ raw.content)
  Classified raw os (err e) =
      (e ≡ unimplemented_operation raw.opcode) × All (λ o. raw.opcode ≢ opcode_text o) os

  later_case :
      (raw : RawOperation D) (o : Opcode) (os : List Opcode) (r : Result (ReceivedOperation D))
      → raw.opcode ≢ opcode_text o
      → Classified raw os r
      → Classified raw (o ∷ os) r
  later_case raw o os (ok m) n h = h
  later_case raw o os (err e) n h = (h.0, (n, h.1))

  first_case-Classified :
      (raw : RawOperation D) (os : List Opcode) → Classified raw os (first_case raw os)
  unfolding first_case
  first_case-Classified raw [] = (refl, tt)
  first_case-Classified raw (o ∷ os) = elim (Bool-cases (raw.opcode == opcode_text o)) [
    | inl hit ↦ rw hit ((text_beq_iff raw.opcode (opcode_text o)).0 hit, refl)
    | inr miss ↦ rw miss (
        later_case raw o os (first_case raw os)
          (ground (arith, text_beq_iff raw.opcode (opcode_text o))) (first_case-Classified raw os))
  ]

  -- Whatever `JSON.parse` gave: a result has the class of the opcode's string and the data
  -- unchanged; an error names the opcode, and the string is none of the thirteen.
  pub receive-Classified : (raw : RawOperation D) → Classified raw opcodes (receive raw)
  receive-Classified raw = rw (receive-first_case raw) (first_case-Classified raw opcodes)
