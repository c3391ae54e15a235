-- ===== src/Signaling/Subnets/Effects.antt =====
-- What a method of the address pool may do to the sets of taken suffixes and ports.
use unisockets.Prelude.{
  ◌≡◌, refl, true, false, ◌&&◌, Text, text_key, text_beq_iff, ◌==◌, if◌then◌else◌, arith,
}
use unisockets.Number.{Number, number_key, number_beq_iff}
use unisockets.Signaling.Subnets.{Subnets}
use unisockets.Signaling.Subnets.View.{suffix_taken, port_taken, suffix_taken_of_port}

-- Nothing changed in what is taken.
pub record SameView (s t : Subnets) : Type 0 where
  pub suffixes : (net : Text) (n : Number) → suffix_taken net n t ≡ suffix_taken net n s
  pub ports : (net : Text) (n q : Number) → port_taken net n q t ≡ port_taken net n q s

-- The suffix `n` of `net` is now taken, with no port of its own; nothing else changed.
pub record TakesSuffix (net : Text) (n : Number) (s t : Subnets) : Type 0 where
  pub suffixes :
      (net' : Text) (n' : Number)
      → suffix_taken net' n' t ≡ (if net == net' && n == n' then true else suffix_taken net' n' s)
  pub ports : (net' : Text) (n' q : Number) → port_taken net' n' q t ≡ port_taken net' n' q s

-- The port `q` at the suffix `n` of `net` is now taken, and so is the suffix.
pub record TakesPort (net : Text) (n q : Number) (s t : Subnets) : Type 0 where
  pub suffixes :
      (net' : Text) (n' : Number)
      → suffix_taken net' n' t ≡ (if net == net' && n == n' then true else suffix_taken net' n' s)
  pub ports :
      (net' : Text) (n' q' : Number)
      → port_taken net' n' q' t
        ≡ (if net == net' && n == n' && q == q' then true else port_taken net' n' q' s)

-- The port `q` at the suffix `n` of `net` is free; the suffix stays as it was.
pub record FreesPort (net : Text) (n q : Number) (s t : Subnets) : Type 0 where
  pub suffixes : (net' : Text) (n' : Number) → suffix_taken net' n' t ≡ suffix_taken net' n' s
  pub ports :
      (net' : Text) (n' q' : Number)
      → port_taken net' n' q' t
        ≡ (if net == net' && n == n' && q == q' then false else port_taken net' n' q' s)

-- The suffix `n` of `net` is free, and so are all its ports.
pub record FreesSuffix (net : Text) (n : Number) (s t : Subnets) : Type 0 where
  pub suffixes :
      (net' : Text) (n' : Number)
      → suffix_taken net' n' t ≡ (if net == net' && n == n' then false else suffix_taken net' n' s)
  pub ports :
      (net' : Text) (n' q' : Number)
      → port_taken net' n' q' t
        ≡ (if net == net' && n == n' then false else port_taken net' n' q' s)

pub SameView-refl : (s : Subnets) → SameView s s
SameView-refl s = record { suffixes = λ net n. refl; ports = λ net n q. refl }

module _ (net : Text) (n : Number) (s : Subnets) (free : suffix_taken net n s ≡ false) where
  pub FreesPort-of_free : (q : Number) → FreesPort net n q s s
  FreesPort-of_free q = record {
    suffixes = λ net' n'. refl;
    ports = λ net' n' q'.
        ground
          (arith, suffix_taken_of_port net n q' s free, text_beq_iff net net', number_beq_iff n n');
  }

  pub FreesSuffix-of_free : FreesSuffix net n s s
  FreesSuffix-of_free = record {
    suffixes = λ net' n'. ground (arith, free, text_beq_iff net net', number_beq_iff n n');
    ports = λ net' n' q'.
        ground
          (arith, suffix_taken_of_port net n q' s free, text_beq_iff net net', number_beq_iff n n');
  }
