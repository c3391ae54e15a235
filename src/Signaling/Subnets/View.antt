-- ===== src/Signaling/Subnets/View.antt =====
-- The address pool as two sets: the suffixes taken in a subnet, and the ports taken at a suffix.
-- How an update of the nested maps shows in them.
use unisockets.Prelude.{
  ◌≡◌, ap, sym, ◌∙◌, true, false, Bool, ◌&&◌, ◌||◌, [], some, none, Text, text_key, text_beq_iff,
  arith, ◌==◌, if◌then◌else◌, List, Option,
}
use unisockets.Map.{get, has, set, delete, get_or, contains}
use unisockets.Map.Laws.{get-set, get-delete, has-get}
use unisockets.Map.Keys.{has-set}
use unisockets.Number.{Number, number_key, number_beq_iff}
use unisockets.Signaling.Subnets.{MMember, Members, Subnets, ensure_member, ensure_subnet}
use unisockets.Signaling.Subnets.Cases.{no_ports}

abbrev pub members_at : Text → Subnets → Members
members_at subnet s = get_or [] (get subnet s)

abbrev pub ports_at : Text → Number → Subnets → List Number
ports_at subnet suffix s = (get_or no_ports (get suffix (members_at subnet s))).ports

unfoldable pub suffix_taken : Text → Number → Subnets → Bool
suffix_taken subnet suffix s = has suffix (members_at subnet s)

unfoldable pub port_taken : Text → Number → Number → Subnets → Bool
port_taken subnet suffix port s = contains port (ports_at subnet suffix s)

module _ (net : Text) (n : Number) (w : MMember) (m : Members) (s : Subnets) (net' : Text)
    (n' : Number) where
  pub suffix_taken-set :
      members_at net s ≡ m
      → suffix_taken net' n' (set net (set n w m) s)
        ≡ (if net == net' && n == n' then true else suffix_taken net' n' s)
  unfolding suffix_taken
  suffix_taken-set e = ground (
    arith,
    has-get n' (set n w m),
    has-get n' (members_at net' s),
    get-set net net' (set n w m) s,
    get-set n n' w m,
    has-get n' m,
    text_beq_iff net net',
  )

  pub port_taken-set :
      (q : Number)
      → members_at net s ≡ m
      → port_taken net' n' q (set net (set n w m) s)
        ≡ (if net == net' && n == n' then contains q w.ports else port_taken net' n' q s)
  unfolding port_taken
  port_taken-set q e =
      ground (arith, get-set net net' (set n w m) s, get-set n n' w m, text_beq_iff net net')

module _ (net : Text) (n : Number) (m : Members) (s : Subnets) (net' : Text) (n' : Number) where
  pub suffix_taken-delete :
      members_at net s ≡ m
      → suffix_taken net' n' (set net (delete n m) s)
        ≡ (if net == net' && n == n' then false else suffix_taken net' n' s)
  unfolding suffix_taken
  suffix_taken-delete e = ground (
    arith,
    has-get n' (delete n m),
    has-get n' (members_at net' s),
    get-set net net' (delete n m) s,
    get-delete n n' m,
    has-get n' m,
    text_beq_iff net net',
  )

  pub port_taken-delete :
      (q : Number)
      → members_at net s ≡ m
      → port_taken net' n' q (set net (delete n m) s)
        ≡ (if net == net' && n == n' then false else port_taken net' n' q s)
  unfolding port_taken contains
  port_taken-delete q e =
      ground (arith, get-set net net' (delete n m) s, get-delete n n' m, text_beq_iff net net')

-- A port is taken at a taken suffix only.
pub suffix_taken_of_port :
    (net : Text) (n q : Number) (s : Subnets)
    → suffix_taken net n s ≡ false
    → port_taken net n q s ≡ false
unfolding suffix_taken port_taken contains
suffix_taken_of_port net n q s h = ground (arith, has-get n (members_at net s))

pub members_at-ensure :
    (net net' : Text) (s : Subnets) → members_at net' (ensure_subnet net s) ≡ members_at net' s
unfolding ensure_subnet
members_at-ensure net net' s =
    ground (arith, has-get net s, get-set net net' [] s, text_beq_iff net net')

pub get-ensure_member :
    (n n' : Number) (m : Members)
    → (get_or no_ports (get n' (ensure_member n m))).ports ≡ (get_or no_ports (get n' m)).ports
unfolding ensure_member
get-ensure_member n n' m = ground (arith, has-get n m, get-set n n' no_ports m, number_beq_iff n n')

-- The ports of an entry that is there.
pub port_taken-entry :
    (net : Text) (n : Number) (m : Members) (w : MMember) (s : Subnets) (q : Number)
    → get net s ≡ some m
    → get n m ≡ some w
    → port_taken net n q s ≡ contains q w.ports
unfolding port_taken
port_taken-entry net n m w s q e f =
    ap (λ (o : Option Members). contains q (get_or no_ports (get n (get_or [] o))).ports) e
    ∙ ap (λ (o : Option MMember). contains q (get_or no_ports o).ports) f

pub suffix_taken-no_subnet :
    (net : Text) (n : Number) (s : Subnets) → get net s ≡ none → suffix_taken net n s ≡ false
unfolding suffix_taken has
suffix_taken-no_subnet net n s e = rw e

pub suffix_taken-entry :
    (net : Text) (n : Number) (m : Members) (s : Subnets)
    → get net s ≡ some m
    → suffix_taken net n s ≡ has n m
unfolding suffix_taken
suffix_taken-entry net n m s e = rw e

pub has-ensure_member :
    (n n' : Number) (m : Members) → has n' (ensure_member n m) ≡ (n == n' || has n' m)
unfolding ensure_member
has-ensure_member n n' m = ground (arith, has-set n n' no_ports m, number_beq_iff n n')

-- An entry written into members that were first made sure to hold it.
module _ (net : Text) (n : Number) (w : MMember) (m : Members) (s : Subnets) (net' : Text)
    (n' : Number) where
  pub suffix_taken-ensure :
      members_at net s ≡ m
      → suffix_taken net' n' (set net (set n w (ensure_member n m)) s)
        ≡ (if net == net' && n == n' then true else suffix_taken net' n' s)
  unfolding suffix_taken
  suffix_taken-ensure e = ground (
    arith,
    has-set n n' w (ensure_member n m),
    get-set net net' (set n w (ensure_member n m)) s,
    has-ensure_member n n' m,
    text_beq_iff net net',
  )

  pub port_taken-ensure :
      (q : Number)
      → members_at net s ≡ m
      → port_taken net' n' q (set net (set n w (ensure_member n m)) s)
        ≡ (if net == net' && n == n' then contains q w.ports else port_taken net' n' q s)
  unfolding port_taken
  port_taken-ensure q e = ground (
    arith,
    get-set net net' (set n w (ensure_member n m)) s,
    get-set n n' w (ensure_member n m),
    get-ensure_member n n' m,
    text_beq_iff net net',
  )

module _ (net : Text) (n : Number) (m : Members) (s : Subnets) where
  pub ports-ensure_member :
      (q : Number)
      → members_at net s ≡ m
      → contains q (get_or no_ports (get n (ensure_member n m))).ports ≡ port_taken net n q s
  unfolding port_taken
  ports-ensure_member q e =
      ap (contains q) (get-ensure_member n n m)
      ∙ ap (λ (k : Members). contains q (get_or no_ports (get n k)).ports) (sym e)

  -- Making sure of an entry that is there changes nothing.
  pub suffix_taken-ensure_held :
      (net' : Text) (n' : Number)
      → members_at net s ≡ m
      → suffix_taken net n s ≡ true
      → suffix_taken net' n' (set net (ensure_member n m) s) ≡ suffix_taken net' n' s
  unfolding suffix_taken
  suffix_taken-ensure_held net' n' e h = ground (
    arith,
    get-set net net' (ensure_member n m) s,
    has-ensure_member n n' m,
    text_beq_iff net net',
    number_beq_iff n n',
  )

  pub port_taken-ensure_held :
      (net' : Text) (n' q : Number)
      → members_at net s ≡ m
      → port_taken net' n' q (set net (ensure_member n m) s) ≡ port_taken net' n' q s
  unfolding port_taken
  port_taken-ensure_held net' n' q e = ground (
    arith,
    get-set net net' (ensure_member n m) s,
    get-ensure_member n n' m,
    text_beq_iff net net',
  )
