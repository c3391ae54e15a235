-- ===== src/Signaling/Server/Knocks/Mesh.antt =====
-- The invariant of calls of handleKnock that interleave, and what admits a client.
use unisockets.Prelude.{
  ℕ, zero, suc, ◌≡◌, refl, ap, Bool, true, false, ◌&&◌, [], ◌∷◌, ◌++◌, Option, none, some, Text,
  text_key, text_beq_iff, ◌==◌, if◌then◌else◌, arith, All,
}
use unisockets.Map.{Map, has, set, keys, contains, Distinct}
use unisockets.Map.Keys.{has-set, keys-set-Distinct}
use unisockets.Number.{number_key}
use unisockets.Signaling.Operation.{KnockData}
use unisockets.Signaling.Address.{parse_ip_address}
use unisockets.Signaling.Address.RoundTrip.{IsSubnet}
use unisockets.Signaling.Subnets.{Subnets}
use unisockets.Signaling.Subnets.WellFormed.{IsWellFormed}
use unisockets.Signaling.Subnets.View.{suffix_taken}
use unisockets.Signaling.Server.Action.{Socket}
use unisockets.Signaling.Server.Messages.{greetings}
use unisockets.Signaling.Server.Knocking.{admit_lem}
use unisockets.Signaling.Server.Concurrent.{pick}
use unisockets.Signaling.Server.Concurrent.Lists.{Given}
use unisockets.Signaling.Server.Knocks.{Knocking, admit_given}
use unisockets.Signaling.Server.Knocks.Introductions.{
  introductions, introductions-append, introductions-greetings,
}

-- Whether the suffix of an address is taken.
abbrev pub is_taken : Text → Subnets → Bool
is_taken id s = suffix_taken (parse_ip_address id).subnet (parse_ip_address id).suffix s

pub record IsMeshed (p : Knocking) : Type 0 where
  pub pool : IsWellFormed p.server.subnets
  pub subnets : All (λ (k : KnockData × Socket). IsSubnet k.0.subnet) p.waiting
  pub entered : (x : Text) → has x p.server.clients ≡ true → is_taken x p.server.subnets ≡ true
  pub client_keys : Distinct (keys p.server.clients)
  pub taken : All (λ (g : Text × Socket). is_taken g.0 p.server.subnets ≡ true) p.given
  pub new : All (λ (g : Text × Socket). has g.0 p.server.clients ≡ false) p.given
  pub once : Distinct (keys p.given)
  pub introduced :
      (a b : Text)
      → (a == b) ≡ false
      → introductions a b p.server.sent
        ≡ (if has a p.server.clients && has b p.server.clients then 1 else 0)

pub keys-append :
    (l : Map Text Socket) (g : Text × Socket) → keys (l ++ g ∷ []) ≡ keys l ++ g.0 ∷ []
unfolding keys
keys-append [] g = refl
keys-append (h ∷ l) g = ap (λ k. h.0 ∷ k) (keys-append l g)

-- An address that was free is none of those that are taken.
pub apart_from_taken :
    (id : Text) (s : Subnets) (l : Map Text Socket)
    → is_taken id s ≡ false
    → All (λ g. is_taken g.0 s ≡ true) l
    → contains id (keys l) ≡ false
unfolding keys contains
apart_from_taken id s [] free h = refl
apart_from_taken id s (g ∷ l) free h = ground (
  arith,
  apart_from_taken id s l free h.1,
  h.0,
  free,
  text_beq_iff g.0 id,
  ap (λ x. is_taken x s),
)

-- The one that goes on is none of those that stay.
pub Parted : (Text × Socket) × Map Text Socket → Type 0
Parted r = (contains r.0.0 (keys r.1) ≡ false) × Distinct (keys r.1)

Apart : Text → (Text × Socket) × Map Text Socket → Type 0
Apart x r = ((x == r.0.0) ≡ false) × (contains x (keys r.1) ≡ false)

pick-Apart :
    (x : Text) (i : ℕ) (l : Map Text Socket)
    → contains x (keys l) ≡ false
    → Given (Apart x) (pick i l)
unfolding pick Apart keys contains
pick-Apart x i [] h = tt
pick-Apart x zero (g ∷ l) h = ground (arith, h, text_beq_iff g.0 x, text_beq_iff x g.0)
pick-Apart x (suc i) (g ∷ l) h = extend (pick i l) (pick-Apart x i l (ground (arith, h)))
  where
    extend :
        (o : Option ((Text × Socket) × Map Text Socket))
        → Given (Apart x) o
        → Given (Apart x) (elim o as (λ _. Option ((Text × Socket) × Map Text Socket)) [
          | none ↦ none
          | some r ↦ some (r.0, g ∷ r.1)
        ])
    extend none k = tt
    extend (some r) k = ground (arith, k, h)

pub pick-Parted : (i : ℕ) (l : Map Text Socket) → Distinct (keys l) → Given Parted (pick i l)
unfolding pick Parted keys Apart contains
pick-Parted i [] d = tt
pick-Parted zero (g ∷ l) d = d
pick-Parted (suc i) (g ∷ l) d = extend (pick i l) (pick-Apart g.0 i l d.0) (pick-Parted i l d.1)
  where
    extend :
        (o : Option ((Text × Socket) × Map Text Socket))
        → Given (Apart g.0) o
        → Given Parted o
        → Given Parted (elim o as (λ _. Option ((Text × Socket) × Map Text Socket)) [
          | none ↦ none
          | some r ↦ some (r.0, g ∷ r.1)
        ])
    extend none a k = tt
    extend (some r) a k = (ground (arith, a, k), (a.1, k.1))

-- Entering a client leaves the others new.
new-set :
    (id : Text) (w : Socket) (m : Map Text Socket) (l : Map Text Socket)
    → contains id (keys l) ≡ false
    → All (λ (g : Text × Socket). has g.0 m ≡ false) l
    → All (λ (g : Text × Socket). has g.0 (set id w m) ≡ false) l
unfolding keys contains
new-set id w m [] e h = tt
new-set id w m (g ∷ l) e h = (
  ground (arith, has-set id g.0 w m, h.0, e, text_beq_iff g.0 id, text_beq_iff id g.0),
  new-set id w m l (ground (arith, e)) h.1,
)

pub admit_given-IsMeshed :
    (o : Option ((Text × Socket) × Map Text Socket)) (p : Knocking)
    → Given Parted o
    → Given
        (λ r.
          (is_taken r.0.0 p.server.subnets ≡ true)
          × All (λ g. is_taken g.0 p.server.subnets ≡ true) r.1)
        o
    → Given
        (λ r.
          (has r.0.0 p.server.clients ≡ false) × All (λ g. has g.0 p.server.clients ≡ false) r.1)
        o
    → IsMeshed p
    → IsMeshed (admit_given o p)
unfolding admit_given Parted
admit_given-IsMeshed none p parted taken new h = h
admit_given-IsMeshed (some ((id, w), others)) p parted taken new h =
    rw (admit_lem id w p.server) (record {
      pool = h.pool;
      subnets = h.subnets;
      entered = λ x e. ground (
        arith,
        has-set id x w p.server.clients,
        h.entered x,
        taken.0,
        text_beq_iff id x,
        ap (λ y. is_taken y p.server.subnets),
        e,
      );
      client_keys = keys-set-Distinct id w p.server.clients h.client_keys;
      taken = taken.1;
      new = new-set id w p.server.clients others parted.0 new.1;
      once = parted.1;
      introduced = λ a b e. ground (
        arith,
        introductions-append a b p.server.sent (greetings p.server.clients id),
        introductions-greetings a b id p.server.clients e h.client_keys,
        h.introduced a b e,
        has-set id a w p.server.clients,
        has-set id b w p.server.clients,
        new.0,
        text_beq_iff id a,
        text_beq_iff id b,
        text_beq_iff a b,
        ap (λ y. has y p.server.clients),
      );
    })
