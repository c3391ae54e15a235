-- ===== src/Signaling/Server/Knocks/Runs.antt =====
-- Clients that knock at once get distinct addresses, and each two of them are introduced once.
use unisockets.Prelude.{
  ◌≡◌, refl, sym, ◌∙◌, inl, inr, Bool, true, false, ◌&&◌, List, [], ◌∷◌, ◌++◌, Option, none, some,
  Text, text_key, ◌==◌, if◌then◌else◌, arith, All, subst, Bool-cases,
}
use unisockets.Map.{Map, get, has, keys, Distinct}
use unisockets.Map.Laws.{==_refl}
use unisockets.Number.{nat, number_key}
use unisockets.Signaling.Operation.{KnockData}
use unisockets.Signaling.Address.{to_ip_address, parse_ip_address}
use unisockets.Signaling.Address.RoundTrip.{IsSubnet, parse_ip-to_ip}
use unisockets.Signaling.Subnets.{Subnets, overflow_id, create_ip_address}
use unisockets.Signaling.Subnets.WellFormed.{IsWellFormed}
use unisockets.Signaling.Subnets.Preservation.{create_ip_address-IsWellFormed}
use unisockets.Signaling.Subnets.Allocation.{create_ip_address-CreatesIp}
use unisockets.Signaling.Server.Action.{Socket, start, send, push}
use unisockets.Signaling.Server.Handlers.{acknowledge}
use unisockets.Signaling.Server.Knocking.{to_ip-ne-overflow, acknowledgement}
use unisockets.Signaling.Server.Concurrent.{pick}
use unisockets.Signaling.Server.Concurrent.Lists.{
  All-append, All-weaken, Given, pick-Given, Distinct-append_one,
}
use unisockets.Signaling.Server.Knocks.{
  Knocking, KnockTurn, arrive, allocate, go_on, give_address, knock_turn, knock_turns,
}
use unisockets.Signaling.Server.Knocks.Introductions.{introductions, introductions-append}
use unisockets.Signaling.Server.Knocks.Mesh.{
  is_taken, IsMeshed, keys-append, apart_from_taken, pick-Parted, admit_given-IsMeshed,
}

-- The pool may have changed, and one message more was sent, which introduces nobody.
acknowledged-IsMeshed :
    (p : Knocking) (w : Socket) (id : Text) (b : Bool) (t : Subnets)
    (others : List (KnockData × Socket)) (given : Map Text Socket)
    → IsMeshed p
    → IsWellFormed t
    → ((x : Text) → is_taken x p.server.subnets ≡ true → is_taken x t ≡ true)
    → All (λ (k : KnockData × Socket). IsSubnet k.0.subnet) others
    → All (λ (g : Text × Socket). is_taken g.0 t ≡ true) given
    → All (λ (g : Text × Socket). has g.0 p.server.clients ≡ false) given
    → Distinct (keys given)
    → IsMeshed record {
      server = record p.server {
        subnets = t;
        sent = p.server.sent ++ (w, acknowledgement id b) ∷ [];
      };
      waiting = others;
      given = given;
    }
acknowledged-IsMeshed p w id b t others given h v still subnets taken new once = record {
  pool = v;
  subnets = subnets;
  entered = λ x e. still x (h.entered x e);
  client_keys = h.client_keys;
  taken = taken;
  new = new;
  once = once;
  introduced = λ a c e.
      introductions-append a c p.server.sent ((w, acknowledgement id b) ∷ [])
      ∙ omega (arith, h.introduced a c e);
}

give_address-IsMeshed :
    (o : Option ((KnockData × Socket) × List (KnockData × Socket))) (p : Knocking)
    → Given
        (λ r. IsSubnet r.0.0.subnet × All (λ (k : KnockData × Socket). IsSubnet k.0.subnet) r.1)
        o
    → IsMeshed p
    → IsMeshed (give_address o p)
unfolding give_address acknowledge send push
give_address-IsMeshed none p three h = h
give_address-IsMeshed (some ((d, w), others)) p three h =
    let s = p.server.subnets in
    let t = (create_ip_address d.subnet s).1 in
    let v = create_ip_address-IsWellFormed d.subnet h.pool in
    elim (create_ip_address-CreatesIp d.subnet s h.pool) [
      | inl (full, e, same) ↦ rw e (
          let still : (x : Text) → is_taken x s ≡ true → is_taken x t ≡ true =
            λ x k. same.suffixes (parse_ip_address x).subnet (parse_ip_address x).suffix ∙ k in
          acknowledged-IsMeshed p w overflow_id true t others p.given h v still three.1
            (All-weaken p.given (λ g k. still g.0 k) h.taken) h.new h.once)
      | inr (n, le, e, free, below, takes) ↦
          let id = to_ip_address d.subnet (nat n) in
          let still : (x : Text) → is_taken x s ≡ true → is_taken x t ≡ true = λ x k.
            ground
              (arith, takes.suffixes (parse_ip_address x).subnet (parse_ip_address x).suffix, k) in
          let here = parse_ip-to_ip d.subnet n three.0 in
          let was_free : is_taken id s ≡ false = rw here free in
          let now_taken : is_taken id t ≡ true =
            rw here (
              ground (arith, takes.suffixes d.subnet (nat n), ==_refl d.subnet, ==_refl (nat n))) in
          rw (e, to_ip-ne-overflow d.subnet n)
            (acknowledged-IsMeshed p w id false t others (p.given ++ (id, w) ∷ []) h v still three.1
              (All-append _ p.given (id, w) (All-weaken p.given (λ g k. still g.0 k) h.taken)
                now_taken)
              (All-append _ p.given (id, w) h.new
                (ground (arith, h.entered id, was_free, Bool-cases (has id p.server.clients))))
              (subst Distinct (sym (keys-append p.given (id, w))) (
                Distinct-append_one id (keys p.given) h.once
                  (apart_from_taken id s p.given was_free h.taken))))
    ]

-- Every knock names a subnet of three bytes.
abbrev pub IsProper : KnockTurn → Type 0
IsProper (arrive d w) = IsSubnet d.subnet
IsProper _ = Unit

knock_turn-IsMeshed :
    (x : KnockTurn) (p : Knocking) → IsProper x → IsMeshed p → IsMeshed (knock_turn x p)
unfolding knock_turn
knock_turn-IsMeshed (arrive d w) p three h = record {
  pool = h.pool;
  subnets = All-append _ p.waiting (d, w) h.subnets three;
  entered = h.entered;
  client_keys = h.client_keys;
  taken = h.taken;
  new = h.new;
  once = h.once;
  introduced = h.introduced;
}
knock_turn-IsMeshed (allocate i) p proper h =
    give_address-IsMeshed (pick i p.waiting) p (pick-Given _ i p.waiting h.subnets) h
knock_turn-IsMeshed (go_on i) p proper h =
    admit_given-IsMeshed (pick i p.given) p (pick-Parted i p.given h.once)
      (pick-Given _ i p.given h.taken) (pick-Given _ i p.given h.new) h

knock_turns-IsMeshed :
    (l : List KnockTurn) (p : Knocking) → All IsProper l → IsMeshed p → IsMeshed (knock_turns l p)
unfolding knock_turns
knock_turns-IsMeshed [] p proper h = h
knock_turns-IsMeshed (x ∷ l) p proper h =
    knock_turns-IsMeshed l (knock_turn x p) proper.1 (knock_turn-IsMeshed x p proper.0 h)

abbrev pub nobody : Knocking
nobody = record { server = start; waiting = []; given = [] }

nobody-IsMeshed : IsMeshed nobody
unfolding get has keys
nobody-IsMeshed = record {
  pool = record { members = λ subnet m e. cc };
  subnets = tt;
  entered = λ x e. cc;
  client_keys = tt;
  taken = tt;
  new = tt;
  once = tt;
  introduced = λ a b e. refl;
}

-- In whatever order knocks arrive at a server that has just started, get their addresses and go on,
-- each two clients that are entered have been introduced to each other by exactly one greeting, no
-- client that is not entered has been introduced, no address is entered twice or given to a client
-- while another has it. Condition: the knocks name subnets of three bytes.
pub knock_turns_introduce :
    (l : List KnockTurn) (a b : Text)
    → All IsProper l
    → (a == b) ≡ false
    → let p = knock_turns l nobody in
      (introductions a b p.server.sent
        ≡ (if has a p.server.clients && has b p.server.clients then 1 else 0))
      × Distinct (keys p.server.clients)
      × Distinct (keys p.given)
      × All (λ (g : Text × Socket). has g.0 p.server.clients ≡ false) p.given
knock_turns_introduce l a b proper apart =
    let h = knock_turns-IsMeshed l nobody proper nobody-IsMeshed in
    (h.introduced a b apart, h.client_keys, h.once, h.new)
