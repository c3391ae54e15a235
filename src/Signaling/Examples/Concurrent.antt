-- ===== src/Signaling/Examples/Concurrent.antt =====
-- Two clients that bind the same alias at once, and three that knock at once.
use unisockets.Prelude.{◌≡◌, refl, false, ◌&&◌, All, List, [], ◌∷◌, Text, text_key, if◌then◌else◌}
use unisockets.Map.{has, keys, Distinct}
use unisockets.Signaling.Server.Action.{Socket}
use unisockets.Signaling.Server.Knocks.{KnockTurn, arrive, allocate, go_on, knock_turns}
use unisockets.Signaling.Server.Knocks.Introductions.{introductions}
use unisockets.Signaling.Server.Knocks.Runs.{nobody, knock_turns_introduce}
use unisockets.Signaling.Examples.{net, second_id, net-IsSubnet}
use unisockets.Number.{parse_int, parse_int?}
use unisockets.Text.{split, join}
use unisockets.Signaling.Address.{parse_ip_address, parse_tcp_address}
use unisockets.Signaling.Operation.{BindData, KnockData}
use unisockets.Signaling.Server.Reach.{Reach-IsSound}
use unisockets.Signaling.Server.Concurrent.{Turn, begin, claim, finish, turns}
use unisockets.Signaling.Server.Concurrent.Orderly.{IsOrderly}
use unisockets.Signaling.Server.Concurrent.Schedules.{turns-IsOrderly}
use unisockets.Signaling.Examples.{first_id, service, bind_service, joined, joined-Reach}

abbrev rival_bind : BindData
rival_bind = record { id = first_id; alias = service }

-- Both find the alias free; the second then claims first.
abbrev racing : List Turn
racing = begin bind_service ∷ begin rival_bind ∷ claim 1 ∷ claim 0 ∷ finish 0 ∷ []

turns-IsOrderly_example :
    let t = turns racing (record { server = joined; checked = []; granted = [] }) in
    IsOrderly t.server t.checked t.granted
unfolding parse_ip_address parse_tcp_address split join parse_int? parse_int
turns-IsOrderly_example =
    turns-IsOrderly racing joined (Reach-IsSound joined-Reach).pool
      ((tt, tt), ((tt, tt), (tt, (tt, (tt, tt)))))

abbrev knocking : KnockData
knocking = record { subnet = net; parent_ws = [] }

-- Three clients knock at once, and the second to get its address goes on first.
abbrev crowd : List KnockTurn
crowd =
    arrive knocking 1
    ∷ arrive knocking 2
    ∷ allocate 1
    ∷ arrive knocking 3
    ∷ allocate 0
    ∷ go_on 1
    ∷ allocate 0
    ∷ go_on 0
    ∷ go_on 0
    ∷ []

knock_turns_introduce_example :
    let p = knock_turns crowd nobody in
    (introductions first_id second_id p.server.sent
      ≡ (if has first_id p.server.clients && has second_id p.server.clients then 1 else 0))
    × Distinct (keys p.server.clients)
    × Distinct (keys p.given)
    × All (λ (g : Text × Socket). has g.0 p.server.clients ≡ false) p.given
knock_turns_introduce_example =
    knock_turns_introduce crowd first_id second_id
      (net-IsSubnet, (net-IsSubnet, (tt, (net-IsSubnet, (tt, (tt, (tt, (tt, (tt, tt))))))))) refl
