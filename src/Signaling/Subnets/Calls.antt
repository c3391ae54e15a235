-- ===== src/Signaling/Subnets/Calls.antt =====
-- Runs of the address pool. Which addresses it gives out depends on what is taken alone, not on the
-- order of the maps, the order of a member's ports or what has happened before.
pub mod Nets
pub mod Alike
pub mod Replies
pub mod Traces
use unisockets.Prelude.{List, [], ◌∷◌, Text}
use unisockets.Signaling.Errors.{Result}
use unisockets.Signaling.Subnets.{
  Subnets, create_ip_address, create_tcp_address, claim_tcp_address, remove_ip_address,
  remove_tcp_address,
}

-- A call of one of the pool's methods.
pub data Call : Type 0 where
  create_ip : Text → Call
  create_tcp : Text → Call
  claim_tcp : Text → Call
  remove_ip : Text → Call
  remove_tcp : Text → Call

-- What it returns or throws.
pub data Answer : Type 0 where
  ip_created : Text → Answer
  tcp_created : Result Text → Answer
  tcp_claimed : Result (Unit {0}) → Answer
  removed : Answer

unfoldable pub serve : Call → Subnets → Answer × Subnets
serve (create_ip subnet) s = let (id, t) = create_ip_address subnet s in (ip_created id, t)
serve (create_tcp ip) s = let (r, t) = create_tcp_address ip s in (tcp_created r, t)
serve (claim_tcp address) s = let (r, t) = claim_tcp_address address s in (tcp_claimed r, t)
serve (remove_ip ip) s = (removed, remove_ip_address ip s)
serve (remove_tcp address) s = (removed, remove_tcp_address address s)

unfoldable pub serve_all : List Call → Subnets → List Answer × Subnets
unfolding serve
serve_all [] s = ([], s)
serve_all (call ∷ calls) s =
    let (answer, t) = serve call s in let (answers, u) = serve_all calls t in (answer ∷ answers, u)
