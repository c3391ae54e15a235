-- ===== src/Signaling/Server/Keeps.antt =====
-- The rules for invariants of actions, with one for the methods of the address pool.
use unisockets.Signaling.Errors.{Result}
use unisockets.Signaling.Subnets.{Subnets}
use unisockets.Signaling.Server.Action.{Server, on_subnets}
use unisockets.Run.Keeps.{run_rules, Keeps-zoom}
pub use unisockets.Run.Keeps.{Keeps, Keeps-modify, Keeps-bind}

pub Keeps-on_subnets :
    {P : Server → Type 0} {A : Type 0} (f : Subnets → Result A × Subnets)
    → ((s : Server) → P s → P (record s { subnets = (f s.subnets).1 }))
    → Keeps P (on_subnets f)
Keeps-on_subnets f h = Keeps-zoom (λ s. s.subnets) (λ t s. record s { subnets = t }) f h

pub ruleset keeps_rules = (run_rules, Keeps-on_subnets)
