-- ===== src/Signaling/Server/Concurrent/Alone.antt =====
-- A call of handleBind between whose turns no other call runs.
use unisockets.Prelude.{◌≡◌, refl, inl, inr, [], ◌∷◌, get_elem?, text_key, Bool-cases}
use unisockets.Map.{has}
use unisockets.Signaling.Errors.{Result, ok, err}
use unisockets.Signaling.Operation.{BindData}
use unisockets.Signaling.Subnets.{claim_tcp_address}
use unisockets.Signaling.Server.Action.{Server, continue, modify, on_subnets, ◌>>=◌}
use unisockets.Signaling.Server.Handlers.{accept_bind, handle_bind}
use unisockets.Signaling.Server.Concurrent.{
  Ongoing, begin, claim, finish, pick, mark, announce_bind, begin_bind, settle_claim, claim_bind,
  finish_bind, turn, turns,
}

settled :
    (d : BindData) (r : Result (Unit {0})) (t s : Server)
    → let u : Ongoing =
        settle_claim d [] r t (record { server = s; checked = d ∷ []; granted = [] }) in
      (finish_bind 0 (get_elem? u.granted 0) u).server ≡ (continue (λ v. announce_bind d) (r, t)).1
unfolding settle_claim finish_bind mark
settled d (ok v) t s = refl
settled d (err e) t s = refl

-- A call that runs alone is handleBind, whatever turns it takes with nobody between.
pub turns-handle_bind :
    (d : BindData) (s : Server)
    → (turns
        (begin d ∷ claim 0 ∷ finish 0 ∷ [])
        (record { server = s; checked = []; granted = [] })).server
      ≡ (handle_bind d s).1
unfolding turns turn begin_bind claim_bind finish_bind settle_claim announce_bind mark pick
    handle_bind accept_bind ◌>>=◌ modify
turns-handle_bind d s = elim (Bool-cases (has d.alias s.aliases)) [
  | inl taken ↦ rw (taken) refl
  | inr free ↦ rw (free) (let r = on_subnets (claim_tcp_address d.alias) s in settled d r.0 r.1 s)
]
