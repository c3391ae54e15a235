-- ===== src/Runner/Worker/Binding.antt =====
-- A program's bind, from its memory to the server and back: unisockets_bind of sockets.ts, `bind` of
-- the worker's signaling client, and handleBind of the signaling server.
use unisockets.Prelude.{
  ℕ, ◌/◌, ◌%◌, ◌≤◌, ◌<◌, ◌≡◌, refl, ap, sym, ◌∙◌, Bool, true, false, not, [], ◌++◌, Option, none,
  some, length, Text, text_key, nat_key, if◌then◌else◌, inl, inr, subst,
}
use unisockets.Map.{get, has}
use unisockets.Number.{Number, nat}
use unisockets.Number.Gap.{IsNat}
use unisockets.Signaling.Errors.{Result, ok, err, foreign}
use unisockets.Signaling.Address.{IpAddress}
use unisockets.Signaling.Address.RoundTrip.{parse-to_tcp_ip}
use unisockets.Signaling.Subnets.WellFormed.{IsWellFormed}
use unisockets.Signaling.Subnets.Preservation.{IsTcpAddress}
use unisockets.Signaling.Client.{Client, bind_data, bind_settles, get_alias_key}
use unisockets.Signaling.Server.Action.{Socket, Server}
use unisockets.Signaling.Server.Handlers.{handle_bind, alias_message}
use unisockets.Signaling.Server.Binding.{handle_bind-Binds, reply}
use unisockets.Signaling.Session.{emitted, bind_answered}
use unisockets.Sockets.Memory.{Bytes}
use unisockets.Sockets.SockAddr.Reading.{
  alias_of, sockaddr, subnet_of, subnet_of-IsSubnet, subnet_of-Lacks,
}
use unisockets.Sockets.Calls.{Sockets}
use unisockets.Sockets.Calls.Laws.{bind_to}
use unisockets.Map.Laws.{==_refl}
use unisockets.Signaling.Operation.{Operation}
use unisockets.Sockets.Imports.{minus_one, buffer_of, unisockets_bind}
use unisockets.Sockets.Imports.Codes.{unisockets_bind_lem}
use unisockets.Runner.Worker.{Worker, Outside, externals, handle_external_bind}

-- The alias of a socket address names a natural suffix and port.
pub alias_of-IsTcpAddress : (a b c d port : ℕ) → IsTcpAddress (alias_of a b c d port)
alias_of-IsTcpAddress a b c d port =
    let (p, ip) =
      parse-to_tcp_ip (subnet_of a b c) d port (subnet_of-IsSubnet a b c) (subnet_of-Lacks a b c) in
    (subst IsNat (sym p) tt, subst (λ (x : IpAddress). IsNat x.suffix) (sym ip) tt)

-- What the promise of `bind` gives back once it is settled.
abbrev pub settled : Text → Bool → Result (Unit {0})
settled key true = ok tt
settled key false = err (foreign key)

reply_aliases :
    (o : Option Socket) (op : Operation) (s : Server) → (reply o op s).1.aliases ≡ s.aliases
reply_aliases none op s = refl
reply_aliases (some w) op s = refl

-- What the handler leaves for the alias: the client's, if it was free.
bound_after :
    (c : Client) (alias : Text) (sv : Server)
    → IsTcpAddress alias
    → IsWellFormed sv.subnets
    → (handle_bind (bind_data c alias) sv).0 ≡ ok tt
    → get alias (handle_bind (bind_data c alias) sv).1.aliases ≡ (
        if has alias sv.aliases
        then get alias sv.aliases
        else some (record { id = c.id; accepting = false }))
bound_after c alias sv valid v done = elim (handle_bind-Binds (bind_data c alias) sv valid v) [
  | inl (taken, r) ↦ rw taken (
      ap (λ q. get alias q.1.aliases) r
      ∙ ap (get alias) (reply_aliases (get c.id sv.clients) (alias_message c.id alias false) sv))
  | inr (inl (free, known, open_port, r, bound)) ↦
      rw free (bound.alias alias ∙ (rw (==_refl alias) refl))
  | inr (inr (inl (free, held, r, untouched))) ↦ cc
  | inr (inr (inr (free, unknown, r, untouched))) ↦ cc
]

-- What the server sent settles the client's promise, if nothing was sent before.
pub settled_by_server :
    (c : Client) (alias : Text) (sv : Server) (w : Socket)
    → IsTcpAddress alias
    → IsWellFormed sv.subnets
    → get c.id sv.clients ≡ some w
    → sv.sent ≡ []
    → (handle_bind (bind_data c alias) sv).0 ≡ ok tt
    → bind_settles c alias (emitted w (handle_bind (bind_data c alias) sv).1.sent c)
      ≡ some (not (has alias sv.aliases))
settled_by_server c alias sv w valid v there none_sent done =
    let (l, told, settles) = bind_answered c alias sv w valid v there done in
    ap (λ k. bind_settles c alias (emitted w k c)) (told ∙ ap (λ k. k ++ l) none_sent) ∙ settles

module _ {R : Type 0} (o : Outside R) (memory_id : Text) (buffer : ℕ) (s t : Sockets (Worker R))
    (c : Client) (sv : Server) (w : Socket) (x y z u port : ℕ) where
  abbrev asked_alias : Text
  asked_alias = alias_of x y z u port

  code_of :
      (fd : ℕ) (key : Text) (taken : Bool)
      → (elim (settled key (not taken)) as (λ _. Result Number × Sockets (Worker R)) [
        | ok v ↦ (ok (nat 0), bind_to (externals o) fd asked_alias t)
        | err v ↦ (ok minus_one, t)
      ]).0
        ≡ ok (if taken then minus_one else nat 0)
  code_of fd key true = refl
  code_of fd key false = refl

  -- A program that binds the socket address in its memory gets 0 if the alias was free at the server,
  -- which then holds it for the program's client, and -1 if it was taken, with the server's entry as it
  -- was. Conditions: the memory is set and holds the address, of which at least eight bytes are given;
  -- the descriptor is known; the client is there under its id; the pool is well formed, nothing was
  -- sent before, and the server's handler does not throw; and the client's bind returns what its
  -- promise is settled with.
  pub unisockets_bind-handle_bind :
      (pre rest : Bytes) (f g fd n : ℕ)
      → get memory_id s.memories ≡ some buffer
      → port < 65536
      → buffer_of buffer s ≡ pre ++ (sockaddr f g (port / 256) (port % 256) x y z u ++ rest)
      → 8 ≤ n
      → has fd s.binds ≡ true
      → get c.id sv.clients ≡ some w
      → IsWellFormed sv.subnets
      → sv.sent ≡ []
      → (handle_bind (bind_data c asked_alias) sv).0 ≡ ok tt
      → ((b : Bool)
          → bind_settles c asked_alias
              (emitted w (handle_bind (bind_data c asked_alias) sv).1.sent c)
            ≡ some b
          → o.client_bind asked_alias s ≡ (settled (get_alias_key c.id asked_alias) b, t))
      → ((unisockets_bind (externals o) memory_id fd (length pre) n s).0
          ≡ ok (if has asked_alias sv.aliases then minus_one else nat 0))
        × (get asked_alias (handle_bind (bind_data c asked_alias) sv).1.aliases ≡ (
            if has asked_alias sv.aliases
            then get asked_alias sv.aliases
            else some (record { id = c.id; accepting = false })))
  unfolding handle_external_bind
  unisockets_bind-handle_bind pre rest f g fd n mem low held enough known there pool none_sent done
        returns =
      let valid = alias_of-IsTcpAddress x y z u port in
      let key = get_alias_key c.id asked_alias in
      let bound =
        returns (not (has asked_alias sv.aliases))
          (settled_by_server c asked_alias sv w valid pool there none_sent done) in
      let code =
        unisockets_bind_lem memory_id buffer s mem (externals o) pre rest f g x y z u port low held
          fd n (settled key (not (has asked_alias sv.aliases))) t enough known bound in
      (
        ap (λ r. r.0) code ∙ code_of fd key (has asked_alias sv.aliases),
        bound_after c asked_alias sv valid pool done,
      )
