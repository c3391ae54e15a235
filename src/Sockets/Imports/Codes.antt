-- ===== src/Sockets/Imports/Codes.antt =====
-- What the functions given to a program return and leave behind.
use unisockets.Prelude.{
  ℕ, suc, ◌+◌, ◌-◌, ◌*◌, ◌/◌, ◌%◌, ◌≤◌, ◌<◌, ◌≡◌, refl, ◌∙◌, ap, ◌++◌, some, length, true, Text,
  text_key, nat_key, get_elem?, arith,
}
use unisockets.Map.{get, has}
use unisockets.Map.Laws.{get-set, ==_refl}
use unisockets.Number.{nat}
use unisockets.Signaling.Errors.{Result, ok, err}
use unisockets.Sockets.Memory.{Bytes, copy_from}
use unisockets.Sockets.Memory.Laws.{get_elem?-copy_from}
use unisockets.Sockets.SockAddr.{read_alias}
use unisockets.Sockets.SockAddr.Reading.{alias_of, sockaddr, read_alias_lem}
use unisockets.Sockets.Calls.{Bind, Sockets, Externals, access_memory, or_throw, gets, ◌>>=◌}
use unisockets.Sockets.Calls.Laws.{bind_to, bind-granted, bind-refused, recv-bound}
use unisockets.Sockets.Imports.{
  minus_one, buffer_of, write, try_code, lift, unisockets_bind, unisockets_recv,
}

module _ {W : Type 0} (memory_id : Text) (buffer : ℕ) (s : Sockets W)
    (mem : get memory_id s.memories ≡ some buffer) where
  pub access_memory-get : access_memory memory_id s ≡ (ok buffer, s)
  unfolding access_memory or_throw ◌>>=◌
  access_memory-get = rw mem refl

  module _ (e : Externals W) where
    -- When the message is there, recv returns its length and leaves its bytes from the pointer on, as
    -- far as the memory and the length given reach, one byte beyond that length included. Conditions:
    -- the program's memory is set, and the descriptor is bound.
    pub unisockets_recv_lem :
        (fd pointer limit j : ℕ) (b : Bind) (msg : Bytes) (t : Sockets W)
        → get fd s.binds ≡ some b
        → e.external_recv b.alias b.connector_id s ≡ (ok msg, t)
        → j < length msg
        → j ≤ limit
        → pointer + j < length (buffer_of buffer t)
        → ((unisockets_recv e memory_id fd pointer limit s).0 ≡ ok (nat (length msg)))
          × (get_elem?
                (buffer_of buffer (unisockets_recv e memory_id fd pointer limit s).1)
                (pointer + j)
              ≡ get_elem? msg j)
    unfolding unisockets_recv try_code write ◌>>=◌
    unisockets_recv_lem fd pointer limit j b msg t h received inside below room = (
      rw (access_memory-get, recv-bound e fd b s h, received) refl,
      rw (access_memory-get, recv-bound e fd b s h, received)
          (rw
            (
              get-set buffer buffer (copy_from 0 pointer limit msg (buffer_of buffer t)) t.buffers,
              ==_refl buffer,
            )
            (ground (
              arith,
              get_elem?-copy_from 0 pointer limit msg (buffer_of buffer t) (pointer + j),
              inside,
              below,
              room,
            ))),
    )

    module _ (pre rest : Bytes) (f g x y z w port : ℕ) (hp : port < 65536)
        (held : buffer_of buffer s
          ≡ pre ++ (sockaddr f g (port / 256) (port % 256) x y z w ++ rest)) where
      -- The port of a socket address in network order is read as it is.
      pub read_alias-sockaddr :
          (n : ℕ)
          → 8 ≤ n
          → read_alias (length pre) n (buffer_of buffer s) ≡ ok (alias_of x y z w port)
      read_alias-sockaddr n enough =
          let count : n ≡ suc (suc (suc (suc (suc (suc (suc (suc (n - 8)))))))) = omega arith in
          let whole : port / 256 * 256 + port % 256 ≡ port = omega arith in
          rw (held, count)
            (read_alias_lem pre rest f g (port / 256) (port % 256) x y z w (n - 8) (omega arith)
                (omega arith)
              ∙ ap (λ k. ok (alias_of x y z w k)) whole)

      -- bind takes the alias from the socket address in the memory, asks for it and, when it is
      -- granted, returns 0 with the descriptor bound to it; when it is refused, it returns -1 and
      -- binds nothing. Conditions: the program's memory is set and holds a socket address, of which at
      -- least eight bytes are given, and the descriptor is known.
      pub unisockets_bind_lem :
          (fd n : ℕ) (r : Result (Unit {0})) (t : Sockets W)
          → 8 ≤ n
          → has fd s.binds ≡ true
          → e.external_bind (alias_of x y z w port) s ≡ (r, t)
          → unisockets_bind e memory_id fd (length pre) n s ≡ (elim r [
            | ok v ↦ (ok (nat 0), bind_to e fd (alias_of x y z w port) t)
            | err v ↦ (ok minus_one, t)
          ])
      unfolding unisockets_bind try_code lift gets ◌>>=◌
      unisockets_bind_lem fd n (ok v) t enough h granted =
          rw
            (
              access_memory-get,
              read_alias-sockaddr n enough,
              bind-granted e fd (alias_of x y z w port) s t h granted,
            )
            refl
      unisockets_bind_lem fd n (err v) t enough h refused =
          rw
            (
              access_memory-get,
              read_alias-sockaddr n enough,
              bind-refused e fd (alias_of x y z w port) v s t h refused,
            )
            refl
