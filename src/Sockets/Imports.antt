-- ===== src/Sockets/Imports.antt =====
-- The functions that getImports of pkg/web/sockets/sockets.ts gives to a program with the memory
-- `memory_id`. A program passes pointers, lengths and descriptors that are not negative.
pub mod Bounds
pub mod Codes
use unisockets.Prelude.{
  ℕ, zero, ◌+◌, List, [], ◌∷◌, Option, none, some, length, Text, codes, text_key, nat_key,
  get_elem?,
}
use unisockets.Map.{get, set, get_or}
use unisockets.Text.{split}
use unisockets.Number.{Number, nat, neg}
use unisockets.Signaling.Errors.{Result, ok, err}
use unisockets.Run.{Run}
use unisockets.Sockets.Memory.{Bytes, slice, copy_from}
use unisockets.Sockets.SockAddr.{read_alias, write_alias}
use unisockets.Sockets.Calls.{
  Sockets, Externals, pure, gets, modify, ◌>>=◌, ◌>>◌, bound, access_memory, ensure_bound, socket,
  bind, accept, connect, send, recv, close,
}

abbrev pub minus_one : Number
minus_one = neg 0

abbrev pub code_or_minus_one : Result Number → Number
code_or_minus_one (ok n) = n
code_or_minus_one (err e) = minus_one

-- `try { return ... } catch (e) { return -1; }`
unfoldable pub try_code : {S : Type 0} → Run S Number → Run S Number
try_code m s = let (r, s') = m s in (ok (code_or_minus_one r), s')

-- An expression that may throw.
unfoldable pub lift : {S A : Type 0} → Result A → Run S A
lift r s = (r, s)

module _ {W : Type 0} where
  abbrev pub buffer_of : ℕ → Sockets W → Bytes
  buffer_of buffer s = get_or [] (get buffer s.buffers)

  -- A program's memory changes in place.
  unfoldable pub write : ℕ → (Bytes → Bytes) → Run (Sockets W) (Unit {0})
  write buffer f =
      modify (λ s. record s { buffers = set buffer (f (buffer_of buffer s)) s.buffers })

-- A call that a program makes, by the function of ISocketImports.
pub data Call : Type 0 where
  socket_call : Call
  bind_call : ℕ → ℕ → ℕ → Call
  listen_call : Call
  accept_call : ℕ → ℕ → ℕ → Call
  connect_call : ℕ → ℕ → ℕ → Call
  send_call : ℕ → ℕ → ℕ → Call
  recv_call : ℕ → ℕ → ℕ → Call
  getsockname_call : ℕ → ℕ → ℕ → Call
  close_call : ℕ → Call

module _ {W : Type 0} (e : Externals W) (memory_id : Text) where
  unfoldable pub unisockets_socket : Run (Sockets W) Number
  unisockets_socket = do fd ← socket e; pure (nat fd)

  -- Nothing awaits what `close` returns, and an error of it is not caught. The rest of `close` may
  -- run after the program goes on.
  unfoldable pub unisockets_close : ℕ → Run (Sockets W) (Unit {0})
  unisockets_close fd s = (ok tt, (close e fd s).1)

  unfoldable pub unisockets_bind : ℕ → ℕ → ℕ → Run (Sockets W) Number
  unfolding try_code lift
  unisockets_bind fd address_pointer address_length = try_code (do
    memory ← access_memory memory_id
    m ← gets (buffer_of memory)
    alias ← lift (read_alias address_pointer address_length m)
    bind e fd alias
    pure (nat 0))

  unfoldable pub unisockets_listen : Run (Sockets W) Number
  unisockets_listen = pure (nat 0)

  unfoldable pub unisockets_accept : ℕ → ℕ → ℕ → Run (Sockets W) Number
  unfolding try_code write
  unisockets_accept fd address_pointer address_length_pointer = try_code (do
    memory ← access_memory memory_id
    (client_fd, client_alias) ← accept e fd
    write memory (write_alias address_pointer address_length_pointer client_alias)
    pure (nat client_fd))

  unfoldable pub unisockets_connect : ℕ → ℕ → ℕ → Run (Sockets W) Number
  unfolding try_code lift
  unisockets_connect fd address_pointer address_length = try_code (do
    memory ← access_memory memory_id
    m ← gets (buffer_of memory)
    alias ← lift (read_alias address_pointer address_length m)
    client_alias ← connect e fd alias
    pure (nat 0))

  unfoldable pub unisockets_send : ℕ → ℕ → ℕ → Run (Sockets W) Number
  unfolding try_code slice
  unisockets_send fd message_pointer message_pointer_length = try_code (do
    memory ← access_memory memory_id
    m ← gets (buffer_of memory)
    let msg = slice message_pointer (message_pointer + message_pointer_length) m
    send e fd msg
    pure (nat (length msg)))

  unfoldable pub unisockets_recv : ℕ → ℕ → ℕ → Run (Sockets W) Number
  unfolding try_code write
  unisockets_recv fd message_pointer message_pointer_length = try_code (do
    memory ← access_memory memory_id
    msg ← recv e fd
    write memory (copy_from 0 message_pointer message_pointer_length msg)
    pure (nat (length msg)))

  unfoldable pub unisockets_getsockname : ℕ → ℕ → ℕ → Run (Sockets W) Number
  unfolding try_code write bound
  unisockets_getsockname fd name_pointer name_pointer_length = try_code (do
    memory ← access_memory memory_id
    ensure_bound e fd
    b ← bound fd
    let array = e.encode (get_or [] (get_elem? (split b':' b.alias) 0))
    write memory (copy_from 0 name_pointer name_pointer_length array)
    pure (nat (length array)))

  -- The function under the name of the call; `unisockets_close` gives nothing back.
  unfoldable pub run_call : Call → Run (Sockets W) (Option Number)
  unfolding unisockets_socket unisockets_bind unisockets_listen unisockets_accept unisockets_connect
      unisockets_send unisockets_recv unisockets_getsockname unisockets_close
  run_call socket_call = do r ← unisockets_socket; pure (some r)
  run_call (bind_call fd p l) = do r ← unisockets_bind fd p l; pure (some r)
  run_call listen_call = do r ← unisockets_listen; pure (some r)
  run_call (accept_call fd p l) = do r ← unisockets_accept fd p l; pure (some r)
  run_call (connect_call fd p l) = do r ← unisockets_connect fd p l; pure (some r)
  run_call (send_call fd p l) = do r ← unisockets_send fd p l; pure (some r)
  run_call (recv_call fd p l) = do r ← unisockets_recv fd p l; pure (some r)
  run_call (getsockname_call fd p l) = do r ← unisockets_getsockname fd p l; pure (some r)
  run_call (close_call fd) = do unisockets_close fd; pure none
