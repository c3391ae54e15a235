-- ===== src/Sockets/SockAddr.antt =====
-- The `struct sockaddr_in` of a program, as unisockets_bind and unisockets_connect of
-- pkg/web/sockets/sockets.ts read it and as unisockets_accept writes it.
pub mod Reading
pub mod Writing
use unisockets.Prelude.{
  ℕ, zero, suc, ◌+◌, ◌-◌, ◌*◌, ◌≡◌, refl, List, [], ◌∷◌, ◌++◌, Option, none, some, Text, codes, map,
  get_elem?, ltb, if◌then◌else◌,
}
use unisockets.Map.{get_or}
use unisockets.Text.{split, join}
use unisockets.Number.{Number, nat, parse_int, parse_int?, to_text}
use unisockets.Signaling.Errors.{Result, ok, err, Error, foreign}
use unisockets.Sockets.Memory.{Bytes, slice, store, htons, to_uint, to_uint8, get_as_binary}

-- `new Uint16Array(bytes.buffer)[0]`, the low byte first. Of no bytes it is `undefined`, which
-- `htons` takes for 0; of one byte the constructor throws.
unfoldable pub uint16 : Bytes → Result ℕ
uint16 [] = ok 0
uint16 (a ∷ []) = err (foreign (codes "RangeError"))
uint16 (a ∷ b ∷ l) = ok (a + b * 256)

-- `addressInMemory.join(".")`
unfoldable pub dotted : Bytes → Text
dotted l = join b'.' (map (λ b. to_text (nat b)) l)

-- The alias in the bytes from the pointer on.
unfoldable pub read_alias : ℕ → ℕ → Bytes → Result Text
unfolding uint16 dotted slice htons
read_alias pointer length m =
    let socket_in_memory = slice pointer (pointer + length) m in
    let address = dotted (slice 4 8 socket_in_memory) in
    elim (uint16 (slice 2 4 socket_in_memory)) [
      | err e ↦ err e
      | ok port ↦ ok (address ++ b':' ∷ to_text (nat (htons port)))
    ]

-- `new Int32Array(memory.slice(pointer, pointer + 4))[0]` converts the elements, so it is the first
-- byte; of no bytes it is `undefined`, below which no index is.
unfoldable pub address_length : ℕ → Bytes → ℕ
unfolding slice
address_length pointer m = get_or 0 (get_elem? (slice pointer (pointer + 4) m) 0)

-- What the loop writes at each index; a part of the address that is not there is written as 0.
unfoldable pub sockaddr_byte : Text → ℕ → Option ℕ
unfolding get_as_binary to_uint
sockaddr_byte client_alias i =
    let parts = split b':' client_alias in
    let address = map (λ e. to_uint8 (parse_int e)) (split b'.' (get_or [] (get_elem? parts 0))) in
    if ltb i 2
    then some (get_or 0 (get_elem? (get_as_binary (nat 2)) i))
    else if ltb i 4
    then some (get_or 0 (get_elem? (get_as_binary (parse_int? (get_elem? parts 1))) (i - 2)))
    else if ltb i 8
    then some (get_or 0 (get_elem? address (i - 4)))
    else none

abbrev pub store? : ℕ → Option ℕ → Bytes → Bytes
store? index none m = m
store? index (some b) m = store index b m

-- `for (let i = 0; i < addressLength; i++)`, with the rounds that are left.
unfoldable pub write_loop : ℕ → ℕ → ℕ → Text → Bytes → Bytes
unfolding store
write_loop zero i pointer client_alias m = m
write_loop (suc n) i pointer client_alias m =
    write_loop n (suc i) pointer client_alias
      (store? (pointer + i) (sockaddr_byte client_alias i) m)

unfoldable pub write_alias : ℕ → ℕ → Text → Bytes → Bytes
unfolding write_loop address_length
write_alias pointer length_pointer client_alias m =
    write_loop (address_length length_pointer m) 0 pointer client_alias m
