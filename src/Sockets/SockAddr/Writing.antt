-- ===== src/Sockets/SockAddr/Writing.antt =====
-- What unisockets_accept writes, and what is read back from it.
use unisockets.Prelude.{
  ℕ, zero, suc, ◌+◌, ◌-◌, ◌*◌, ◌/◌, ◌%◌, ◌≤◌, ◌<◌, ◌≡◌, refl, ap, ◌∙◌, sym, [], ◌∷◌, ◌++◌,
  append-nil, append_assoc, length, Text, arith, text_key, Option, none, some, get_elem?, ltb,
  if◌then◌else◌,
}
use unisockets.Map.{get_or}
use unisockets.Text.{split, join, split-Lacks, split-append_lacking}
use unisockets.Number.{nat, to_text, parse_int, parse_int?}
use unisockets.Number.RoundTrip.{parse_int-to_text}
use unisockets.Signaling.Errors.{ok}
use unisockets.Signaling.Address.{to_ip_address, to_tcp_address}
use unisockets.Signaling.Address.RoundTrip.{dot_text-Lacks, colon_text-Lacks, to_ip-Lacks}
use unisockets.Sockets.Memory.{Bytes, store, htons, to_uint, get_as_binary}
use unisockets.Sockets.Memory.Laws.{store-append}
use unisockets.Sockets.SockAddr.{
  read_alias, address_length, sockaddr_byte, store?, write_loop, write_alias,
}
use unisockets.Sockets.SockAddr.Reading.{
  subnet_of, alias_of, sockaddr, subnet_of-Lacks, read_alias_lem,
}

-- The parts of an alias that the server has made.
split_alias :
    (a b c d port : ℕ)
    → split b':' (alias_of a b c d port)
      ≡ to_ip_address (subnet_of a b c) (nat d) ∷ to_text (nat port) ∷ []
unfolding to_tcp_address
split_alias a b c d port =
    rw
      (
        split-append_lacking b':' (to_ip_address (subnet_of a b c) (nat d)) (to_text (nat port))
            (to_ip-Lacks (subnet_of a b c) d (subnet_of-Lacks a b c)),
        split-Lacks b':' (to_text (nat port)) (colon_text-Lacks port),
      )
      refl

split_address :
    (a b c d : ℕ)
    → split b'.' (to_ip_address (subnet_of a b c) (nat d))
      ≡ to_text (nat a) ∷ to_text (nat b) ∷ to_text (nat c) ∷ to_text (nat d) ∷ []
unfolding join to_ip_address
split_address a b c d =
    rw
      (append_assoc (to_text (nat a)) (b'.' ∷ (to_text (nat b) ++ b'.' ∷ to_text (nat c)))
        (b'.' ∷ to_text (nat d)))
      (rw (append_assoc (to_text (nat b)) (b'.' ∷ to_text (nat c)) (b'.' ∷ to_text (nat d))) (
        rw
          (
            split-append_lacking b'.' (to_text (nat a))
                (to_text (nat b) ++ b'.' ∷ (to_text (nat c) ++ b'.' ∷ to_text (nat d)))
                (dot_text-Lacks a),
            split-append_lacking b'.' (to_text (nat b)) (to_text (nat c) ++ b'.' ∷ to_text (nat d))
                (dot_text-Lacks b),
            split-append_lacking b'.' (to_text (nat c)) (to_text (nat d)) (dot_text-Lacks c),
            split-Lacks b'.' (to_text (nat d)) (dot_text-Lacks d),
          )
          refl))

parse_text : (n : ℕ) → parse_int (to_text (nat n)) ≡ nat n
parse_text n = ap parse_int (sym (append-nil (to_text (nat n)))) ∙ parse_int-to_text n [] tt

-- The eight bytes: the family, the port with its low byte first, and the address.
written : ℕ → ℕ → ℕ → ℕ → ℕ → ℕ → Option ℕ
written port a b c d i = get_elem? (sockaddr 2 0 (port % 256) (port / 256) a b c d) i

-- The three ranges of the loop's index, as one list.
ranges :
    (f0 f1 f2 f3 p0 p1 p2 p3 a b c d i : ℕ)
    → (if ltb i 2
        then some (get_or 0 (get_elem? (f0 ∷ f1 ∷ f2 ∷ f3 ∷ []) i))
        else if ltb i 4
        then some (get_or 0 (get_elem? (p0 ∷ p1 ∷ p2 ∷ p3 ∷ []) (i - 2)))
        else if ltb i 8
        then some (get_or 0 (get_elem? (a ∷ b ∷ c ∷ d ∷ []) (i - 4)))
        else none)
      ≡ get_elem? (sockaddr f0 f1 p0 p1 a b c d) i
ranges f0 f1 f2 f3 p0 p1 p2 p3 a b c d zero = refl
ranges f0 f1 f2 f3 p0 p1 p2 p3 a b c d (suc zero) = refl
ranges f0 f1 f2 f3 p0 p1 p2 p3 a b c d (suc (suc zero)) = refl
ranges f0 f1 f2 f3 p0 p1 p2 p3 a b c d (suc (suc (suc zero))) = refl
ranges f0 f1 f2 f3 p0 p1 p2 p3 a b c d (suc (suc (suc (suc zero)))) = refl
ranges f0 f1 f2 f3 p0 p1 p2 p3 a b c d (suc (suc (suc (suc (suc zero))))) = refl
ranges f0 f1 f2 f3 p0 p1 p2 p3 a b c d (suc (suc (suc (suc (suc (suc zero)))))) = refl
ranges f0 f1 f2 f3 p0 p1 p2 p3 a b c d (suc (suc (suc (suc (suc (suc (suc zero))))))) = refl
ranges f0 f1 f2 f3 p0 p1 p2 p3 a b c d (suc (suc (suc (suc (suc (suc (suc (suc i)))))))) =
    ground arith

sockaddr_byte_lem :
    (a b c d port i : ℕ)
    → a < 256
    → b < 256
    → c < 256
    → d < 256
    → port < 65536
    → sockaddr_byte (alias_of a b c d port) i ≡ written port a b c d i
unfolding sockaddr_byte written parse_int? to_uint get_as_binary
sockaddr_byte_lem a b c d port i ha hb hc hd hp =
    let w = port % 4294967296 in
    let bytes : sockaddr 2 0 (w % 256) (w / 256 % 256) (a % 256) (b % 256) (c % 256) (d % 256)
        ≡ sockaddr 2 0 (port % 256) (port / 256) a b c d =
      ground arith in
    rw (split_alias a b c d port, sockaddr_byte)
      (rw
        (
          split_address a b c d,
          parse_text port,
          parse_text a,
          parse_text b,
          parse_text c,
          parse_text d,
        )
        (ranges 2 0 0 0 (w % 256) (w / 256 % 256) (w / 65536 % 256) (w / 16777216 % 256) (a % 256)
            (b % 256) (c % 256) (d % 256) i
          ∙ ap (λ l. get_elem? l i) bytes))

write_loop_above :
    (n i pointer : ℕ) (alias : Text) (m : Bytes) → 8 ≤ i → write_loop n i pointer alias m ≡ m
unfolding write_loop sockaddr_byte
write_loop_above zero i pointer alias m h = refl
write_loop_above (suc n) i pointer alias m h =
    ground (arith, write_loop_above n (suc i) pointer alias m)

store?-append :
    (i : ℕ) (o : Option ℕ) (pre l : Bytes)
    → store? (length pre + i) o (pre ++ l) ≡ pre ++ store? i o l
store?-append i none pre l = refl
store?-append i (some v) pre l = store-append i v pre l

-- The loop leaves what lies before the pointer alone.
write_loop-append :
    (n i : ℕ) (alias : Text) (pre l : Bytes)
    → write_loop n i (length pre) alias (pre ++ l) ≡ pre ++ write_loop n i 0 alias l
unfolding write_loop
write_loop-append zero i alias pre l = refl
write_loop-append (suc n) i alias pre l =
    let here : 0 + i ≡ i = omega arith in
    rw (store?-append i (sockaddr_byte alias i) pre l, write_loop)
      (write_loop-append n (suc i) alias pre (store? i (sockaddr_byte alias i) l) ∙ (rw here refl))

module _ (a b c d port : ℕ) (ha : a < 256) (hb : b < 256) (hc : c < 256) (hd : d < 256)
    (hp : port < 65536) where
  eight_rounds :
      (rest : Bytes) (n f g p q x y z w : ℕ)
      → write_loop
          (suc (suc (suc (suc (suc (suc (suc (suc n))))))))
          0
          0
          (alias_of a b c d port)
          (sockaddr f g p q x y z w ++ rest)
        ≡ sockaddr 2 0 (port % 256) (port / 256) a b c d ++ rest
  unfolding write_loop written store
  eight_rounds rest n f g p q x y z w =
      let byte = λ (i : ℕ). sockaddr_byte_lem a b c d port i ha hb hc hd hp in
      rw (byte 0, byte 1, byte 2, byte 3, byte 4, byte 5, byte 6, byte 7)
        (write_loop_above n 8 0 (alias_of a b c d port) _ (omega arith))

  -- With a length of at least eight, unisockets_accept writes the address of the alias over the
  -- eight bytes at the pointer, the port with its low byte first, and changes no other byte.
  pub write_alias_lem :
      (pre rest : Bytes) (f g p q x y z w length_pointer : ℕ)
      → 8 ≤ address_length length_pointer (pre ++ (sockaddr f g p q x y z w ++ rest))
      → write_alias
          (length pre)
          length_pointer
          (alias_of a b c d port)
          (pre ++ (sockaddr f g p q x y z w ++ rest))
        ≡ pre ++ (sockaddr 2 0 (port % 256) (port / 256) a b c d ++ rest)
  unfolding write_alias
  write_alias_lem pre rest f g p q x y z w length_pointer h =
      let n = address_length length_pointer (pre ++ (sockaddr f g p q x y z w ++ rest)) in
      let count : n ≡ suc (suc (suc (suc (suc (suc (suc (suc (n - 8)))))))) = omega arith in
      ap
        (λ k.
          write_loop k 0 (length pre) (alias_of a b c d port)
            (pre ++ (sockaddr f g p q x y z w ++ rest)))
        count
      ∙ write_loop-append (suc (suc (suc (suc (suc (suc (suc (suc (n - 8))))))))) 0
          (alias_of a b c d port) pre (sockaddr f g p q x y z w ++ rest)
      ∙ ap (λ l. pre ++ l) (eight_rounds rest (n - 8) f g p q x y z w)

  -- What unisockets_accept has written is read by unisockets_connect as the same address with the
  -- two bytes of the port exchanged. Conditions: the address's bytes are below 256 and the port below
  -- 65536, and at least eight bytes are there to be written and to be read.
  pub accepted_alias-swapped :
      (pre rest : Bytes) (f g p q x y z w length_pointer n : ℕ)
      → 8 ≤ address_length length_pointer (pre ++ (sockaddr f g p q x y z w ++ rest))
      → 8 ≤ n
      → read_alias (length pre) n (
          write_alias
            (length pre)
            length_pointer
            (alias_of a b c d port)
            (pre ++ (sockaddr f g p q x y z w ++ rest)))
        ≡ ok (alias_of a b c d (htons port))
  unfolding htons
  accepted_alias-swapped pre rest f g p q x y z w length_pointer n h enough =
      let count : n ≡ suc (suc (suc (suc (suc (suc (suc (suc (n - 8)))))))) = omega arith in
      let swapped : port % 256 * 256 + port / 256 ≡ port % 256 * 256 + port / 256 % 256 =
        omega arith in
      ap (λ m. read_alias (length pre) n m)
        (write_alias_lem pre rest f g p q x y z w length_pointer h)
      ∙ ap
          (λ k.
            read_alias (length pre) k
              (pre ++ (sockaddr 2 0 (port % 256) (port / 256) a b c d ++ rest)))
          count
      ∙ read_alias_lem pre rest 2 0 (port % 256) (port / 256) a b c d (n - 8) (omega arith)
          (omega arith)
      ∙ ap (λ k. ok (alias_of a b c d k)) swapped
