-- ===== src/Sockets/Imports/Bounds.antt =====
-- Which bytes of a program's memory a call may change.
use unisockets.Prelude.{
  ℕ, ◌+◌, ◌≡◌, refl, ◌∙◌, [], some, length, false, Text, nat_key, nat_beq, nat_beq_iff, ◌⊎◌, ap,
  get_elem?, inl, inr, Bool-cases,
}
use unisockets.Map.{set, get_or}
use unisockets.Map.Laws.{get-set}
use unisockets.Number.{Number, nat}
use unisockets.Signaling.Errors.{Result}
use unisockets.Run.{Run}
use unisockets.Run.Keeps.{Keeps, Keeps-pure, Keeps-modify, Keeps-bind, run_rules}
use unisockets.Sockets.Memory.{Bytes}
use unisockets.Sockets.Calls.{Sockets, Externals}
use unisockets.Sockets.Calls.Keeps.{
  CallsKeep, Respects, Keeps-access_memory, Keeps-accept, Keeps-close, sockets_rules,
}
use unisockets.Sockets.Imports.{
  Call, socket_call, bind_call, listen_call, accept_call, connect_call, send_call, recv_call,
  getsockname_call, close_call, run_call, buffer_of, write, try_code, lift, unisockets_socket,
  unisockets_bind, unisockets_listen, unisockets_accept, unisockets_connect, unisockets_send,
  unisockets_recv, unisockets_getsockname, unisockets_close,
}
use unisockets.Sockets.Memory.Confined.{
  in_range, Confined, copy_from-Confined, write_alias-Confined,
}

-- The memories are as long as before, and outside the range every byte is as before.
pub record IsKept {W : Type 0} (before : ℕ → Bytes) (lo hi : ℕ) (s : Sockets W) : Type 0 where
  pub long : (buffer : ℕ) → length (buffer_of buffer s) ≡ length (before buffer)
  pub same_bytes :
      (buffer j : ℕ)
      → in_range lo hi j ≡ false
      → get_elem? (buffer_of buffer s) j ≡ get_elem? (before buffer) j

-- A memory after a change of one of them.
buffer_of-set :
    {W : Type 0} (buffer b : ℕ) (f : Bytes → Bytes) (s : Sockets W)
    → let s' : Sockets W = record s { buffers = set buffer (f (buffer_of buffer s)) s.buffers } in
      (buffer_of b s' ≡ f (buffer_of b s)) ⊎ (buffer_of b s' ≡ buffer_of b s)
buffer_of-set buffer b f s = elim (Bool-cases (nat_beq buffer b)) [
  | inl same ↦ inl (
      ap (get_or []) (get-set buffer b (f (buffer_of buffer s)) s.buffers)
      ∙ (rw (same) (ap (λ k. f (buffer_of k s)) ((nat_beq_iff buffer b).0 same))))
  | inr other ↦
      inr (ap (get_or []) (get-set buffer b (f (buffer_of buffer s)) s.buffers) ∙ (rw (other) refl))
]

module _ {W : Type 0} (before : ℕ → Bytes) (lo hi : ℕ) where
  set-IsKept :
      (buffer : ℕ) (f : Bytes → Bytes) (s : Sockets W)
      → Confined lo hi f
      → IsKept before lo hi s
      → IsKept before lo hi (record s { buffers = set buffer (f (buffer_of buffer s)) s.buffers })
  set-IsKept buffer f s c k = record {
    long = λ b. elim (buffer_of-set buffer b f s) [
      | inl changed ↦ ap length changed ∙ c.long (buffer_of b s) ∙ k.long b
      | inr left ↦ ap length left ∙ k.long b
    ];
    same_bytes = λ b j out. elim (buffer_of-set buffer b f s) [
      | inl changed ↦
          ap (λ m. get_elem? m j) changed
          ∙ c.same_bytes (buffer_of b s) j out
          ∙ k.same_bytes b j out
      | inr left ↦ ap (λ m. get_elem? m j) left ∙ k.same_bytes b j out
    ];
  }

  Keeps-write :
      (buffer : ℕ) (f : Bytes → Bytes)
      → Confined lo hi f
      → Keeps (IsKept {W = W} before lo hi) (write {W = W} buffer f)
  unfolding write
  Keeps-write buffer f c = Keeps-modify _ (λ s k. set-IsKept buffer f s c k)

module _ {W : Type 0} {P : Sockets W → Type 0} where
  Keeps-try_code : (m : Run (Sockets W) Number) → Keeps P m → Keeps P (try_code m)
  unfolding try_code
  Keeps-try_code m k = record { stays = λ s h. k.stays s h }

  Keeps-lift : {A : Type 0} (r : Result A) → Keeps P (lift {S = Sockets W} r)
  unfolding lift
  Keeps-lift r = record { stays = λ s h. h }

module _ {W : Type 0} (e : Externals W) (memory_id : Text) {P : Sockets W → Type 0}
    (r : Respects e P) where
  ruleset import_rules = (run_rules, sockets_rules, Keeps-try_code, Keeps-lift)

  Keeps-unisockets_socket : Keeps P (unisockets_socket e memory_id)
  unfolding unisockets_socket
  Keeps-unisockets_socket = search (import_rules)

  Keeps-unisockets_bind : (fd p l : ℕ) → Keeps P (unisockets_bind e memory_id fd p l)
  unfolding unisockets_bind
  Keeps-unisockets_bind fd p l = search (import_rules) depth 12

  Keeps-unisockets_connect : (fd p l : ℕ) → Keeps P (unisockets_connect e memory_id fd p l)
  unfolding unisockets_connect
  Keeps-unisockets_connect fd p l = search (import_rules) depth 12

  Keeps-unisockets_send : (fd p l : ℕ) → Keeps P (unisockets_send e memory_id fd p l)
  unfolding unisockets_send
  Keeps-unisockets_send fd p l = search (import_rules) depth 12

  Keeps-unisockets_close : (fd : ℕ) → Keeps P (unisockets_close e memory_id fd)
  unfolding unisockets_close
  Keeps-unisockets_close fd = record { stays = λ s h. (Keeps-close e r fd).stays s h }

  Keeps-unisockets_listen : Keeps P (unisockets_listen e memory_id)
  unfolding unisockets_listen
  Keeps-unisockets_listen = Keeps-pure (nat 0)

-- From where to below where a call may write.
abbrev pub range : Call → ℕ × ℕ
range (accept_call fd p l) = (p, p + 8)
range (recv_call fd p l) = (p, p + l + 1)
range (getsockname_call fd p l) = (p, p + l + 1)
range socket_call = (0, 0)
range (bind_call fd p l) = (0, 0)
range listen_call = (0, 0)
range (connect_call fd p l) = (0, 0)
range (send_call fd p l) = (0, 0)
range (close_call fd) = (0, 0)

module _ {W : Type 0} (e : Externals W) (memory_id : Text) (before : ℕ → Bytes) where
  IsKept-Respects :
      (lo hi : ℕ) → CallsKeep e (IsKept before lo hi) → Respects e (IsKept before lo hi)
  IsKept-Respects lo hi calls = record {
    calls = calls;
    on_set = λ fd b s k. record { long = k.long; same_bytes = k.same_bytes };
    on_set_all = λ news s k. record { long = k.long; same_bytes = k.same_bytes };
    on_world = λ w s k. record { long = k.long; same_bytes = k.same_bytes };
    on_aliases = λ l s k. record { long = k.long; same_bytes = k.same_bytes };
  }

  accept-IsKept :
      (fd p l : ℕ)
      → Respects e (IsKept before p (p + 8))
      → Keeps (IsKept before p (p + 8)) (unisockets_accept e memory_id fd p l)
  unfolding unisockets_accept
  accept-IsKept fd p l r =
      let rule = λ (memory : ℕ) (alias : Text).
        Keeps-write {W = W} before p (p + 8) memory _ (write_alias-Confined p l alias) in
      search (run_rules, Keeps-try_code, Keeps-access_memory, Keeps-accept, rule) depth 12

  recv-IsKept :
      (fd p l : ℕ)
      → Respects e (IsKept before p (p + l + 1))
      → Keeps (IsKept before p (p + l + 1)) (unisockets_recv e memory_id fd p l)
  unfolding unisockets_recv
  recv-IsKept fd p l r =
      let rule = λ (memory : ℕ) (msg : Bytes).
        Keeps-write {W = W} before p (p + l + 1) memory _ (copy_from-Confined p l msg) in
      search (run_rules, Keeps-try_code, sockets_rules, rule) depth 12

  getsockname-IsKept :
      (fd p l : ℕ)
      → Respects e (IsKept before p (p + l + 1))
      → Keeps (IsKept before p (p + l + 1)) (unisockets_getsockname e memory_id fd p l)
  unfolding unisockets_getsockname
  getsockname-IsKept fd p l r =
      let rule = λ (memory : ℕ) (msg : Bytes).
        Keeps-write {W = W} before p (p + l + 1) memory _ (copy_from-Confined p l msg) in
      search (run_rules, Keeps-try_code, sockets_rules, rule) depth 12

  call-IsKept :
      (c : Call)
      → Respects e (IsKept before (range c).0 (range c).1)
      → Keeps (IsKept before (range c).0 (range c).1) (run_call e memory_id c)
  unfolding run_call
  call-IsKept (accept_call fd p l) r = search (run_rules, accept-IsKept)
  call-IsKept (recv_call fd p l) r = search (run_rules, recv-IsKept)
  call-IsKept (getsockname_call fd p l) r = search (run_rules, getsockname-IsKept)
  call-IsKept socket_call r = search (run_rules, Keeps-unisockets_socket)
  call-IsKept (bind_call fd p l) r = search (run_rules, Keeps-unisockets_bind)
  call-IsKept listen_call r =
      Keeps-bind _ _ (Keeps-unisockets_listen e memory_id r) (λ n. Keeps-pure (some n))
  call-IsKept (connect_call fd p l) r = search (run_rules, Keeps-unisockets_connect)
  call-IsKept (send_call fd p l) r = search (run_rules, Keeps-unisockets_send)
  call-IsKept (close_call fd) r = search (run_rules, Keeps-unisockets_close)

-- No call changes the length of a memory, and accept changes no byte but the eight from its pointer
-- on, recv and getsockname none but those from the pointer to the pointer plus the length, that one
-- included, and the other calls none; provided that the callbacks change none.
pub run_call-IsKept :
    {W : Type 0} (e : Externals W) (memory_id : Text) (c : Call) (s : Sockets W)
    → CallsKeep e (IsKept (λ buffer. buffer_of buffer s) (range c).0 (range c).1)
    → IsKept (λ buffer. buffer_of buffer s) (range c).0 (range c).1 (run_call e memory_id c s).1
run_call-IsKept e memory_id c s calls =
    (call-IsKept e memory_id _ c (IsKept-Respects e memory_id _ _ _ calls)).stays s
      (record { long = λ b. refl; same_bytes = λ b j out. refl })
