-- ===== src/Runner/Worker/Aliases.antt =====
-- The aliases that a worker holds, and what it does with one that it does not hold.
use unisockets.Prelude.{
  ℕ, ◌+◌, ◌≡◌, refl, sym, ◌∙◌, ◌&&◌, not, Bool, true, false, [], ◌∷◌, none, some, length, Text,
  text_key, nat_key, ◌==◌, inl, inr, Bool-cases, if◌then◌else◌,
}
use unisockets.Map.{Map, get, has, set, delete}
use unisockets.Map.Laws.{==_refl, get-set, get-delete}
use unisockets.Number.{nat}
use unisockets.Signaling.Errors.{ok}
use unisockets.Sockets.Memory.{slice}
use unisockets.Sockets.Calls.{Bind, Sockets, gets, ◌>>=◌}
use unisockets.Sockets.Calls.Laws.{send-bound, recv-bound}
use unisockets.Sockets.Imports.{minus_one, buffer_of, try_code, unisockets_send, unisockets_recv}
use unisockets.Sockets.Imports.Codes.{access_memory-get}
use unisockets.Runner.Main.{
  Thread, Message, holder, itself, worker_of, Main, post, notify_from, notify_all_threads,
  notify_alias_add, handle_alias_update,
}
use unisockets.Runner.Worker.{
  Worker, Outside, externals, on_notify_alias_add, handle_external_send, handle_external_recv,
  send_to, recv_from,
}

-- On a descriptor whose alias the worker does not hold, send returns the length of the message and
-- posts nothing, so the message is lost; recv returns -1. Neither changes anything. Conditions: the
-- program's memory is set, and the descriptor is bound.
pub alias_not_held :
    {R : Type 0} (o : Outside R) (memory_id : Text) (buffer fd pointer n : ℕ) (b : Bind)
    (s : Sockets (Worker R))
    → get memory_id s.memories ≡ some buffer
    → get fd s.binds ≡ some b
    → get b.alias s.world.aliases_holder ≡ none
    → (unisockets_send (externals o) memory_id fd pointer n s
        ≡ (ok (nat (length (slice pointer (pointer + n) (buffer_of buffer s)))), s))
      × (unisockets_recv (externals o) memory_id fd pointer n s ≡ (ok minus_one, s))
unfolding unisockets_send unisockets_recv try_code gets handle_external_send handle_external_recv
    send_to recv_from ◌>>=◌
alias_not_held o memory_id buffer fd pointer n b s mem bounded missing = (
  rw
      (
        access_memory-get memory_id buffer s mem,
        send-bound (externals o) fd b (slice pointer (pointer + n) (buffer_of buffer s)) s bounded,
        missing,
      )
      refl,
  rw (access_memory-get memory_id buffer s mem, recv-bound (externals o) fd b s bounded, missing)
      refl,
)

pub notify_from-aliases :
    {T : Type 0} (m : Map ℕ Thread) (id : ℕ) (msg : Message) (s : Main T)
    → (notify_from m id msg s).socket_aliases ≡ s.socket_aliases
unfolding notify_from worker_of post
notify_from-aliases [] id msg s = refl
notify_from-aliases ((key, holder none) ∷ rest) id msg s = refl
notify_from-aliases ((key, itself p) ∷ rest) id msg s = refl
notify_from-aliases ((key, holder (some w)) ∷ rest) id msg s = elim (Bool-cases (key == id)) [
  | inl own ↦ rw own refl
  | inr other ↦ rw other (notify_from-aliases rest id msg (post w msg s))
]

-- What is held for an alias after it is set or removed.
abbrev changed : Text → Text → Bool → Map Text Text → Map Text Text
changed id alias is_delete m = if is_delete then delete alias m else set alias id m

get-changed :
    (id alias : Text) (is_delete : Bool) (m : Map Text Text)
    → get alias (changed id alias is_delete m) ≡ (if is_delete then none else some id)
get-changed id alias true m = get-delete alias alias m ∙ (rw (==_refl alias) refl)
get-changed id alias false m = get-set alias alias id m ∙ (rw (==_refl alias) refl)

-- After an alias is set or removed, a worker that takes the notice holds the same id for it as the
-- page, or none as the page. Condition: an alias that is set is new to the worker.
pub on_notify_alias_add-agrees :
    {T R : Type 0} (page : Main T) (w : Worker R) (id alias : Text) (is_delete : Bool) (sender : ℕ)
    → has alias w.aliases_holder && not is_delete ≡ false
    → get alias (on_notify_alias_add alias id is_delete w).aliases_holder
      ≡ get alias (handle_alias_update id alias is_delete sender page).socket_aliases
unfolding on_notify_alias_add handle_alias_update notify_all_threads
on_notify_alias_add-agrees page w id alias is_delete sender fresh =
    let page' : Main _ = record page {
      socket_aliases = changed id alias is_delete page.socket_aliases;
    } in
    let told =
      notify_from-aliases page.custom_threads sender (notify_alias_add alias id is_delete) page' in
    rw (fresh, told)
      (get-changed id alias is_delete w.aliases_holder
        ∙ sym (get-changed id alias is_delete page.socket_aliases))
