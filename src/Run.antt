-- ===== src/Run.antt =====
-- Actions on a state that may throw. What was changed before a throw stays, so the state comes
-- back beside the error too: this is how an async method of the classes runs.
pub mod Keeps
use unisockets.Signaling.Errors.{Result, ok, err, Error}

abbrev pub Run : Type 0 → Type 0 → Type 0
Run S A = S → Result A × S

-- What follows an action; not after a throw.
abbrev pub continue : {S A B : Type 0} → (A → Run S B) → Result A × S → Result B × S
continue f (ok a, s) = f a s
continue f (err e, s) = (err e, s)

unfoldable pub pure : {S A : Type 0} → A → Run S A
pure a s = (ok a, s)

unfoldable pub throw : {S A : Type 0} → Error → Run S A
throw e s = (err e, s)

unfoldable pub gets : {S A : Type 0} → (S → A) → Run S A
gets f s = (ok (f s), s)

unfoldable pub modify : {S : Type 0} → (S → S) → Run S (Unit {0})
modify f s = (ok tt, f s)

-- An action on a part of the state.
unfoldable pub zoom : {S T A : Type 0} → (S → T) → (T → S → S) → Run T A → Run S A
zoom part put m s = let (r, t) = m (part s) in (r, put t s)

infixl 5 ◌>>=◌ ◌>>◌
-- Opening this opens the actions above too.
unfoldable pub ◌>>=◌ : {S A B : Type 0} → Run S A → (A → Run S B) → Run S B
unfolding pure throw gets modify zoom
◌>>=◌ m f s = continue f (m s)

abbrev pub ◌>>◌ : {S B : Type 0} → Run S (Unit {0}) → Run S B → Run S B
m >> k = m >>= λ _. k
