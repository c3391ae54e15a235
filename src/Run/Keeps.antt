-- ===== src/Run/Keeps.antt =====
-- Invariants of actions, one rule for each way in which an action is built.
use unisockets.Signaling.Errors.{Result, ok, err, Error}
use unisockets.Run.{Run, continue, ◌>>=◌, pure, throw, gets, modify, zoom}

-- The action keeps `P`, whether it returns or throws.
pub record Keeps {S A : Type 0} (P : S → Type 0) (m : Run S A) : Type 0 where
  pub stays : (s : S) → P s → P (m s).1

module _ {S A : Type 0} {P : S → Type 0} where
  pub Keeps-pure : (a : A) → Keeps P (pure a)
  unfolding pure
  Keeps-pure a = record { stays = λ s h. h }

  pub Keeps-throw : (e : Error) → Keeps P (throw {S = S} {A = A} e)
  unfolding throw
  Keeps-throw e = record { stays = λ s h. h }

  pub Keeps-gets : (f : S → A) → Keeps P (gets f)
  unfolding gets
  Keeps-gets f = record { stays = λ s h. h }

  pub Keeps-zoom :
      {T : Type 0} (part : S → T) (put : T → S → S) (m : Run T A)
      → ((s : S) → P s → P (put (m (part s)).1 s))
      → Keeps P (zoom part put m)
  unfolding zoom
  Keeps-zoom part put m h = record { stays = h }

module _ {S : Type 0} {P : S → Type 0} where
  pub Keeps-modify : (f : S → S) → ((s : S) → P s → P (f s)) → Keeps P (modify f)
  unfolding modify
  Keeps-modify f h = record { stays = h }

module _ {S A B : Type 0} {P : S → Type 0} where
  continue-keeps :
      (f : A → Run S B) (r : Result A) (s : S)
      → ((a : A) → Keeps P (f a))
      → P s
      → P (continue f (r, s)).1
  continue-keeps f (ok a) s kf h = (kf a).stays s h
  continue-keeps f (err e) s kf h = h

  pub Keeps-bind :
      (m : Run S A) (f : A → Run S B) → Keeps P m → ((a : A) → Keeps P (f a)) → Keeps P (m >>= f)
  unfolding ◌>>=◌
  Keeps-bind m f km kf = record {
    stays = λ s h. continue-keeps f (m s).0 (m s).1 kf (km.stays s h);
  }

pub ruleset run_rules = (Keeps-pure, Keeps-throw, Keeps-gets, Keeps-modify, Keeps-bind)
