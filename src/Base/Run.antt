-- ===== src/Base/Run.antt =====
-- The outcome of kernel code: a value, a call of `panic`, or a loop that used up its fuel; and code
-- that reads and writes a state.
use mathlib.Core.Path.{◌≡◌, refl}
use mathlib.Core.Logic.{◌⊎◌, inl, inr}
use mathlib.Core.Bool.{Bool, true, false}

pub data Run {ℓ} (A : Type ℓ) : Type ℓ where
  ok : A → Run A
  panic : Run A
  out_of_fuel : Run A

abbrev pub M : Type 0 → Type 0 → Type 0
M S A = S → Run (A × S)

abbrev pub and_then : {A B : Type 0} → Run A → (A → Run B) → Run B
and_then (ok a) k = k a
and_then panic k = panic
and_then out_of_fuel k = out_of_fuel

module _ {S : Type 0} where
  abbrev pub pure : {A : Type 0} → A → M S A
  pure a s = ok (a, s)

  abbrev pub fail : {A : Type 0} → M S A
  fail s = panic

  abbrev pub stuck : {A : Type 0} → M S A
  stuck s = out_of_fuel

  -- A pure change of the state, and a read of it.
  abbrev pub modify : (S → S) → M S (Unit {0})
  modify f s = ok (tt, f s)

  abbrev pub gets : {A : Type 0} → (S → A) → M S A
  gets f s = ok (f s, s)

  infixl 5 ◌>>=◌ ◌>>◌
  abbrev pub ◌>>=◌ : {A B : Type 0} → M S A → (A → M S B) → M S B
  ◌>>=◌ m f s = and_then (m s) (λ (a, s'). f a s')

  abbrev pub ◌>>◌ : {A B : Type 0} → M S A → M S B → M S B
  ◌>>◌ m k s = and_then (m s) (λ (_, s'). k s')

  -- `if(test) then` with no else.
  abbrev pub when : Bool → M S (Unit {0}) → M S (Unit {0})
  when true m = m
  when false m = pure tt

pub Run-cases :
    {A S : Type 0} (r : Run (A × S))
    → (r ≡ panic) ⊎ (r ≡ out_of_fuel) ⊎ ((a : A) × (s : S) × (r ≡ ok (a, s)))
Run-cases panic = inl refl
Run-cases out_of_fuel = inr (inl refl)
Run-cases (ok (a, s)) = inr (inr (a, s, refl))
