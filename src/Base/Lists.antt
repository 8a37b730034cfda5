-- ===== src/Base/Lists.antt =====
-- Lists measured by native numbers, and predicates on their elements by recursion.
use Prim.Native.Nat.{ℕ, suc, ◌+◌}
use mathlib.Core.Path.{◌≡◌, refl, sym, ap, ◌∙◌}
use mathlib.Core.Logic.{inl, inr}
use revenue_sentinel.Base.Tests.{Bool-cases}
use mathlib.Core.Bool.{Bool, true, false, ◌||◌}
use mathlib.Core.List.{List, [], ◌∷◌, ◌++◌}
use mathlib.Core.Option.{Option, none, some}
use native.Mathlib.Omega.{arith}

module _ {ℓ} {A : Type ℓ} where
  abbrev pub length : List A → ℕ
  length [] = 0
  length (x ∷ xs) = suc (length xs)

  pub length-append : (xs ys : List A) → length (xs ++ ys) ≡ length xs + length ys
  length-append [] ys = omega arith
  length-append (x ∷ xs) ys = omega (arith, length-append xs ys)

  -- Every element satisfies `P`.
  abbrev pub All {κ} : (A → Type κ) → List A → Type κ
  All P [] = Unit
  All P (x ∷ xs) = P x × All P xs

  -- Some element passes the test.
  abbrev pub any : (A → Bool) → List A → Bool
  any p [] = false
  any p (x ∷ xs) = p x || any p xs

  -- The elements that pass the test, in order.
  abbrev pub keep : (A → Bool) → List A → List A
  keep p [] = []
  keep p (x ∷ xs) = let rest = keep p xs in elim (p x) [ true ↦ x ∷ rest | false ↦ rest ]

  pub any-append : (p : A → Bool) (xs ys : List A) → any p (xs ++ ys) ≡ (any p xs || any p ys)
  any-append p [] ys = refl
  any-append p (x ∷ xs) ys = ground (arith, any-append p xs ys)

module _ {ℓ} {A : Type ℓ} where
  -- `session.scalar(select(...).where(...))`: the first row that passes the test.
  abbrev pub find : (A → Bool) → List A → Option A
  find p [] = none
  find p (x ∷ xs) = let rest = find p xs in elim (p x) [ true ↦ some x | false ↦ rest ]

  -- What is found passes the test.
  pub find_sound : (p : A → Bool) (xs : List A) (x : A) → find p xs ≡ some x → p x ≡ true
  find_sound p [] x h = cc
  find_sound p (y ∷ ys) x h = ground (arith, find_sound p ys x)

  pub keep-true :
      (p : A → Bool) (x : A) (xs : List A) → p x ≡ true → keep p (x ∷ xs) ≡ x ∷ keep p xs
  keep-true p x xs h = rw (keep, h) refl

  pub keep-false : (p : A → Bool) (x : A) (xs : List A) → p x ≡ false → keep p (x ∷ xs) ≡ keep p xs
  keep-false p x xs h = rw (keep, h) refl

  pub keep-append : (p : A → Bool) (xs ys : List A) → keep p (xs ++ ys) ≡ keep p xs ++ keep p ys
  keep-append p [] ys = refl
  keep-append p (x ∷ xs) ys = elim (Bool-cases (p x)) [
    | inl e ↦
        keep-true p x (xs ++ ys) e
        ∙ ap (◌∷◌ x) (keep-append p xs ys)
        ∙ ap (λ front. front ++ keep p ys) (sym (keep-true p x xs e))
    | inr e ↦
        keep-false p x (xs ++ ys) e
        ∙ keep-append p xs ys
        ∙ ap (λ front. front ++ keep p ys) (sym (keep-false p x xs e))
  ]

module _ {ℓ κ} {A : Type ℓ} (P : A → Type κ) (p : A → Bool) where
  kept_cons :
      (x : A) (rest : List A) (b : Bool)
      → All P (elim b [ true ↦ x ∷ rest | false ↦ rest ])
      → (b ≡ true → P x) × All P rest
  kept_cons x rest true h = (λ e. h.0, h.1)
  kept_cons x rest false h = (λ e. cc, h)

  cons_kept :
      (x : A) (rest : List A) (b : Bool)
      → (b ≡ true → P x)
      → All P rest
      → All P (elim b [ true ↦ x ∷ rest | false ↦ rest ])
  cons_kept x rest true hx h = (hx refl, h)
  cons_kept x rest false hx h = h

  -- What holds of the elements kept holds of all that pass the test.
  pub All-keep : (xs : List A) → All P (keep p xs) → All (λ x. p x ≡ true → P x) xs
  All-keep [] h = tt
  All-keep (x ∷ xs) h = let both = kept_cons x (keep p xs) (p x) h in (both.0, All-keep xs both.1)

  pub keep-All : (xs : List A) → All (λ x. p x ≡ true → P x) xs → All P (keep p xs)
  keep-All [] h = tt
  keep-All (x ∷ xs) h = cons_kept x (keep p xs) (p x) h.0 (keep-All xs h.1)
