-- ===== src/Base/Sorting.antt =====
-- Python's `sorted` and SQL's `order by`, as an insertion sort by a test of order.
pub mod Laws
use Prim.Native.Nat.{compare as compare_ℕ}
use Prim.Native.String.{String}
use Prim.Native.Char.{Char, code}
use text.Mathlib.TextEquality.{codes_equal}
use text.Mathlib.TextPositions.{compare_self}
use native.Mathlib.Omega.{arith}
use mathlib.Core.Path.{◌≡◌, refl, ap, ◌∙◌}
use mathlib.Core.Bool.{Bool, true, false}
use mathlib.Core.List.{List, [], ◌∷◌}
use mathlib.Core.Logic.{inl, inr}
use revenue_sentinel.Base.Tests.{if◌then◌else◌, Bool-cases, ltb}
use revenue_sentinel.Base.Lists.{All}

module _ {ℓ} {A : Type ℓ} (precedes : A → A → Bool) where
  -- Ahead of the elements that it may precede: a stable sort inserts from the right.
  pub insert : A → List A → List A
  insert x [] = x ∷ []
  insert x (y ∷ ys) = let rest = insert x ys in if precedes x y then x ∷ y ∷ ys else y ∷ rest

  unfoldable pub sort_by : List A → List A
  unfolding insert
  sort_by [] = []
  sort_by (x ∷ xs) = insert x (sort_by xs)

-- The order of texts by their code points.
unfoldable pub text_leb : String → String → Bool
text_leb String.[] t = true
text_leb (String.◌∷◌ c s) String.[] = false
text_leb (String.◌∷◌ c s) (String.◌∷◌ d t) =
    let rest = text_leb s t in
    if ltb (code c) (code d) then true else if ltb (code d) (code c) then false else rest

pub text_leb_total : (s t : String) → text_leb s t ≡ false → text_leb t s ≡ true
unfolding text_leb
text_leb_total String.[] t h = cc
text_leb_total (String.◌∷◌ c s) String.[] h = refl
text_leb_total (String.◌∷◌ c s) (String.◌∷◌ d t) h = ground (arith, text_leb_total s t)

same_char : (c d : Char) → code c ≡ code d → c ≡ d
same_char c d h = codes_equal c d (ap (λ n. compare_ℕ n (code d)) h ∙ compare_self (code d))

pub text_leb_antisym : (s t : String) → text_leb s t ≡ true → text_leb t s ≡ true → s ≡ t
unfolding text_leb
text_leb_antisym String.[] String.[] h k = refl
text_leb_antisym String.[] (String.◌∷◌ d t) h k = cc
text_leb_antisym (String.◌∷◌ c s) String.[] h k = cc
text_leb_antisym (String.◌∷◌ c s) (String.◌∷◌ d t) h k =
    let same : code c ≡ code d = ground arith in
    let rest : (text_leb s t ≡ true) × (text_leb t s ≡ true) = (ground arith, ground arith) in
    cc (same_char c d same, text_leb_antisym s t rest.0 rest.1)

pub text_leb_trans :
    (s t u : String) → text_leb s t ≡ true → text_leb t u ≡ true → text_leb s u ≡ true
unfolding text_leb
text_leb_trans String.[] t u h k = refl
text_leb_trans (String.◌∷◌ c s) String.[] u h k = cc
text_leb_trans (String.◌∷◌ c s) (String.◌∷◌ d t) String.[] h k = cc
text_leb_trans (String.◌∷◌ c s) (String.◌∷◌ d t) (String.◌∷◌ e u) h k =
    ground (arith, text_leb_trans s t u)

module _ {ℓ κ} {A : Type ℓ} (precedes : A → A → Bool) (P : A → Type κ) where
  All-insert : (x : A) (xs : List A) → P x → All P xs → All P (insert precedes x xs)
  unfolding insert
  All-insert x [] hx h = (hx, h)
  All-insert x (y ∷ ys) hx h = elim (Bool-cases (precedes x y)) [
    | inl e ↦ rw e (hx, (h.0, h.1))
    | inr e ↦ rw e (h.0, All-insert x ys hx h.1)
  ]

  insert-All : (x : A) (xs : List A) → All P (insert precedes x xs) → P x × All P xs
  unfolding insert
  insert-All x [] h = (h.0, h.1)
  insert-All x (y ∷ ys) h = elim (Bool-cases (precedes x y)) [
    | inl e ↦ rw e at h
    | inr e ↦
        let (hy, rest) = rw e at h in let both = insert-All x ys rest in (both.0, (hy, both.1))
  ]

  -- A sort keeps the elements.
  pub All-sort_by : (xs : List A) → All P xs → All P (sort_by precedes xs)
  unfolding sort_by
  All-sort_by [] h = tt
  All-sort_by (x ∷ xs) h = All-insert x (sort_by precedes xs) h.0 (All-sort_by xs h.1)

  pub sort_by-All : (xs : List A) → All P (sort_by precedes xs) → All P xs
  unfolding sort_by
  sort_by-All [] h = tt
  sort_by-All (x ∷ xs) h =
      let both = insert-All x (sort_by precedes xs) h in (both.0, sort_by-All xs both.1)
