-- ===== src/Base/Sorting/Laws.antt =====
-- What a sort does to a list: the same elements, in order, and one result for all reorderings.
use mathlib.Core.Path.{◌≡◌, refl, sym, ap, ◌∙◌}
use mathlib.Core.Logic.{inl, inr}
use mathlib.Core.Bool.{Bool, true, false}
use mathlib.Core.List.{List, [], ◌∷◌, map}
use revenue_sentinel.Base.Tests.{Bool-cases}
use revenue_sentinel.Base.Sorting.{insert, sort_by}

-- The same elements in another order.
pub data Reordered {ℓ} {A : Type ℓ} : List A → List A → Type ℓ where
  nothing : Reordered [] []
  behind : (x : A) (xs ys : List A) → Reordered xs ys → Reordered (x ∷ xs) (x ∷ ys)
  swapped : (x y : A) (xs : List A) → Reordered (x ∷ y ∷ xs) (y ∷ x ∷ xs)
  also : (xs ys zs : List A) → Reordered xs ys → Reordered ys zs → Reordered xs zs

pub Reordered-refl {ℓ} : {A : Type ℓ} (xs : List A) → Reordered xs xs
Reordered-refl [] = nothing
Reordered-refl (x ∷ xs) = behind x xs xs (Reordered-refl xs)

pub map-Reordered {ℓ κ} :
    {A : Type ℓ} {B : Type κ} (f : A → B) {xs ys : List A}
    → Reordered xs ys
    → Reordered (map f xs) (map f ys)
map-Reordered f nothing = nothing
map-Reordered f (behind x xs ys r) = behind (f x) (map f xs) (map f ys) (map-Reordered f r)
map-Reordered f (swapped x y xs) = swapped (f x) (f y) (map f xs)
map-Reordered f (also xs ys zs r s) =
    also (map f xs) (map f ys) (map f zs) (map-Reordered f r) (map-Reordered f s)

-- Each element may precede the next.
abbrev pub IsOrdered {ℓ} : {A : Type ℓ} → (A → A → Bool) → List A → Type 0
IsOrdered leb [] = Unit
IsOrdered leb (x ∷ []) = Unit
IsOrdered leb (x ∷ y ∷ xs) = (leb x y ≡ true) × IsOrdered leb (y ∷ xs)

module _ {ℓ} {A : Type ℓ} (leb : A → A → Bool) where
  -- An order that another implies.
  pub weaker-IsOrdered :
      (other : A → A → Bool)
      → ((x y : A) → leb x y ≡ true → other x y ≡ true)
      → (xs : List A) → IsOrdered leb xs
      → IsOrdered other xs
  weaker-IsOrdered other implies [] o = tt
  weaker-IsOrdered other implies (x ∷ []) o = tt
  weaker-IsOrdered other implies (x ∷ y ∷ xs) o =
      (implies x y o.0, weaker-IsOrdered other implies (y ∷ xs) o.1)

  insert-here : (x y : A) (ys : List A) → leb x y ≡ true → insert leb x (y ∷ ys) ≡ x ∷ y ∷ ys
  unfolding insert
  insert-here x y ys h = rw h refl

  insert-later :
      (x y : A) (ys : List A) → leb x y ≡ false → insert leb x (y ∷ ys) ≡ y ∷ insert leb x ys
  unfolding insert
  insert-later x y ys h = rw h refl

  insert-Reordered : (x : A) (xs : List A) → Reordered (insert leb x xs) (x ∷ xs)
  unfolding insert
  insert-Reordered x [] = Reordered-refl (x ∷ [])
  insert-Reordered x (y ∷ ys) = elim (Bool-cases (leb x y)) [
    | inl e ↦ rw e (Reordered-refl (x ∷ y ∷ ys))
    | inr e ↦ rw e (
        also (y ∷ insert leb x ys) (y ∷ x ∷ ys) (x ∷ y ∷ ys)
          (behind y (insert leb x ys) (x ∷ ys) (insert-Reordered x ys)) (swapped y x ys))
  ]

  -- A sort keeps the elements.
  pub sort_by-Reordered : (xs : List A) → Reordered (sort_by leb xs) xs
  unfolding sort_by
  sort_by-Reordered [] = nothing
  sort_by-Reordered (x ∷ xs) =
      also (insert leb x (sort_by leb xs)) (x ∷ sort_by leb xs) (x ∷ xs)
        (insert-Reordered x (sort_by leb xs)) (behind x (sort_by leb xs) xs (sort_by-Reordered xs))

  insert_before : (x : A) (xs : List A) → IsOrdered leb (x ∷ xs) → insert leb x xs ≡ x ∷ xs
  unfolding insert
  insert_before x [] o = refl
  insert_before x (y ∷ ys) o = insert-here x y ys o.0

  rest-IsOrdered : (x : A) (xs : List A) → IsOrdered leb (x ∷ xs) → IsOrdered leb xs
  rest-IsOrdered x [] o = tt
  rest-IsOrdered x (y ∷ ys) o = o.1

  -- A list in order is sorted already.
  pub sort_by-of_IsOrdered : (xs : List A) → IsOrdered leb xs → sort_by leb xs ≡ xs
  unfolding sort_by
  sort_by-of_IsOrdered [] o = refl
  sort_by-of_IsOrdered (x ∷ xs) o =
      ap (insert leb x) (sort_by-of_IsOrdered xs (rest-IsOrdered x xs o)) ∙ insert_before x xs o

  module _ (total : (x y : A) → leb x y ≡ false → leb y x ≡ true) where
    behind-IsOrdered :
        (y x : A) (ys : List A)
        → leb y x ≡ true
        → IsOrdered leb (y ∷ ys)
        → IsOrdered leb (insert leb x ys)
        → IsOrdered leb (y ∷ insert leb x ys)
    unfolding insert
    behind-IsOrdered y x [] h o i = (h, tt)
    behind-IsOrdered y x (z ∷ zs) h o i = elim (Bool-cases (leb x z)) [
      | inl e ↦ rw e (h, (e, o.1))
      | inr e ↦ rw e (o.0, rw e at i)
    ]

    insert-IsOrdered : (x : A) (xs : List A) → IsOrdered leb xs → IsOrdered leb (insert leb x xs)
    unfolding insert
    insert-IsOrdered x [] o = tt
    insert-IsOrdered x (y ∷ ys) o = elim (Bool-cases (leb x y)) [
      | inl e ↦ rw e (e, o)
      | inr e ↦
          rw e (
            behind-IsOrdered y x ys (total x y e) o (insert-IsOrdered x ys (rest-IsOrdered y ys o)))
    ]

    -- A sort puts them in order.
    pub sort_by-IsOrdered : (xs : List A) → IsOrdered leb (sort_by leb xs)
    unfolding sort_by
    sort_by-IsOrdered [] = tt
    sort_by-IsOrdered (x ∷ xs) = insert-IsOrdered x (sort_by leb xs) (sort_by-IsOrdered xs)

    module _ (trans : (x y z : A) → leb x y ≡ true → leb y z ≡ true → leb x z ≡ true)
        (antisym : (x y : A) → leb x y ≡ true → leb y x ≡ true → x ≡ y) where
      -- `x` may precede `z` and `y` may not, so that `x` precedes `y` alone.
      not_before : (x y z : A) → leb x z ≡ true → leb y z ≡ false → leb y x ≡ false
      not_before x y z h k = elim (Bool-cases (leb y x)) [
        | inl e ↦ absurd (cc (trans y x z e h, k))
        | inr e ↦ e
      ]

      one_first : (x y : A) (zs : List A) → leb y x ≡ false → insert leb x (y ∷ zs) ≡ x ∷ y ∷ zs
      one_first x y zs e = insert-here x y zs (total y x e)

      -- Two elements that are inserted before all the others.
      both_first :
          (x y : A) (zs : List A)
          → insert leb x zs ≡ x ∷ zs
          → insert leb y zs ≡ y ∷ zs
          → insert leb x (insert leb y zs) ≡ insert leb y (insert leb x zs)
      both_first x y zs at_x at_y =
          rw (at_x, at_y)
            (elim (Bool-cases (leb x y)) [
              | inl e ↦ elim (Bool-cases (leb y x)) [
                | inl f ↦ insert-here x y zs e ∙ (cc (antisym x y e f)) ∙ sym (insert-here y x zs f)
                | inr f ↦ insert-here x y zs e ∙ sym (insert-later y x zs f ∙ ap (◌∷◌ x) at_y)
              ]
              | inr e ↦
                  insert-later x y zs e ∙ ap (◌∷◌ y) at_x ∙ sym (insert-here y x zs (total x y e))
            ])

      insert_comm :
          (x y : A) (zs : List A) → insert leb x (insert leb y zs) ≡ insert leb y (insert leb x zs)
      unfolding insert
      insert_comm x y [] = both_first x y [] refl refl
      insert_comm x y (z ∷ zs) = elim (Bool-cases (leb x z)) [
        | inl e ↦ elim (Bool-cases (leb y z)) [
          | inl f ↦ both_first x y (z ∷ zs) (insert-here x z zs e) (insert-here y z zs f)
          | inr f ↦
              ap (insert leb x) (insert-later y z zs f)
              ∙ insert-here x z (insert leb y zs) e
              ∙ sym (
                  ap (insert leb y) (insert-here x z zs e)
                  ∙ insert-later y x (z ∷ zs) (not_before x y z e f)
                  ∙ ap (◌∷◌ x) (insert-later y z zs f))
        ]
        | inr e ↦ elim (Bool-cases (leb y z)) [
          | inl f ↦
              ap (insert leb x) (insert-here y z zs f)
              ∙ insert-later x y (z ∷ zs) (not_before y x z f e)
              ∙ ap (◌∷◌ y) (insert-later x z zs e)
              ∙ sym
                  (ap (insert leb y) (insert-later x z zs e) ∙ insert-here y z (insert leb x zs) f)
          | inr f ↦
              ap (insert leb x) (insert-later y z zs f)
              ∙ insert-later x z (insert leb y zs) e
              ∙ ap (◌∷◌ z) (insert_comm x y zs)
              ∙ sym
                  (ap (insert leb y) (insert-later x z zs e) ∙ insert-later y z (insert leb x zs) f)
        ]
      ]

      -- All reorderings of a list sort to one list.
      pub sort_by-Reordered_eq :
          (xs ys : List A) → Reordered xs ys → sort_by leb xs ≡ sort_by leb ys
      unfolding sort_by
      sort_by-Reordered_eq _ _ nothing = refl
      sort_by-Reordered_eq _ _ (behind x xs ys r) = ap (insert leb x) (sort_by-Reordered_eq xs ys r)
      sort_by-Reordered_eq _ _ (swapped x y xs) = insert_comm x y (sort_by leb xs)
      sort_by-Reordered_eq _ _ (also xs ys zs r s) =
          sort_by-Reordered_eq xs ys r ∙ sort_by-Reordered_eq ys zs s

-- To sort by a key is to sort the keys.
module _ {ℓ κ} {A : Type ℓ} {B : Type κ} (key : A → B) (leb : B → B → Bool) where
  map-insert :
      (x : A) (xs : List A)
      → map key (insert (λ a b. leb (key a) (key b)) x xs) ≡ insert leb (key x) (map key xs)
  unfolding insert
  map-insert x [] = refl
  map-insert x (y ∷ ys) = elim (Bool-cases (leb (key x) (key y))) [
    | inl e ↦ rw e refl
    | inr e ↦ rw e (ap (◌∷◌ (key y)) (map-insert x ys))
  ]

  pub map-sort_by :
      (xs : List A) → map key (sort_by (λ a b. leb (key a) (key b)) xs) ≡ sort_by leb (map key xs)
  unfolding sort_by
  map-sort_by [] = refl
  map-sort_by (x ∷ xs) =
      map-insert x (sort_by (λ a b. leb (key a) (key b)) xs)
      ∙ ap (insert leb (key x)) (map-sort_by xs)
