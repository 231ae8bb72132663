-- ===== src/Base/Sorting.antt =====
-- `sort.Slice` by a key, as a stable insertion sort, and what is said of its result.
use Prim.Native.Nat.{suc}
use mathlib.Core.Path.{◌≡◌, refl}
use mathlib.Core.Logic.{inl, inr}
use mathlib.Core.Bool.{Bool, false, ◌||◌}
use mathlib.Core.List.{List, [], ◌∷◌}
use native.Mathlib.Omega.{arith}
use kanpachi.Base.Tests.{if◌then◌else◌, Bool-cases}
use kanpachi.Base.Interfaces.{Order, less_asymm, not_less_trans}
use kanpachi.Base.Lists.{length, any, All}

module _ {ℓ κ} {A : Type ℓ} {K : Type κ} ⦃o : Order K⦄ (key : A → K) where
  unfoldable pub insert : A → List A → List A
  insert x [] = x ∷ []
  insert x (y ∷ ys) =
      let rest = insert x ys in if o.less (key y) (key x) then y ∷ rest else x ∷ y ∷ ys

  unfoldable pub sort : List A → List A
  unfolding insert
  sort [] = []
  sort (x ∷ xs) = insert x (sort xs)

  -- No member stands before one with a smaller key.
  abbrev pub IsSorted : List A → Type ℓ
  IsSorted [] = Unit
  IsSorted (x ∷ xs) = All (λ y. o.less (key y) (key x) ≡ false) xs × IsSorted xs

  length-insert : (x : A) (ys : List A) → length (insert x ys) ≡ suc (length ys)
  unfolding insert
  length-insert x [] = refl
  length-insert x (y ∷ ys) = ground (arith, length-insert x ys)

  pub length-sort : (xs : List A) → length (sort xs) ≡ length xs
  unfolding sort
  length-sort [] = refl
  length-sort (x ∷ xs) = omega (arith, length-insert x (sort xs), length-sort xs)

  pub any-insert : (p : A → Bool) (x : A) (ys : List A) → any p (insert x ys) ≡ (p x || any p ys)
  unfolding insert
  any-insert p x [] = refl
  any-insert p x (y ∷ ys) = ground (arith, any-insert p x ys)

  -- Sorting finds and loses nothing.
  pub any-sort : (p : A → Bool) (xs : List A) → any p (sort xs) ≡ any p xs
  unfolding sort
  any-sort p [] = refl
  any-sort p (x ∷ xs) = ground (arith, any-insert p x (sort xs), any-sort p xs)

  pub All-insert {μ} : (P : A → Type μ) (x : A) (ys : List A) → P x → All P ys → All P (insert x ys)
  unfolding insert
  All-insert P x [] h hs = (h, tt)
  All-insert P x (y ∷ ys) h (k, ks) = elim (Bool-cases (o.less (key y) (key x))) [
    | inl e ↦ rw e (k, All-insert P x ys h ks)
    | inr e ↦ rw e (h, (k, ks))
  ]

  pub All-sort {μ} : (P : A → Type μ) (xs : List A) → All P xs → All P (sort xs)
  unfolding sort
  All-sort P [] h = tt
  All-sort P (x ∷ xs) (h, hs) = All-insert P x (sort xs) h (All-sort P xs hs)

  not_less_tail :
      (x y : A) (ys : List A)
      → o.less (key y) (key x) ≡ false
      → All (λ z. o.less (key z) (key y) ≡ false) ys
      → All (λ z. o.less (key z) (key x) ≡ false) ys
  not_less_tail x y [] h hs = tt
  not_less_tail x y (z ∷ ys) h (k, hs) =
      (not_less_trans (key x) (key y) (key z) h k, not_less_tail x y ys h hs)

  insert-IsSorted : (x : A) (ys : List A) → IsSorted ys → IsSorted (insert x ys)
  unfolding insert
  insert-IsSorted x [] h = (tt, tt)
  insert-IsSorted x (y ∷ ys) (h, hs) = elim (Bool-cases (o.less (key y) (key x))) [
    | inl e ↦ rw e (
      All-insert (λ z. o.less (key z) (key y) ≡ false) x ys (less_asymm (key y) (key x) e) h,
      insert-IsSorted x ys hs,
    )
    | inr e ↦ rw e ((e, not_less_tail x y ys e h), (h, hs))
  ]

  pub sort-IsSorted : (xs : List A) → IsSorted (sort xs)
  unfolding sort
  sort-IsSorted [] = tt
  sort-IsSorted (x ∷ xs) = insert-IsSorted x (sort xs) (sort-IsSorted xs)
