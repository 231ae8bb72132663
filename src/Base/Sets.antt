-- ===== src/Base/Sets.antt =====
-- Lists as sets: no member twice, and the one strictly sorted list of a set.
use kanpachi.Base.Tests.{Bool-cases}
use kanpachi.Base.Interfaces.{Eq, ◌==◌, eq_refl, Order, less_asymm}
use kanpachi.Base.Lists.{All, All_at, contains}
use kanpachi.Base.Sorting.{insert, sort, IsSorted, any-insert, any-sort, sort-IsSorted}
use mathlib.Core.Path.{◌≡◌, refl, sym, ◌∙◌, ap₂, subst}
use mathlib.Core.Logic.{inl, inr}
use mathlib.Core.Bool.{true, false}
use mathlib.Core.List.{List, [], ◌∷◌}
use native.Mathlib.Omega.{arith}

module _ {ℓ} {A : Type ℓ} ⦃e : Eq A⦄ where
  -- No member stands twice.
  abbrev pub Distinct : List A → Type 0
  Distinct [] = Unit
  Distinct (x ∷ xs) = (contains x xs ≡ false) × Distinct xs

module _ {ℓ} {A : Type ℓ} ⦃e : Eq A⦄ ⦃o : Order A⦄ where
  abbrev pub itself : A → A
  itself x = x

  -- Each member stands before a greater one.
  abbrev pub IsStrict : List A → Type ℓ
  IsStrict [] = Unit
  IsStrict (x ∷ xs) = All (λ y. o.less x y ≡ true) xs × IsStrict xs

  insert-Distinct :
      (x : A) (ys : List A) → contains x ys ≡ false → Distinct ys → Distinct (insert itself x ys)
  unfolding insert
  insert-Distinct x [] c d = (refl, tt)
  insert-Distinct x (y ∷ ys) c (dy, d) = elim (Bool-cases (o.less y x)) [
    | inl l ↦ rw l (
      ground (arith, any-insert itself (λ z. z == y) x ys, e.equal_iff x y, e.equal_iff y x),
      insert-Distinct x ys (ground arith) d,
    )
    | inr l ↦ rw l (c, (dy, d))
  ]

  -- Sorting a list without repetitions makes none.
  pub sort-Distinct : (xs : List A) → Distinct xs → Distinct (sort itself xs)
  unfolding sort
  sort-Distinct [] d = tt
  sort-Distinct (x ∷ xs) (c, d) =
      insert-Distinct x (sort itself xs) (any-sort itself (λ z. z == x) xs ∙ c) (sort-Distinct xs d)

  strict_step :
      (x : A) (xs : List A)
      → contains x xs ≡ false
      → All (λ y. o.less y x ≡ false) xs
      → All (λ y. o.less x y ≡ true) xs
  strict_step x [] c h = tt
  strict_step x (y ∷ ys) c (h, hs) = (
    elim (Bool-cases (o.less x y)) [
      | inl l ↦ l
      | inr l ↦ ground (arith, o.less_connected x y l h, e.equal_iff y x)
    ],
    strict_step x ys (ground arith) hs,
  )

  -- Sorted, with no member twice, is strictly sorted.
  pub IsSorted-IsStrict : (xs : List A) → IsSorted itself xs → Distinct xs → IsStrict xs
  IsSorted-IsStrict [] h d = tt
  IsSorted-IsStrict (x ∷ xs) (h, hs) (c, d) = (strict_step x xs c h, IsSorted-IsStrict xs hs d)

  pub sort-IsStrict : (xs : List A) → Distinct xs → IsStrict (sort itself xs)
  sort-IsStrict xs d =
      IsSorted-IsStrict (sort itself xs) (sort-IsSorted itself xs) (sort-Distinct xs d)

  less-contains :
      (a x : A) (xs : List A)
      → All (λ y. o.less x y ≡ true) xs
      → contains a xs ≡ true
      → o.less x a ≡ true
  less-contains a x xs h c = All_at (λ y. o.less x y ≡ true) a xs h c

  not-contains_self :
      (x : A) (xs : List A) → All (λ y. o.less x y ≡ true) xs → contains x xs ≡ false
  not-contains_self x xs h = elim (Bool-cases (contains x xs)) [
    | inl c ↦ ground (arith, less-contains x x xs h c, o.less_irrefl x)
    | inr c ↦ c
  ]

  head_not_less :
      (x y : A) (xs ys : List A)
      → All (λ z. o.less y z ≡ true) ys
      → contains x (x ∷ xs) ≡ contains x (y ∷ ys)
      → o.less x y ≡ false
  head_not_less x y xs ys q h = elim (Bool-cases (o.less x y)) [
    | inr l ↦ l
    | inl l ↦ elim (Bool-cases (contains x ys)) [
      | inl c ↦ ground (arith, less_asymm x y l, less-contains x y ys q c)
      | inr c ↦ ground (arith, eq_refl x, e.equal_iff y x, o.less_irrefl x, o.less_irrefl y)
    ]
  ]

  tail_contains :
      (x a : A) (xs ys : List A)
      → All (λ z. o.less x z ≡ true) xs
      → All (λ z. o.less x z ≡ true) ys
      → contains a (x ∷ xs) ≡ contains a (x ∷ ys)
      → contains a xs ≡ contains a ys
  tail_contains x a xs ys p q h = elim (Bool-cases (x == a)) [
    | inl k ↦
        let s = (e.equal_iff x a).0 k in
        rw (← s) (not-contains_self x xs p ∙ sym (not-contains_self x ys q))
    | inr k ↦ ground arith
  ]

  -- Two strictly sorted lists with the same members are equal.
  pub IsStrict-ext :
      (xs ys : List A)
      → IsStrict xs
      → IsStrict ys
      → ((a : A) → contains a xs ≡ contains a ys)
      → xs ≡ ys
  IsStrict-ext [] [] p q h = refl
  IsStrict-ext [] (y ∷ ys) p q h = ground (arith, h y, eq_refl y)
  IsStrict-ext (x ∷ xs) [] p q h = ground (arith, h x, eq_refl x)
  IsStrict-ext (x ∷ xs) (y ∷ ys) (p, ps) (q, qs) h =
      let s =
        o.less_connected x y (head_not_less x y xs ys q (h x))
          (head_not_less y x ys xs p (sym (h y))) in
      let p' = subst (λ w. All (λ z. o.less w z ≡ true) xs) s p in
      let h' : (a : A) → contains a (y ∷ xs) ≡ contains a (y ∷ ys) =
        λ a. subst (λ w. contains a (w ∷ xs) ≡ contains a (y ∷ ys)) s (h a) in
      ap₂ ◌∷◌ s (IsStrict-ext xs ys ps qs (λ a. tail_contains y a xs ys p' q (h' a)))

  -- What `sort` makes of two lists without repetitions that have the same members.
  pub sort-ext :
      (xs ys : List A)
      → Distinct xs
      → Distinct ys
      → ((a : A) → contains a xs ≡ contains a ys)
      → sort itself xs ≡ sort itself ys
  sort-ext xs ys d d' h =
      IsStrict-ext (sort itself xs) (sort itself ys) (sort-IsStrict xs d) (sort-IsStrict ys d')
        λ a. any-sort itself (λ z. z == a) xs ∙ h a ∙ sym (any-sort itself (λ z. z == a) ys)
