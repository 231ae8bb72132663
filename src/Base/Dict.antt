-- ===== src/Base/Dict.antt =====
-- A Go map as an association list, and the laws of its operations in the form of tests on keys.
use Prim.Native.Nat.{◌≤◌}
use mathlib.Core.Path.{◌≡◌, refl, subst}
use mathlib.Core.Logic.{inl, inr}
use mathlib.Core.Bool.{Bool, false, ◌||◌}
use mathlib.Core.Option.{Option, none, some}
use mathlib.Core.List.{List, [], ◌∷◌}
use native.Mathlib.Omega.{arith}
use kanpachi.Base.Tests.{if◌then◌else◌, Bool-cases}
use kanpachi.Base.Interfaces.{Eq, ◌==◌, eq_refl}
use kanpachi.Base.Lists.{length, contains}
use kanpachi.Base.Sets.{Distinct}

-- What a purge leaves at a key.
abbrev pub unless {κ} : {V : Type κ} → (V → Bool) → Option V → Option V
unless p none = none
unless p (some v) = if p v then none else some v

module _ {ℓ κ} {K : Type ℓ} {V : Type κ} ⦃e : Eq K⦄ where
  -- `v, ok := m[k]`
  unfoldable pub lookup : K → List (K × V) → Option V
  lookup k [] = none
  lookup k ((j, v) ∷ m) = if j == k then some v else lookup k m

  -- `m[k] = v`
  unfoldable pub store : K → V → List (K × V) → List (K × V)
  store k v [] = (k, v) ∷ []
  store k v ((j, w) ∷ m) = if j == k then (k, v) ∷ m else (j, w) ∷ store k v m

  -- `for k, v := range m { if test(v) { delete(m, k) } }`
  unfoldable pub purge : (V → Bool) → List (K × V) → List (K × V)
  purge p [] = []
  purge p ((j, w) ∷ m) = let rest = purge p m in if p w then rest else (j, w) ∷ rest

  abbrev pub keys : List (K × V) → List K
  keys [] = []
  keys ((j, w) ∷ m) = j ∷ keys m

  -- No key stands twice.
  abbrev pub IsMap : List (K × V) → Type 0
  IsMap m = Distinct (keys m)

  pub lookup-store :
      (k j : K) (v : V) (m : List (K × V))
      → lookup j (store k v m) ≡ (if k == j then some v else lookup j m)
  unfolding lookup store
  lookup-store k j v [] = refl
  lookup-store k j v ((i, w) ∷ m) =
      ground (arith, lookup-store k j v m, e.equal_iff k j, e.equal_iff i k, e.equal_iff i j)

  pub lookup-store_same : (k : K) (v : V) (m : List (K × V)) → lookup k (store k v m) ≡ some v
  lookup-store_same k v m = ground (arith, lookup-store k k v m, eq_refl k)

  pub lookup-store_other :
      (k j : K) (v : V) (m : List (K × V)) → (k == j) ≡ false → lookup j (store k v m) ≡ lookup j m
  lookup-store_other k j v m d = ground (arith, lookup-store k j v m, d)

  pub contains-keys-store :
      (k j : K) (v : V) (m : List (K × V))
      → contains j (keys (store k v m)) ≡ (k == j || contains j (keys m))
  unfolding store
  contains-keys-store k j v [] = refl
  contains-keys-store k j v ((i, w) ∷ m) =
      ground (arith, contains-keys-store k j v m, e.equal_iff i k, e.equal_iff i j, e.equal_iff k j)

  pub store-IsMap : (k : K) (v : V) (m : List (K × V)) → IsMap m → IsMap (store k v m)
  unfolding store
  store-IsMap k v [] h = (refl, tt)
  store-IsMap k v ((i, w) ∷ m) (h, hs) = elim (Bool-cases (i == k)) [
    | inl q ↦ rw q (rw ((e.equal_iff i k).0 q) at h, hs)
    | inr q ↦ rw q (
      ground (arith, contains-keys-store k i v m, e.equal_iff i k, e.equal_iff k i),
      store-IsMap k v m hs,
    )
  ]

  pub lookup-absent : (k : K) (m : List (K × V)) → contains k (keys m) ≡ false → lookup k m ≡ none
  unfolding lookup
  lookup-absent k [] h = refl
  lookup-absent k ((j, w) ∷ m) h = ground (arith, lookup-absent k m)

  contains-keys-purge :
      (p : V → Bool) (k : K) (m : List (K × V))
      → contains k (keys m) ≡ false
      → contains k (keys (purge p m)) ≡ false
  unfolding purge
  contains-keys-purge p k [] h = refl
  contains-keys-purge p k ((j, w) ∷ m) h = ground (arith, contains-keys-purge p k m)

  pub purge-IsMap : (p : V → Bool) (m : List (K × V)) → IsMap m → IsMap (purge p m)
  unfolding purge
  purge-IsMap p [] h = tt
  purge-IsMap p ((j, w) ∷ m) (h, hs) = elim (Bool-cases (p w)) [
    | inl q ↦ rw q (purge-IsMap p m hs)
    | inr q ↦ rw q (contains-keys-purge p j m h, purge-IsMap p m hs)
  ]

  pub lookup-purge :
      (p : V → Bool) (k : K) (m : List (K × V))
      → IsMap m
      → lookup k (purge p m) ≡ unless p (lookup k m)
  unfolding lookup purge
  lookup-purge p k [] h = refl
  lookup-purge p k ((j, w) ∷ m) (h, hs) = elim (Bool-cases (j == k)) [
    | inl q ↦
        let g = subst (λ x. contains x (keys m) ≡ false) ((e.equal_iff j k).0 q) h in
        ground (arith, q, lookup-absent k (purge p m) (contains-keys-purge p k m g))
    | inr q ↦ ground (arith, q, lookup-purge p k m hs)
  ]

  pub length-purge : (p : V → Bool) (m : List (K × V)) → length (purge p m) ≤ length m
  unfolding purge
  length-purge p [] = omega arith
  length-purge p ((j, w) ∷ m) = ground (arith, length-purge p m)

-- Every value of a map satisfies `P`.
module _ {ℓ κ μ} {K : Type ℓ} {V : Type κ} ⦃e : Eq K⦄ (P : V → Type μ) where
  abbrev pub AllValues : List (K × V) → Type μ
  AllValues [] = Unit
  AllValues ((j, w) ∷ m) = P w × AllValues m

  pub AllValues-store :
      (k : K) (v : V) (m : List (K × V)) → P v → AllValues m → AllValues (store k v m)
  unfolding store
  AllValues-store k v [] h hs = (h, tt)
  AllValues-store k v ((j, w) ∷ m) h (hw, hs) = elim (Bool-cases (j == k)) [
    | inl q ↦ rw q (h, hs)
    | inr q ↦ rw q (hw, AllValues-store k v m h hs)
  ]

  pub AllValues-purge : (p : V → Bool) (m : List (K × V)) → AllValues m → AllValues (purge p m)
  unfolding purge
  AllValues-purge p [] hs = tt
  AllValues-purge p ((j, w) ∷ m) (hw, hs) = elim (Bool-cases (p w)) [
    | inl q ↦ rw q (AllValues-purge p m hs)
    | inr q ↦ rw q (hw, AllValues-purge p m hs)
  ]

  pub AllValues-lookup :
      (k : K) (v : V) (m : List (K × V)) → AllValues m → lookup k m ≡ some v → P v
  unfolding lookup
  AllValues-lookup k v [] hs h = cc
  AllValues-lookup k v ((j, w) ∷ m) (hw, hs) h = elim (Bool-cases (j == k)) [
    | inl q ↦ let s : w ≡ v = ground (arith, q, h) in subst P s hw
    | inr q ↦ AllValues-lookup k v m hs (ground (arith, q, h))
  ]
