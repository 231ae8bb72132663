-- ===== src/Catalog/Layers.antt =====
-- Which profile of an ID counts, and that none is lost (core/domain/catalog.go).
use kanpachi.Base.{
  ℕ, ◌+◌, Bool, ◌≡◌, ◌∙◌, refl, List, [], ◌∷◌, ◌++◌, Option, none, some, arith, ltb, if◌then◌else◌,
  ◌==◌, Text, text_eq, lookup, store, sort, insert, IsSorted, sort-IsSorted, Option-cases,
  Bool-cases, inl, inr, lookup-store,
}
use kanpachi.Profile.{GameProfile, precedence}
use kanpachi.Catalog.{key_order, Best, RejectedProfile, layer_loop, values, sort_key, build_catalog}

-- How many pass a test.
abbrev pub count : (GameProfile → Bool) → List GameProfile → ℕ
count q [] = 0
count q (p ∷ ps) = let rest = count q ps in if q p then 1 + rest else rest

abbrev one_if : Bool → ℕ
one_if b = if b then 1 else 0

module _ (q : GameProfile → Bool) where
  count-append : (xs ys : List GameProfile) → count q (xs ++ ys) ≡ count q xs + count q ys
  count-append [] ys = omega arith
  count-append (x ∷ xs) ys = ground (arith, count-append xs ys)

  module _ (lower : Text → Text) where
    count-insert :
        (p : GameProfile) (ps : List GameProfile)
        → count q (insert (sort_key lower) p ps) ≡ count q (p ∷ ps)
    unfolding insert
    count-insert p [] = refl
    count-insert p (r ∷ ps) =
        elim (Bool-cases (key_order.less (sort_key lower r) (sort_key lower p))) [
          | inl e ↦ ground (arith, e, count-insert p ps)
          | inr e ↦ ground (arith, e)
        ]

    count-sort : (ps : List GameProfile) → count q (sort (sort_key lower) ps) ≡ count q ps
    unfolding sort
    count-sort [] = refl
    count-sort (p ∷ ps) = count-insert p (sort (sort_key lower) ps) ∙ ground (arith, count-sort ps)

  count-store :
      (k : Text) (p : GameProfile) (m : Best)
      → (lookup k m ≡ none → count q (values (store k p m)) ≡ one_if (q p) + count q (values m))
        × ((r : GameProfile)
            → lookup k m ≡ some r
            → one_if (q r) + count q (values (store k p m)) ≡ one_if (q p) + count q (values m))
  unfolding lookup store
  count-store k p [] = (λ h. ground arith, λ r h. cc)
  count-store k p ((j, w) ∷ m) =
      let i = count-store k p m in
      elim (Bool-cases (j == k)) [
        | inl e ↦ (λ h. ground (arith, e, h), λ r h. ground (arith, e, h))
        | inr e ↦ (λ h. ground (arith, e, h, i.0), λ r h. ground (arith, e, h, i.1 r))
      ]

  loop-count :
      (ps : List GameProfile) (best : Best) (shadowed : List GameProfile)
      → let (b, s) = layer_loop ps best shadowed in
        count q (values b) + count q s ≡ count q (values best) + count q shadowed + count q ps
  unfolding layer_loop
  loop-count [] best shadowed = omega arith
  loop-count (p ∷ ps) best shadowed =
      let stored = count-store p.id p best in
      elim (Option-cases (lookup p.id best)) [
        | inl e ↦
            let n = loop-count ps (store p.id p best) shadowed in ground (arith, e, n, stored.0 e)
        | inr (r, e) ↦
            let n = loop-count ps (store p.id p best) (shadowed ++ r ∷ []) in
            let k = loop-count ps best (shadowed ++ p ∷ []) in
            ground (
              arith,
              e,
              n,
              k,
              stored.1 r e,
              count-append shadowed (r ∷ []),
              count-append shadowed (p ∷ []),
            )
      ]

-- Every profile that comes in stands in the catalog as often as it came, either effective or
-- shadowed, both lists in the order of names and IDs; the refused ones are passed on.
pub build_catalog_lem :
    (lower : Text → Text) (ps : List GameProfile) (rejected : List RejectedProfile)
    → let c = build_catalog lower ps rejected in
      ((q : GameProfile → Bool) → count q c.profiles + count q c.shadowed ≡ count q ps)
      × IsSorted (sort_key lower) c.profiles
      × IsSorted (sort_key lower) c.shadowed
      × (c.rejected ≡ rejected)
unfolding build_catalog
build_catalog_lem lower ps rejected =
    let (best, shadowed) = layer_loop ps [] [] in
    (
      λ q. omega (
        arith,
        loop-count q ps [] [],
        count-sort q lower (values best),
        count-sort q lower shadowed,
      ),
      sort-IsSorted (sort_key lower) (values best),
      sort-IsSorted (sort_key lower) shadowed,
      refl,
    )

-- The rank of what stands at an ID, and the highest rank that comes in for it; 0 is nothing.
abbrev pub rank_of : Option GameProfile → ℕ
rank_of none = 0
rank_of (some p) = 1 + precedence p.origin

abbrev pub higher : ℕ → ℕ → ℕ
higher m n = if ltb m n then n else m

abbrev pub top_rank : Text → List GameProfile → ℕ
top_rank id [] = 0
top_rank id (p ∷ ps) =
    let rest = top_rank id ps in if p.id == id then higher (1 + precedence p.origin) rest else rest

higher_zero : (n : ℕ) → higher 0 n ≡ n
higher_zero n = ground arith

loop-rank :
    (id : Text) (ps : List GameProfile) (best : Best) (shadowed : List GameProfile)
    → rank_of (lookup id (layer_loop ps best shadowed).0)
      ≡ higher (rank_of (lookup id best)) (top_rank id ps)
unfolding layer_loop
loop-rank id [] best shadowed = ground arith
loop-rank id (p ∷ ps) best shadowed = elim (Option-cases (lookup p.id best)) [
  | inl e ↦ ground (
    arith,
    e,
    loop-rank id ps (store p.id p best) shadowed,
    lookup-store p.id id p best,
    text_eq.equal_iff p.id id,
  )
  | inr (r, e) ↦ ground (
    arith,
    e,
    loop-rank id ps (store p.id p best) (shadowed ++ r ∷ []),
    loop-rank id ps best (shadowed ++ p ∷ []),
    lookup-store p.id id p best,
    text_eq.equal_iff p.id id,
  )
]

-- For each ID the effective profile has the highest rank of those that come in for it, and there is
-- one exactly if some come in.
pub layer_loop_lem :
    (id : Text) (ps : List GameProfile)
    → rank_of (lookup id (layer_loop ps [] []).0) ≡ top_rank id ps
unfolding lookup
layer_loop_lem id ps = loop-rank id ps [] [] ∙ higher_zero (top_rank id ps)
