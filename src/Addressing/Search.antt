-- ===== src/Addressing/Search.antt =====
-- The search for a free /24 of a space (core/domain/addressing.go).
use kanpachi.Base.{
  ℕ, zero, suc, ◌+◌, ◌-◌, ◌%◌, ◌^◌, ◌≤◌, ◌<◌, Bool, true, false, ◌&&◌, ◌≡◌, ◌↔◌, inl, inr, refl,
  List, [], ◌∷◌, none, some, arith, ltb, leb, nat_beq, any, Result, ok, err, Bool-cases,
  Option-cases, ◌∙◌, ap, subst, sym,
}
use native.Mathlib.Nat.{mod-lt, mod-eq_of_lt, add-mod_right, pow-le-pow_right, one-le-pow}
use kanpachi.Net.{v4, Prefix, prefix}
use kanpachi.Addressing.{
  AddressError, no_subnet, is_v4_prefix, overlaps, first_overlap, random_index, random_tries,
  candidate, is_hit, pick_loop, pick_from, count_of, pick_subnet,
}

-- Some IPv4 prefix of the machine overlaps it.
abbrev pub clashes : List Prefix → Prefix → Bool
clashes local want = any (λ p. is_v4_prefix p && overlaps p want) local

pub hit-first_overlap :
    (local : List Prefix) (want : Prefix) → is_hit (first_overlap local want) ≡ clashes local want
unfolding first_overlap
hit-first_overlap [] want = refl
hit-first_overlap (p ∷ ps) want = elim (Bool-cases (is_v4_prefix p && overlaps p want)) [
  | inl e ↦ ground (arith, e)
  | inr e ↦ ground (arith, e, hit-first_overlap ps want)
]

module _ (base count start : ℕ) (local : List Prefix) where
  -- The /24 of the `i`-th turn.
  abbrev turn : ℕ → Prefix
  turn i = candidate base ((start + i) % 2 ^ 32 % count)

  loop-some :
      (left i : ℕ) (p : Prefix)
      → 0 < count
      → pick_loop base count start local left i ≡ some p
      → (idx : ℕ) × (idx < count) × (p ≡ candidate base idx) × (clashes local p ≡ false)
  unfolding pick_loop
  loop-some zero i p z h = cc
  loop-some (suc left) i p z h = elim (Bool-cases (is_hit (first_overlap local (turn i)))) [
    | inl e ↦ loop-some left (suc i) p z (ground (arith, h, e))
    | inr e ↦ (
      (start + i) % 2 ^ 32 % count,
      mod-lt ((start + i) % 2 ^ 32) z,
      ground (arith, h, e),
      subst (λ q. clashes local q ≡ false) (ground (arith, h, e))
          (sym (hit-first_overlap local (turn i)) ∙ e),
    )
  ]

  loop-none :
      (left i k : ℕ)
      → pick_loop base count start local left i ≡ none
      → k < left
      → clashes local (turn (i + k)) ≡ true
  unfolding pick_loop
  loop-none zero i k h b = absurd (omega (arith, b))
  loop-none (suc left) i zero h b =
      subst (λ j. clashes local (turn j) ≡ true) (omega arith)
        (sym (hit-first_overlap local (turn i)) ∙ ground (arith, h))
  loop-none (suc left) i (suc k) h b =
      subst (λ j. clashes local (turn j) ≡ true) (omega arith)
        (loop-none left (suc i) k (ground (arith, h)) (omega arith))

  loop-all :
      (left i : ℕ)
      → 0 < count
      → ((idx : ℕ) → idx < count → clashes local (candidate base idx) ≡ true)
      → pick_loop base count start local left i ≡ none
  unfolding pick_loop
  loop-all zero i z all = refl
  loop-all (suc left) i z all =
      let e = all ((start + i) % 2 ^ 32 % count) (mod-lt ((start + i) % 2 ^ 32) z) in
      let g = loop-all left (suc i) z all in ground (arith, hit-first_overlap local (turn i), e, g)

  -- The turns reach every index.
  turn-candidate :
      (idx : ℕ)
      → start < count
      → count ≤ 2 ^ 24
      → idx < count
      → (k : ℕ) × (k < count) × (turn (0 + k) ≡ candidate base idx)
  turn-candidate idx s c b = elim (Bool-cases (leb start idx)) [
    | inl e ↦
        let k = idx - start in
        let small : (start + (0 + k)) % 2 ^ 32 ≡ idx = ground (arith, e) in
        (k, ground arith, ap (candidate base) (ap (λ j. j % count) small ∙ mod-eq_of_lt b))
    | inr e ↦
        let k = idx + count - start in
        let far : (start + (0 + k)) % 2 ^ 32 ≡ idx + count = ground arith in
        (
          k,
          ground arith,
          ap (candidate base) (ap (λ j. j % count) far ∙ add-mod_right idx count ∙ mod-eq_of_lt b),
        )
  ]

pow_pos : (n : ℕ) → 0 < 2 ^ n
pow_pos n = one-le-pow n 2 (omega arith)

pow_le : (bits : ℕ) → count_of bits ≤ 2 ^ 24
pow_le bits = pow-le-pow_right (omega arith) {j = 24} (omega arith)

random_tries-lt :
    (left limit count : ℕ) (words : List ℕ) (start : ℕ)
    → 0 < count
    → (random_tries left limit count words).0 ≡ ok start
    → start < count
unfolding random_tries
random_tries-lt zero limit count words start z h = cc
random_tries-lt (suc left) limit count [] start z h = cc
random_tries-lt (suc left) limit count (w ∷ words) start z h = elim (Bool-cases (ltb w limit)) [
  | inl e ↦ subst (λ j. j < count) (ground (arith, e, h)) (mod-lt w z)
  | inr e ↦ random_tries-lt left limit count words start z (ground (arith, e, h))
]

pick_from-ok :
    (base count : ℕ) (local : List Prefix) (index : Result AddressError ℕ) (p : Prefix)
    → 0 < count
    → pick_from base count local index ≡ ok p
    → (idx : ℕ) × (idx < count) × (p ≡ candidate base idx) × (clashes local p ≡ false)
unfolding pick_from
pick_from-ok base count local (err e) p z h = cc
pick_from-ok base count local (ok start) p z h =
    elim (Option-cases (pick_loop base count start local count 0)) [
      | inl e ↦ absurd (ground (arith, e, h))
      | inr (q, e) ↦ loop-some base count start local count 0 p z (ground (arith, e, h))
    ]

-- What `pickSubnet` picks is one of the space's /24, and no IPv4 prefix of the machine overlaps it.
pub pick_subnet-ok :
    (base bits : ℕ) (local : List Prefix) (words : List ℕ) (p : Prefix)
    → (pick_subnet (prefix (v4 base) bits) local words).0 ≡ ok p
    → (idx : ℕ) × (idx < count_of bits) × (p ≡ candidate base idx) × (clashes local p ≡ false)
unfolding pick_subnet
pick_subnet-ok base bits local words p h = elim (Bool-cases (ltb 24 bits)) [
  | inl e ↦ absurd (ground (arith, e, h))
  | inr e ↦
      pick_from-ok base (count_of bits) local (random_index (count_of bits) words).0 p
        (pow_pos (24 - bits)) (ground (arith, e, h))
]

pick_from-none :
    (base count start : ℕ) (local : List Prefix)
    → (pick_from base count local (ok start) ≡ err no_subnet)
      ↔ (pick_loop base count start local count 0 ≡ none)
unfolding pick_from
pick_from-none base count start local =
    elim (Option-cases (pick_loop base count start local count 0)) [
      | inl e ↦ (λ h. e, λ h. rw (e, pick_from) refl)
      | inr (q, e) ↦ (λ h. absurd (ground (arith, e, h)), λ h. absurd (ground (arith, e, h)))
    ]

nonzero : {n : ℕ} → 0 < n → nat_beq n 0 ≡ false
nonzero h = ground arith

lt_ltb : {m n : ℕ} → m < n → ltb m n ≡ true
lt_ltb h = ground arith

index-usable :
    (count w : ℕ) (words : List ℕ)
    → 0 < count
    → w < 2 ^ 32 - 2 ^ 32 % count
    → (random_index count (w ∷ words)).0 ≡ ok (w % count)
unfolding random_index random_tries
index-usable count w words z h = rw (nonzero z) (rw (lt_ltb h) refl)

ltb_le : {m n : ℕ} → m ≤ n → ltb n m ≡ false
ltb_le h = ground arith

pick_subnet-index :
    (base bits w : ℕ) (local : List Prefix) (words : List ℕ)
    → bits ≤ 24
    → (pick_subnet (prefix (v4 base) bits) local words).0
      ≡ pick_from base (count_of bits) local (random_index (count_of bits) words).0
unfolding pick_subnet
pick_subnet-index base bits w local words le = rw (ltb_le le) refl

-- With a usable random word, no subnet is picked exactly if the machine overlaps every /24 of the
-- space: the search passes over none of them, wherever it starts.
pub pick_subnet_lem :
    (base bits w : ℕ) (local : List Prefix) (words : List ℕ)
    → bits ≤ 24
    → w < 2 ^ 32 - 2 ^ 32 % count_of bits
    → ((pick_subnet (prefix (v4 base) bits) local (w ∷ words)).0 ≡ err no_subnet)
      ↔ ((idx : ℕ) → idx < count_of bits → clashes local (candidate base idx) ≡ true)
pick_subnet_lem base bits w local words le usable =
    let n = count_of bits in
    let z = pow_pos (24 - bits) in
    let start = w % n in
    let same =
      pick_subnet-index base bits w local (w ∷ words) le
      ∙ ap (pick_from base n local) (index-usable n w words z usable) in
    let (to, from) = pick_from-none base n start local in
    (
      λ h idx b.
          let (k, small, at) = turn-candidate base n start local idx (mod-lt w z) (pow_le bits) b in
          subst (λ q. clashes local q ≡ true) at
            (loop-none base n start local n 0 k (to (sym same ∙ h)) small),
      λ all. same ∙ from (loop-all base n start local n 0 z all),
    )
