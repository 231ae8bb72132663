-- ===== src/Addressing/Plan.antt =====
-- The plan of a room's addresses (core/domain/addressing.go).
use kanpachi.Base.{
  ℕ, ◌+◌, ◌-◌, ◌*◌, ◌%◌, ◌^◌, ◌≤◌, ◌<◌, false, ◌≡◌, ◌⊎◌, inl, inr, refl, List, none, some, arith,
  ok, err, Option-cases, Result-cases, ◌∙◌, ap, subst, sym,
}
use kanpachi.Net.{v4, Prefix, prefix}
use kanpachi.Addressing.{
  AddressError, shared_space, fallback_space, first_overlap, candidate, is_hit, pick_subnet,
  AddressPlan, plan_addresses, planned, PlanReason, shared_in_use, shared_full, no_conflict,
}
use kanpachi.Addressing.Search.{clashes, hit-first_overlap, pick_subnet-ok}

-- The /24 of a space, by their first address.
abbrev pub IsRoomOf : Prefix → Prefix → Type 0
IsRoomOf (prefix (v4 base) bits) p =
    (a : ℕ) × (p ≡ prefix (v4 a) 24)
    × (a % 256 ≡ 0)
    × (base ≤ a)
    × (a + 256 ≤ base + 2 ^ (32 - bits))
IsRoomOf _ p = ⊥

shared_room :
    (idx : ℕ) (p : Prefix)
    → idx < 16384
    → p ≡ candidate (100 * 16777216 + 64 * 65536) idx
    → IsRoomOf shared_space p
shared_room idx p b e = (
  100 * 16777216 + 64 * 65536 + idx * 256,
  ground (arith, e),
  omega arith,
  omega arith,
  omega arith,
)

fallback_room :
    (idx : ℕ) (p : Prefix)
    → idx < 256
    → p ≡ candidate (10 * 16777216 + 99 * 65536) idx
    → IsRoomOf fallback_space p
fallback_room idx p b e = (
  10 * 16777216 + 99 * 65536 + idx * 256,
  ground (arith, e),
  omega arith,
  omega arith,
  omega arith,
)

module _ (local : List Prefix) (plan : AddressPlan) where
  fallback-plan :
      (why : PlanReason) (words : List ℕ)
      → planned why (pick_subnet fallback_space local words).0 ≡ ok plan
      → (clashes local plan.subnet ≡ false) × IsRoomOf fallback_space plan.subnet
  fallback-plan why words h = elim (Result-cases (pick_subnet fallback_space local words).0) [
    | inl (p, f) ↦
        let (idx, b, e, c) = pick_subnet-ok (10 * 16777216 + 99 * 65536) 16 local words p f in
        let same : p ≡ plan.subnet = ground (arith, f, h) in
        (
          subst (λ q. clashes local q ≡ false) same c,
          subst (IsRoomOf fallback_space) same (fallback_room idx p b e),
        )
    | inr (x, f) ↦ absurd (ground (arith, f, h))
  ]

  shared-plan :
      (words : List ℕ) (p : Prefix)
      → (pick_subnet shared_space local words).0 ≡ ok p
      → p ≡ plan.subnet
      → (clashes local plan.subnet ≡ false) × IsRoomOf shared_space plan.subnet
  shared-plan words p f same =
      let (idx, b, e, c) = pick_subnet-ok (100 * 16777216 + 64 * 65536) 10 local words p f in
      (
        subst (λ q. clashes local q ≡ false) same c,
        subst (IsRoomOf shared_space) same (shared_room idx p b e),
      )

plan-taken :
    (local : List Prefix) (words : List ℕ) (q : Prefix)
    → first_overlap local shared_space ≡ some q
    → plan_addresses local words
      ≡ planned (shared_in_use q) (pick_subnet fallback_space local words).0
unfolding plan_addresses
plan-taken local words q e = rw (e, plan_addresses) refl

plan-shared :
    (local : List Prefix) (words : List ℕ) (p : Prefix)
    → first_overlap local shared_space ≡ none
    → (pick_subnet shared_space local words).0 ≡ ok p
    → plan_addresses local words ≡ ok (record { subnet = p; reason = no_conflict })
unfolding plan_addresses
plan-shared local words p e f = rw (e, plan_addresses) (rw f refl)

plan-full :
    (local : List Prefix) (words : List ℕ) (x : AddressError)
    → first_overlap local shared_space ≡ none
    → (pick_subnet shared_space local words).0 ≡ err x
    → plan_addresses local words
      ≡ planned shared_full
          (pick_subnet fallback_space local (pick_subnet shared_space local words).1).0
unfolding plan_addresses
plan-full local words x e f = rw (e, plan_addresses) (rw f refl)

-- A plan is a whole /24 that no IPv4 prefix of the machine overlaps. It lies in the fallback space,
-- or in the shared space, and then no IPv4 prefix of the machine overlaps that space at all.
pub plan_addresses_lem :
    (local : List Prefix) (words : List ℕ) (plan : AddressPlan)
    → plan_addresses local words ≡ ok plan
    → (clashes local plan.subnet ≡ false)
      × (IsRoomOf fallback_space plan.subnet
          ⊎ (IsRoomOf shared_space plan.subnet × (clashes local shared_space ≡ false)))
plan_addresses_lem local words plan h = elim (Option-cases (first_overlap local shared_space)) [
  | inr (q, e) ↦
      let (c, i) =
        fallback-plan local plan (shared_in_use q) words (sym (plan-taken local words q e) ∙ h) in
      (c, inl i)
  | inl e ↦ elim (Result-cases (pick_subnet shared_space local words).0) [
    | inl (p, f) ↦
        let same : p ≡ plan.subnet = ground (arith, plan-shared local words p e f, h) in
        let (c, i) = shared-plan local plan words p f same in
        (c, inr (i, sym (hit-first_overlap local shared_space) ∙ ap is_hit e))
    | inr (x, f) ↦
        let (c, i) =
          fallback-plan local plan shared_full (pick_subnet shared_space local words).1
            (sym (plan-full local words x e f) ∙ h) in
        (c, inl i)
  ]
]
