-- ===== src/Policy/Members.antt =====
-- The member list of a rule: `normalizeMembers` of core/domain/policy.go.
use kanpachi.Base.{
  ◌&&◌, ◌||◌, not, ◌≡◌, List, [], ◌∷◌, arith, ◌==◌, eq_refl, contains, Distinct, IsStrict, itself,
  any-sort, sort-ext, sort-IsStrict, Bool-cases, inl, inr,
}
use kanpachi.Net.{Addr, is_valid, addr_eq, addr_order, addr_beq_iff}
use kanpachi.Policy.{collect_members, normalize_members}

-- What the loop keeps: valid, not this machine, not seen before.
contains-collect_members :
    (local a : Addr) (ms seen : List Addr)
    → contains a (collect_members local ms seen)
      ≡ (is_valid a && not (a == local) && not (contains a seen) && contains a ms)
unfolding collect_members
contains-collect_members local a [] seen = ground arith
contains-collect_members local a (m ∷ ms) seen = elim (Bool-cases (m == a)) [
  | inl k ↦ rw (← (addr_beq_iff m a).0 k) (
      ground (
        arith,
        contains-collect_members local m ms seen,
        contains-collect_members local m ms (m ∷ seen),
        eq_refl m,
      ))
  | inr k ↦ ground (
    arith,
    contains-collect_members local a ms seen,
    contains-collect_members local a ms (m ∷ seen),
  )
]

collect_members-Distinct :
    (local : Addr) (ms seen : List Addr) → Distinct (collect_members local ms seen)
unfolding collect_members
collect_members-Distinct local [] seen = tt
collect_members-Distinct local (m ∷ ms) seen =
    elim (Bool-cases (not (is_valid m) || m == local || contains m seen)) [
      | inl k ↦ rw k (collect_members-Distinct local ms seen)
      | inr k ↦ rw k (
        ground (arith, contains-collect_members local m ms (m ∷ seen), eq_refl m),
        collect_members-Distinct local ms (m ∷ seen),
      )
    ]

-- The addresses that a rule names are the members that have a valid address and are not this
-- machine's own.
pub contains-normalize_members :
    (local a : Addr) (ms : List Addr)
    → contains a (normalize_members local ms) ≡ (is_valid a && not (a == local) && contains a ms)
unfolding normalize_members
contains-normalize_members local a ms = ground (
  arith,
  any-sort itself (λ x. x == a) (collect_members local ms []),
  contains-collect_members local a ms [],
)

pub normalize_members-IsStrict :
    (local : Addr) (ms : List Addr) → IsStrict (normalize_members local ms)
unfolding normalize_members
normalize_members-IsStrict local ms =
    sort-IsStrict (collect_members local ms []) (collect_members-Distinct local ms [])

-- The list depends on the set of members alone: neither the order in which the engine reports them
-- nor a repetition changes it.
pub normalize_members-ext :
    (local : Addr) (ms ns : List Addr)
    → ((a : Addr) → contains a ms ≡ contains a ns)
    → normalize_members local ms ≡ normalize_members local ns
unfolding normalize_members
normalize_members-ext local ms ns h =
    sort-ext (collect_members local ms []) (collect_members local ns [])
      (collect_members-Distinct local ms []) (collect_members-Distinct local ns [])
      λ a.
        ground (
          arith,
          contains-collect_members local a ms [],
          contains-collect_members local a ns [],
          h a,
        )
