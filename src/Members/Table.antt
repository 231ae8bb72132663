-- ===== src/Members/Table.antt =====
-- The table of members: the addresses that count, and what `Forget` keeps (core/domain/member.go).
use kanpachi.Base.{
  ℕ, Bool, true, false, not, ◌&&◌, ◌||◌, ◌≡◌, ◌∙◌, refl, [], ◌∷◌, Option, none, some, arith,
  if◌then◌else◌, ◌==◌, lookup, itself, IsMap, keys, contains, Distinct, IsStrict, sort-IsStrict,
  any-sort, Bool-cases, inl, inr, subst, lookup-absent,
}
use kanpachi.Net.{Time, Addr, is_valid, addr_eq, addr_order, addr_beq_iff}
use kanpachi.Members.{
  Member, MemberTable, is_member, member_loop, member_ips_of, forget, lift_kick, is_alive,
}

-- Whether what stands at an address of the table counts as a member.
abbrev pub counts : Time → Option Member → Bool
counts now none = false
counts now (some m) = is_member m now

module _ (now : Time) (self : Addr) where
  contains-member_loop :
      (a : Addr) (t : MemberTable)
      → IsMap t
      → contains a (member_loop now self t)
        ≡ (not (a == self) && is_valid a && counts now (lookup a t))
  unfolding member_loop lookup
  contains-member_loop a [] d = ground arith
  contains-member_loop a ((ip, m) ∷ t) (d, ds) = elim (Bool-cases (ip == a)) [
    | inl q ↦
        let s = (addr_beq_iff ip a).0 q in
        let g = lookup-absent a t (subst (λ x. contains x (keys t) ≡ false) s d) in
        rw s (ground (arith, addr_beq_iff a a, contains-member_loop a t ds, g))
    | inr q ↦ ground (arith, contains-member_loop a t ds, q)
  ]

  member_loop-absent :
      (a : Addr) (t : MemberTable)
      → contains a (keys t) ≡ false
      → contains a (member_loop now self t) ≡ false
  unfolding member_loop
  member_loop-absent a [] d = refl
  member_loop-absent a ((ip, m) ∷ t) d = ground (arith, member_loop-absent a t)

  member_loop-Distinct : (t : MemberTable) → IsMap t → Distinct (member_loop now self t)
  unfolding member_loop
  member_loop-Distinct [] d = tt
  member_loop-Distinct ((ip, m) ∷ t) (d, ds) =
      elim (Bool-cases (ip == self || not (is_valid ip) || not (is_member m now))) [
        | inl q ↦ rw q (member_loop-Distinct t ds)
        | inr q ↦ rw q (member_loop-absent ip t d, member_loop-Distinct t ds)
      ]

  -- The addresses that the rules name are those of the table that are valid, are not this machine's
  -- own and count as members, each once, in strictly rising order.
  pub member_ips_of_lem :
      (t : MemberTable)
      → IsMap t
      → IsStrict (member_ips_of now self t)
        × ((a : Addr)
            → contains a (member_ips_of now self t)
              ≡ (not (a == self) && is_valid a && counts now (lookup a t)))
  unfolding member_ips_of
  member_ips_of_lem t d = (
    sort-IsStrict (member_loop now self t) (member_loop-Distinct t d),
    λ a. any-sort itself (λ x. x == a) (member_loop now self t) ∙ contains-member_loop a t d,
  )

module _ (now : Time) (grace : ℕ) where
  -- What `Forget` leaves of an entry.
  abbrev pub survivor : Option Member → Option Member
  survivor none = none
  survivor (some m) = let m' = lift_kick now grace m in if is_alive m' now then some m' else none

  keys-forget :
      (a : Addr) (t : MemberTable)
      → contains a (keys t) ≡ false
      → contains a (keys (forget now grace t)) ≡ false
  unfolding forget
  keys-forget a [] d = refl
  keys-forget a ((ip, m) ∷ t) d = ground (arith, keys-forget a t)

  forget-IsMap : (t : MemberTable) → IsMap t → IsMap (forget now grace t)
  unfolding forget
  forget-IsMap [] d = tt
  forget-IsMap ((ip, m) ∷ t) (d, ds) = elim (Bool-cases (is_alive (lift_kick now grace m) now)) [
    | inl q ↦ rw q (keys-forget ip t d, forget-IsMap t ds)
    | inr q ↦ rw q (forget-IsMap t ds)
  ]

  lookup-forget :
      (a : Addr) (t : MemberTable) → IsMap t → lookup a (forget now grace t) ≡ survivor (lookup a t)
  unfolding forget lookup
  lookup-forget a [] d = refl
  lookup-forget a ((ip, m) ∷ t) (d, ds) = elim (Bool-cases (ip == a)) [
    | inl q ↦
        let g = lookup-absent a (forget now grace t) (
          keys-forget a t (subst (λ x. contains x (keys t) ≡ false) ((addr_beq_iff ip a).0 q) d)) in
        elim (Bool-cases (is_alive (lift_kick now grace m) now)) [
          | inl v ↦ rw v (rw q (rw v refl))
          | inr v ↦ rw v (rw q (rw v g))
        ]
    | inr q ↦ elim (Bool-cases (is_alive (lift_kick now grace m) now)) [
      | inl v ↦ rw v (rw q (lookup-forget a t ds))
      | inr v ↦ rw v (rw q (lookup-forget a t ds))
    ]
  ]

  survivor_member : (o : Option Member) → counts now o ≡ true → survivor o ≡ o
  unfolding is_member
  survivor_member none h = refl
  survivor_member (some m) h = ground arith

  -- At each address `Forget` leaves what survives of its entry: the veto lifted once its grace has
  -- passed, and nothing if the entry is then not alive. The entry of a member stays as it is, and no
  -- address stands twice.
  pub forget_lem :
      (t : MemberTable)
      → IsMap t
      → IsMap (forget now grace t)
        × ((a : Addr) → lookup a (forget now grace t) ≡ survivor (lookup a t))
        × ((a : Addr) → counts now (lookup a t) ≡ true → lookup a (forget now grace t) ≡ lookup a t)
  forget_lem t d = (
    forget-IsMap t d,
    λ a. lookup-forget a t d,
    λ a c. lookup-forget a t d ∙ survivor_member (lookup a t) c,
  )
