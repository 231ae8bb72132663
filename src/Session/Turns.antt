-- ===== src/Session/Turns.antt =====
-- What the loop of `tellStaleMembersLocked` of core/usecase/kickmember.go does to one member.
use kanpachi.Base.{
  ltb, ◌+◌, ◌≤◌, Bool, true, false, not, ◌&&◌, ◌≡◌, refl, List, [], ◌∷◌, Option, none, some, arith,
  ◌==◌, contains, any, lookup, store, lookup-store_same, lookup-store_other, Bool-cases,
  Option-cases, inl, inr, ◌∙◌, ap, subst, sym, ◌⊎◌,
}
use kanpachi.Net.{Time, is_zero, Addr, addr_eq, addr_beq_iff}
use kanpachi.Members.{Member, MemberTable, at, new_member}
use kanpachi.State.Types.{Peer}
use kanpachi.Session.Notices.{
  stale_notice_tries, tell_stale_members, needs_no_notice, after_notice, is_passed_over,
  clear_notices, tell_peer, tell_peers, stale_notice_retry,
}

abbrev pub or_new : Addr → Option Member → Member
or_new ip none = new_member ip
or_new ip (some m) = m

-- The entry of an address, or the one that `At` makes.
abbrev pub entry : Addr → MemberTable → Member
entry ip t = or_new ip (lookup ip t)

at-entry : (ip : Addr) (t : MemberTable) → (at ip t).0 ≡ entry ip t
unfolding at
at-entry ip t = elim (Option-cases (lookup ip t)) [
  | inl e ↦ rw (e, at) refl
  | inr (m, e) ↦ rw (e, at) refl
]

-- `At` changes no entry.
entry-at : (ip j : Addr) (t : MemberTable) → entry ip (at j t).1 ≡ entry ip t
unfolding at
entry-at ip j t = elim (Option-cases (lookup j t)) [
  | inr (m, e) ↦ rw (e, at) refl
  | inl e ↦
      rw (e, at)
        (elim (Bool-cases (j == ip)) [
          | inr d ↦ ap (or_new ip) (lookup-store_other j ip (new_member j) t d)
          | inl d ↦
              let q = (addr_beq_iff j ip).0 d in
              rw (← q)
                (ap (or_new j) (lookup-store_same j (new_member j) t) ∙ sym (ap (or_new j) e))
        ])
]

module _ (reaches : Addr → Bool) (now : Time) where
  -- What a turn does to the entry of an address: it is told, or stays as it was.
  Turn : Addr → Member → Member → Bool → Type 0
  Turn ip m m' told =
      ((told ≡ true) × (needs_no_notice now m ≡ false) × (m' ≡ after_notice now (reaches ip) m))
      ⊎ ((told ≡ false) × (m' ≡ m))

  tell_peer-Turn :
      (p : Peer) (t : MemberTable) (ip : Addr)
      → let (t', told) = tell_peer reaches now p t in
        ((p.virtual_ip == ip) ≡ true → Turn ip (entry ip t) (entry ip t') told)
        × ((p.virtual_ip == ip) ≡ false → entry ip t' ≡ entry ip t)
  unfolding tell_peer Turn
  tell_peer-Turn p t ip = elim (Bool-cases (is_passed_over p)) [
    | inl e ↦ rw e (λ q. inr (refl, refl), λ q. refl)
    | inr e ↦ rw e (
        rw (at-entry p.virtual_ip t)
          (elim (Bool-cases (needs_no_notice now (entry p.virtual_ip t))) [
            | inl f ↦
                rw f (λ q. inr (refl, entry-at ip p.virtual_ip t), λ q. entry-at ip p.virtual_ip t)
            | inr f ↦ rw f (
              λ q.
                  let z = (addr_beq_iff p.virtual_ip ip).0 q in
                  let new = after_notice now (reaches p.virtual_ip) (entry p.virtual_ip t) in
                  let t₁ = store p.virtual_ip new (at p.virtual_ip t).1 in
                  inl (
                    refl,
                    subst (λ x. needs_no_notice now (entry x t) ≡ false) z f,
                    subst (λ x. or_new x (lookup x t₁) ≡ after_notice now (reaches x) (entry x t)) z
                        (ap (or_new p.virtual_ip)
                          (lookup-store_same p.virtual_ip new (at p.virtual_ip t).1)),
                  ),
              λ q.
                  ap (or_new ip) (lookup-store_other p.virtual_ip ip _ (at p.virtual_ip t).1 q)
                  ∙ entry-at ip p.virtual_ip t,
            )
          ]))
  ]

  pub tell_peers-told :
      (ps : List Peer) (t : MemberTable) (ip : Addr)
      → contains ip (tell_peers reaches now ps t).1 ≡ true
      → needs_no_notice now (entry ip t) ≡ false
  unfolding tell_peers Turn
  tell_peers-told [] t ip h = cc
  tell_peers-told (p ∷ ps) t ip h =
      let t₁ = (tell_peer reaches now p t).0 in
      let told = (tell_peer reaches now p t).1 in
      let (same, other) = tell_peer-Turn p t ip in
      elim (Bool-cases (p.virtual_ip == ip)) [
        | inl q ↦ elim (same q) [
          | inl (a, b, c) ↦ b
          | inr (a, c) ↦
              subst (λ m. needs_no_notice now m ≡ false) c
                (tell_peers-told ps t₁ ip (ground (arith, a, h)))
        ]
        | inr q ↦
            subst (λ m. needs_no_notice now m ≡ false) (other q)
              (tell_peers-told ps t₁ ip (ground (arith, q, h)))
      ]

  -- An entry that needs no notice stays as it is.
  pub tell_peers-kept :
      (ps : List Peer) (t : MemberTable) (ip : Addr)
      → needs_no_notice now (entry ip t) ≡ true
      → entry ip (tell_peers reaches now ps t).0 ≡ entry ip t
  unfolding tell_peers Turn
  tell_peers-kept [] t ip h = refl
  tell_peers-kept (p ∷ ps) t ip h =
      let t₁ = (tell_peer reaches now p t).0 in
      let (same, other) = tell_peer-Turn p t ip in
      let e : entry ip t₁ ≡ entry ip t = elim (Bool-cases (p.virtual_ip == ip)) [
        | inl q ↦ elim (same q) [ inl (a, b, c) ↦ absurd (ground (arith, b, h)) | inr (a, c) ↦ c ]
        | inr q ↦ other q
      ] in
      tell_peers-kept ps t₁ ip (subst (λ m. needs_no_notice now m ≡ true) (sym e) h) ∙ e

  -- The next notice waits for two seconds at least.
  unfoldable pub Waits : Member → Type 0
  Waits m = now + stale_notice_retry ≤ m.stale_next

  after_notice-Waits : (arrived : Bool) (m : Member) → Waits (after_notice now arrived m)
  unfolding after_notice Waits
  after_notice-Waits arrived m = ground arith

  pub tell_peers-Waits :
      (ps : List Peer) (t : MemberTable) (ip : Addr)
      → contains ip (tell_peers reaches now ps t).1 ≡ true
      → Waits (entry ip (tell_peers reaches now ps t).0)
  unfolding tell_peers Turn Waits
  tell_peers-Waits [] t ip h = cc
  tell_peers-Waits (p ∷ ps) t ip h =
      let t₁ = (tell_peer reaches now p t).0 in
      let (same, other) = tell_peer-Turn p t ip in
      elim (Bool-cases (p.virtual_ip == ip)) [
        | inl q ↦ elim (same q) [
          | inl (a, b, c) ↦
              let w = subst Waits (sym c) (after_notice-Waits (reaches ip) (entry ip t)) in
              let k = tell_peers-kept ps t₁ ip (ground (arith, w)) in subst Waits (sym k) w
          | inr (a, c) ↦ tell_peers-Waits ps t₁ ip (ground (arith, a, h))
        ]
        | inr q ↦ tell_peers-Waits ps t₁ ip (ground (arith, q, h))
      ]

  pub entry-clear :
      (ip : Addr) (t : MemberTable)
      → now ≤ (entry ip t).stale_next
      → entry ip (clear_notices now t) ≡ entry ip t
  unfolding clear_notices lookup
  entry-clear ip [] w = refl
  entry-clear ip ((j, m) ∷ t) w = elim (Bool-cases (j == ip)) [
    | inl q ↦ rw q (ground (arith, rw q at w))
    | inr q ↦ rw q (entry-clear ip t (rw q at w))
  ]

  told-there :
      (p : Peer) (t : MemberTable)
      → is_passed_over p ≡ false
      → needs_no_notice now (entry p.virtual_ip t) ≡ false
      → (tell_peer reaches now p t).1 ≡ true
  unfolding tell_peer
  told-there p t o n = rw o (rw (at-entry p.virtual_ip t) (rw n refl))

  -- A member who is there, and is to be told, is told.
  pub tell_peers-tells :
      (ps : List Peer) (t : MemberTable) (ip : Addr)
      → any (λ p. p.virtual_ip == ip && not (is_passed_over p)) ps ≡ true
      → needs_no_notice now (entry ip t) ≡ false
      → contains ip (tell_peers reaches now ps t).1 ≡ true
  unfolding tell_peers tell_peer Turn
  tell_peers-tells [] t ip h n = cc
  tell_peers-tells (p ∷ ps) t ip h n =
      let t₁ = (tell_peer reaches now p t).0 in
      let (same, other) = tell_peer-Turn p t ip in
      elim (Bool-cases (p.virtual_ip == ip)) [
        | inr q ↦
            let later =
              tell_peers-tells ps t₁ ip (ground (arith, q, h))
                (subst (λ m. needs_no_notice now m ≡ false) (sym (other q)) n) in
            ground (arith, q, later)
        | inl q ↦ elim (same q) [
          | inl (a, b, c) ↦ rw a (ground (arith, q))
          | inr (a, c) ↦ elim (Bool-cases (is_passed_over p)) [
            | inl o ↦
                let later =
                  tell_peers-tells ps t₁ ip (ground (arith, o, h))
                    (subst (λ m. needs_no_notice now m ≡ false) (sym c) n) in
                rw a later
            | inr o ↦
                let z = (addr_beq_iff p.virtual_ip ip).0 q in
                let n' : needs_no_notice now (entry p.virtual_ip t) ≡ false =
                  subst (λ x. needs_no_notice now (entry x t) ≡ false) (sym z) n in
                absurd (ground (arith, told-there p t o n', a))
          ]
        ]
      ]

after_notice-cred :
    (now : Time) (arrived : Bool) (m : Member) → (after_notice now arrived m).cred ≡ m.cred
unfolding after_notice
after_notice-cred now true m = refl
after_notice-cred now false m = elim (Bool-cases (ltb (m.stale_tries + 1) stale_notice_tries)) [
  | inl e ↦ rw e refl
  | inr e ↦ rw e refl
]

tell_peers-cred :
    (reaches : Addr → Bool) (now : Time) (ps : List Peer) (t : MemberTable) (ip : Addr)
    → (entry ip (tell_peers reaches now ps t).0).cred ≡ (entry ip t).cred
unfolding tell_peers Turn
tell_peers-cred reaches now [] t ip = refl
tell_peers-cred reaches now (p ∷ ps) t ip =
    let t₁ = (tell_peer reaches now p t).0 in
    let (same, other) = tell_peer-Turn reaches now p t ip in
    let e : (entry ip t₁).cred ≡ (entry ip t).cred = elim (Bool-cases (p.virtual_ip == ip)) [
      | inl q ↦ elim (same q) [
        | inl (a, b, c) ↦
            ap (λ (m : Member). m.cred) c ∙ after_notice-cred now (reaches ip) (entry ip t)
        | inr (a, c) ↦ ap (λ (m : Member). m.cred) c
      ]
      | inr q ↦ ap (λ (m : Member). m.cred) (other q)
    ] in
    tell_peers-cred reaches now ps t₁ ip ∙ e

clear_notices-cred :
    (now : Time) (t : MemberTable) (ip : Addr)
    → (entry ip (clear_notices now t)).cred ≡ (entry ip t).cred
unfolding clear_notices lookup
clear_notices-cred now [] ip = refl
clear_notices-cred now ((j, m) ∷ t) ip = elim (Bool-cases (j == ip)) [
  | inr q ↦ rw q (clear_notices-cred now t ip)
  | inl q ↦ rw q (elim (Bool-cases (not (is_zero m.stale_next) && ltb m.stale_next now)) [
    | inl e ↦ rw e refl
    | inr e ↦ rw e refl
  ])
]

-- The notices change no credential.
pub tell_stale_members-cred :
    (reaches : Addr → Bool) (now : Time) (ps : List Peer) (t : MemberTable) (ip : Addr)
    → (entry ip (tell_stale_members reaches now ps t).0).cred ≡ (entry ip t).cred
unfolding tell_stale_members
tell_stale_members-cred reaches now ps t ip =
    clear_notices-cred now (tell_peers reaches now ps t).0 ip ∙ tell_peers-cred reaches now ps t ip
