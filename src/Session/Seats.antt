-- ===== src/Session/Seats.antt =====
-- What a request for a credential leaves alone (core/usecase/issuecredential.go).
use kanpachi.Base.{
  ℕ, true, false, ◌≡◌, refl, List, [], ◌∷◌, Option, none, some, arith, ok, ◌==◌, text_eq, contains,
  is_empty, lookup, lookup-store_other, IsMap, keys, Bool-cases, Option-cases, Result-cases, inl,
  inr, sym, subst, ◌∙◌,
}
use kanpachi.Net.{Time, Addr, v4, addr_eq, addr_beq_iff, no_prefix, prefix, v6, no_addr}
use kanpachi.Members.{Nickname, Credential, Member, MemberTable, at, new_member}
use kanpachi.Session.{
  Session, Call, require_host, taken_addresses, held_addresses, holds_address, next_free_address,
  credential_by_member, is_cred_of,
}
use kanpachi.Session.Issuing.{
  IssueRun, give, let_go, issue_engine, issue_at, issue_new, give_back, issue_found, issue_checked,
  issue_credential_for,
}
use kanpachi.Session.Addresses.{next_free_address_lem}

found-keys :
    (now : Time) (key : List ℕ) (t : MemberTable) (at : Addr) (c : Credential)
    → credential_by_member now key t ≡ some (at, c)
    → contains at (keys t) ≡ true
unfolding credential_by_member
found-keys now key [] at c h = cc
found-keys now key ((j, n) ∷ t) at c h = elim (Option-cases n.cred) [
  | inl e ↦ ground (arith, found-keys now key t at c (ground (arith, e, h)))
  | inr (d, e) ↦ elim (Bool-cases (is_cred_of now key (some d))) [
    | inl q ↦ let r : j ≡ at = ground (arith, e, q, h) in ground (arith, (addr_beq_iff j at).1 r)
    | inr q ↦ ground (arith, found-keys now key t at c (ground (arith, e, q, h)))
  ]
]

search_rest :
    (now : Time) (key : List ℕ) (j : Addr) (n : Member) (t : MemberTable)
    → is_cred_of now key n.cred ≡ false
    → credential_by_member now key ((j, n) ∷ t) ≡ credential_by_member now key t
unfolding credential_by_member
search_rest now key j n t q = elim (Option-cases n.cred) [
  | inl e ↦ ground (arith, e)
  | inr (d, e) ↦ ground (arith, e, q)
]

-- An entry that does not answer to a key is not where the credential of the key is found.
found_other :
    (now : Time) (key : List ℕ) (t : MemberTable) (ip at : Addr) (m : Member) (c : Credential)
    → IsMap t
    → lookup ip t ≡ some m
    → is_cred_of now key m.cred ≡ false
    → credential_by_member now key t ≡ some (at, c)
    → (at == ip) ≡ false
unfolding credential_by_member lookup
found_other now key [] ip at m c i l f h = cc
found_other now key ((j, n) ∷ t) ip at m c (a, i) l f h =
    elim (Bool-cases (is_cred_of now key n.cred)) [
      | inl q ↦ elim (Option-cases n.cred) [
        | inl e ↦ absurd (ground (arith, e, q))
        | inr (d, e) ↦
            let r : j ≡ at = ground (arith, e, q, h) in
            subst (λ x. (x == ip) ≡ false) r
              (elim (Bool-cases (j == ip)) [
                | inr y ↦ y
                | inl y ↦ let z : n ≡ m = ground (arith, y, l) in absurd (ground (arith, q, f, z))
              ])
      ]
      | inr q ↦
          let g = sym (search_rest now key j n t q) ∙ h in
          elim (Bool-cases (j == ip)) [
            | inr y ↦ found_other now key t ip at m c i (ground (arith, y, l)) f g
            | inl y ↦
                let z = found-keys now key t at c g in
                elim (Bool-cases (at == ip)) [
                  | inr w ↦ w
                  | inl w ↦
                      let u = (addr_beq_iff at ip).0 w in
                      let v = (addr_beq_iff j ip).0 y in absurd (ground (arith, a, z, u, v))
                ]
          ]
    ]

held-lookup :
    (now : Time) (ip : Addr) (m : Member) (t : MemberTable)
    → lookup ip t ≡ some m
    → holds_address now ip m ≡ true
    → contains ip (held_addresses now t) ≡ true
unfolding held_addresses lookup
held-lookup now ip m [] h k = cc
held-lookup now ip m ((j, n) ∷ t) h k = elim (Bool-cases (j == ip)) [
  | inl q ↦
      let e = (addr_beq_iff j ip).0 q in
      let d : n ≡ m = ground (arith, q, h) in
      let l : holds_address now j n ≡ true = rw (e, d) k in rw l (ground (arith, q))
  | inr q ↦ ground (arith, held-lookup now ip m t (ground (arith, q, h)) k)
]

at_other : (ip j : Addr) (t : MemberTable) → (ip == j) ≡ false → lookup j (at ip t).1 ≡ lookup j t
unfolding at
at_other ip j t d = elim (Option-cases (lookup ip t)) [
  | inl e ↦ rw (e, at) (lookup-store_other ip j (new_member ip) t d)
  | inr (m, e) ↦ rw (e, at) refl
]

give_other :
    (ip j : Addr) (c : Credential) (s : Session)
    → (ip == j) ≡ false
    → lookup j (give ip c s).members ≡ lookup j s.members
give_other ip j c s d = lookup-store_other ip j _ (at ip s.members).1 d ∙ at_other ip j s.members d

let_go_other :
    (ip j : Addr) (s : Session)
    → (ip == j) ≡ false
    → lookup j (let_go ip s).members ≡ lookup j s.members
let_go_other ip j s d = lookup-store_other ip j _ (at ip s.members).1 d ∙ at_other ip j s.members d

free_not_taken :
    (p : kanpachi.Net.Prefix) (taken : List Addr) (x : Addr)
    → next_free_address p taken ≡ ok x
    → contains x taken ≡ false
unfolding next_free_address
free_not_taken no_prefix taken x h = cc
free_not_taken (prefix no_addr bits) taken x h = cc
free_not_taken (prefix (v6 b z) bits) taken x h = cc
free_not_taken (prefix (v4 b) bits) taken x h =
    let (n, e, l, q, f, g) = (next_free_address_lem b bits taken).0 x h in
    subst (λ y. contains y taken ≡ false) (sym e) f

module _ (k : IssueRun) (name : Nickname) (key : List ℕ) where
  engine_other :
      (ip j : Addr) (o : Option Credential) (calls : List Call) (s : Session)
      → (ip == j) ≡ false
      → lookup j (issue_engine k name key ip o calls s).0.members ≡ lookup j s.members
  unfolding issue_engine
  engine_other ip j none calls s d = refl
  engine_other ip j (some c) calls s d = elim (Bool-cases (is_empty c.token)) [
    | inl e ↦ rw e refl
    | inr e ↦ rw e (give_other ip j _ s d)
  ]

  new_other :
      (ip : Addr) (m : Member) (calls : List Call) (s : Session)
      → lookup ip s.members ≡ some m
      → holds_address k.taken_at ip m ≡ true
      → lookup ip (issue_new k name key calls s).0.members ≡ lookup ip s.members
  unfolding issue_new issue_at taken_addresses
  new_other ip m calls s l h =
      let taken = taken_addresses k.taken_at s in
      elim (Result-cases (next_free_address s.state.subnet taken)) [
        | inr (e, f) ↦ rw (f, issue_new) refl
        | inl (x, f) ↦
            let g = free_not_taken s.state.subnet taken x f in
            let w = held-lookup k.taken_at ip m s.members l h in
            rw (f, issue_new)
              (engine_other x ip k.issued _ s (elim (Bool-cases (x == ip)) [
                | inr q ↦ q
                | inl q ↦
                    let u = (addr_beq_iff x ip).0 q in
                    absurd (ground (arith, subst (λ y. contains y taken ≡ false) u g, w))
              ]))
      ]

  back_other :
      (at ip : Addr) (c : Credential) (o : Option Time) (m : Member) (s : Session)
      → (at == ip) ≡ false
      → lookup ip s.members ≡ some m
      → holds_address k.taken_at ip m ≡ true
      → lookup ip (give_back k name key at c o s).0.members ≡ some m
  unfolding give_back
  back_other at ip c (some until) m s d l h = give_other at ip _ s d ∙ l
  back_other at ip c none m s d l h =
      let l' = let_go_other at ip s d ∙ l in new_other ip m _ (let_go at s) l' h ∙ l'

  found_kept :
      (ip : Addr) (m : Member) (o : Option (Addr × Credential)) (s : Session)
      → ((at : Addr) (c : Credential) → o ≡ some (at, c) → (at == ip) ≡ false)
      → lookup ip s.members ≡ some m
      → holds_address k.taken_at ip m ≡ true
      → lookup ip (issue_found k name key o s).0.members ≡ some m
  unfolding issue_found
  found_kept ip m none s d l h = new_other ip m [] s l h ∙ l
  found_kept ip m (some (at, c)) s d l h = back_other at ip c k.renewed m s (d at c refl) l h

  -- An entry that holds its address and does not answer to the key of a request stays as it is,
  -- whatever becomes of the request: a credential that is revoked and still runs, or one of another
  -- key, or a machine that is in the mesh. No address stands twice in the table.
  pub issue_credential_for-kept :
      (ip : Addr) (m : Member) (s : Session)
      → IsMap s.members
      → lookup ip s.members ≡ some m
      → is_cred_of k.searched_at key m.cred ≡ false
      → holds_address k.taken_at ip m ≡ true
      → lookup ip (issue_credential_for k name key s).0.members ≡ some m
  unfolding issue_credential_for issue_checked
  issue_credential_for-kept ip m s i l f h = elim (Result-cases (require_host s)) [
    | inr (e, r) ↦ rw (r, issue_credential_for) l
    | inl (t, r) ↦
        rw (r, issue_credential_for)
          (elim (Bool-cases (is_empty name)) [
            | inl n ↦ rw n l
            | inr n ↦ rw n (elim (Bool-cases (is_empty key)) [
              | inl y ↦ rw y l
              | inr y ↦ rw y (
                  found_kept ip m (credential_by_member k.searched_at key s.members) s
                    (λ at c e. found_other k.searched_at key s.members ip at m c i l f e) l h)
            ])
          ])
  ]
