-- ===== src/Book/Loading.antt =====
-- The book of a room that is opened again (`loadMembersLocked` of core/usecase/persist.go): what the
-- host knows after it. The saved room is its subnet, its code and the generation of its book.
use kanpachi.Base.{
  ℕ, true, false, ◌≡◌, refl, List, [], ◌∷◌, Option, none, some, arith, ◌==◌, Result, ok, err, Text,
  contains, filter, map, lookup, store, lookup-store_other, lookup-store_same, IsMap, keys,
  store-IsMap, Bool-cases, inl, inr, ◌∙◌, Option-cases, ap, subst, ◌⊎◌,
}
use kanpachi.Net.{Time, Addr, addr_eq, addr_beq_iff, Prefix}
use kanpachi.State.Types.{Room}
use kanpachi.Members.{Credential, Member, MemberTable, at, new_member}
use kanpachi.Session.{BookEntry, entry_of, entries}
use kanpachi.Book.{CredentialBook, BookError, Library, decode_book}
use kanpachi.Book.Filter.{is_live, written}

-- What `loadMembersLocked` reads of the saved room.
pub record SavedRoom : Type 0 where
  pub room : Room
  pub subnet : Prefix
  pub members_gen : ℕ

-- The credential that is made of an entry: without the token, and without the network's name.
abbrev pub cred_of_book : Prefix → BookEntry → Credential
cred_of_book subnet e = record {
  id = e.id;
  token = [];
  network_name = [];
  name = e.name;
  virtual_ip = e.virtual_ip;
  subnet = subnet;
  issued_at = e.issued_at;
  expires_at = e.expires_at;
  member_key = e.member_key;
  revoked = e.revoked;
}

abbrev pub seated : Prefix → BookEntry → Member → Member
seated subnet e m = record m { cred = some (cred_of_book subnet e); name = e.name }

-- `m := s.members.At(e.VirtualIP)`, then `m.Cred` and `m.Name`.
abbrev pub put_entry : Prefix → BookEntry → MemberTable → MemberTable
put_entry subnet e t = let (m, t') = at e.virtual_ip t in store e.virtual_ip (seated subnet e m) t'

-- The loop of `loadMembersLocked`.
unfoldable pub put_entries : Prefix → List BookEntry → MemberTable → MemberTable
put_entries subnet [] t = t
put_entries subnet (e ∷ es) t = put_entries subnet es (put_entry subnet e t)

unfoldable pub load_book :
    SavedRoom → MemberTable → Result BookError CredentialBook → MemberTable × ℕ
load_book saved t (err e) = (t, saved.members_gen)
load_book saved t (ok b) = (put_entries saved.subnet b.entries t, b.gen)

-- `loadMembersLocked`: the table and the generation after it; `raw` is `none` where the disk has no
-- book to read.
unfoldable pub load_members :
    Library → Option Text → SavedRoom → Time → MemberTable → MemberTable × ℕ
load_members l none saved now t = (t, saved.members_gen)
load_members l (some raw) saved now t =
    load_book saved t (decode_book l raw saved.members_gen saved.room now)

-- Each entry of a table stands at its address.
abbrev pub IsKeyed : MemberTable → Type 0
IsKeyed [] = Unit
IsKeyed ((ip, m) ∷ t) = (m.ip ≡ ip) × IsKeyed t

pub store-IsKeyed :
    (ip : Addr) (m : Member) (t : MemberTable) → m.ip ≡ ip → IsKeyed t → IsKeyed (store ip m t)
unfolding store
store-IsKeyed ip m [] e h = (e, tt)
store-IsKeyed ip m ((j, n) ∷ t) e (h, hs) = elim (Bool-cases (j == ip)) [
  | inl q ↦ rw q (e, hs)
  | inr q ↦ rw q (h, store-IsKeyed ip m t e hs)
]

abbrev pub ips_of : List BookEntry → List Addr
ips_of es = map (λ (e : BookEntry). e.virtual_ip) es

at_other : (ip j : Addr) (t : MemberTable) → (ip == j) ≡ false → lookup j (at ip t).1 ≡ lookup j t
unfolding at
at_other ip j t d = elim (Option-cases (lookup ip t)) [
  | inl e ↦ rw (e, at) (lookup-store_other ip j (new_member ip) t d)
  | inr (m, e) ↦ rw (e, at) refl
]

at-IsMap : (ip : Addr) (t : MemberTable) → IsMap t → IsMap (at ip t).1
unfolding at
at-IsMap ip t i = elim (Option-cases (lookup ip t)) [
  | inl e ↦ rw (e, at) (store-IsMap ip (new_member ip) t i)
  | inr (m, e) ↦ rw (e, at) i
]

module _ (subnet : Prefix) where
  put_entry_other :
      (e : BookEntry) (ip : Addr) (t : MemberTable)
      → (e.virtual_ip == ip) ≡ false
      → lookup ip (put_entry subnet e t) ≡ lookup ip t
  put_entry_other e ip t d =
      lookup-store_other e.virtual_ip ip _ (at e.virtual_ip t).1 d ∙ at_other e.virtual_ip ip t d

  put_entries_other :
      (es : List BookEntry) (ip : Addr) (t : MemberTable)
      → contains ip (ips_of es) ≡ false
      → lookup ip (put_entries subnet es t) ≡ lookup ip t
  unfolding put_entries
  put_entries_other [] ip t h = refl
  put_entries_other (e ∷ es) ip t h =
      put_entries_other es ip (put_entry subnet e t) (ground (arith, h))
      ∙ put_entry_other e ip t (ground (arith, h))

module _ (subnet : Prefix) where
  put_entry_new :
      (e : BookEntry) (base : MemberTable)
      → lookup e.virtual_ip base ≡ none
      → lookup e.virtual_ip (put_entry subnet e base)
        ≡ some (seated subnet e (new_member e.virtual_ip))
  unfolding at
  put_entry_new e base b = rw (b, at) (lookup-store_same e.virtual_ip _ _)

-- What a book gives back of a table.
abbrev pub restored : Room → Time → MemberTable → List BookEntry
restored room now t = map written (filter (is_live room now) (entries t))

module _ (subnet : Prefix) (room : Room) (now : Time) where
  restored_live :
      (j : Addr) (n : Member) (c : Credential) (t : MemberTable)
      → n.ip ≡ j
      → n.cred ≡ some c
      → is_live room now (entry_of j c) ≡ true
      → restored room now ((j, n) ∷ t) ≡ written (entry_of j c) ∷ restored room now t
  unfolding entries
  restored_live j n c t k e v = rw k (rw e (rw v refl))

  -- An entry of the table gives one of its address to what comes back, or none.
  restored_step :
      (j : Addr) (n : Member) (t : MemberTable)
      → n.ip ≡ j
      → (restored room now ((j, n) ∷ t) ≡ restored room now t)
        ⊎ ((c : Credential) × (restored room now ((j, n) ∷ t)
              ≡ written (entry_of j c) ∷ restored room now t))
  unfolding entries
  restored_step j n t k = elim (Option-cases n.cred) [
    | inl e ↦ inl (rw k (rw e refl))
    | inr (c, e) ↦ elim (Bool-cases (is_live room now (entry_of j c))) [
      | inl v ↦ inr (c, restored_live j n c t k e v)
      | inr v ↦ inl (rw k (rw e (rw v refl)))
    ]
  ]

  restored_absent :
      (ip : Addr) (t : MemberTable)
      → IsKeyed t
      → contains ip (keys t) ≡ false
      → contains ip (ips_of (restored room now t)) ≡ false
  unfolding entries
  restored_absent ip [] k h = refl
  restored_absent ip ((j, m) ∷ t) (k, ks) h =
      let rest = restored_absent ip t ks (ground (arith, h)) in
      elim (restored_step j m t k) [
        | inl e ↦ rw (ap (λ es. contains ip (ips_of es)) e) rest
        | inr (c, e) ↦ rw (ap (λ es. contains ip (ips_of es)) e) (ground (arith, h, rest))
      ]

  -- A live entry of the table comes back at its address.
  pub put_entries-restored :
      (ip : Addr) (m : Member) (c : Credential) (t base : MemberTable)
      → IsMap t
      → IsKeyed t
      → lookup ip t ≡ some m
      → m.cred ≡ some c
      → is_live room now (entry_of ip c) ≡ true
      → lookup ip base ≡ none
      → lookup ip (put_entries subnet (restored room now t) base)
        ≡ some (seated subnet (written (entry_of ip c)) (new_member ip))
  unfolding entries put_entries lookup
  put_entries-restored ip m c [] base i k l e v b = cc
  put_entries-restored ip m c ((j, n) ∷ t) base (a, i) (k, ks) l e v b =
      elim (Bool-cases (j == ip)) [
        | inl q ↦
            let z = (addr_beq_iff j ip).0 q in
            let same : n ≡ m = ground (arith, q, l) in
            let d = restored_live j n c t k (rw same e) (rw z v) in
            let absent = restored_absent ip t ks (subst (λ x. contains x (keys t) ≡ false) z a) in
            let first = written (entry_of ip c) in
            let d' =
              subst
                (λ x. restored room now ((j, n) ∷ t) ≡ written (entry_of x c) ∷ restored room now t)
                z d in
            ap (λ es. lookup ip (put_entries subnet es base)) d'
            ∙ put_entries_other subnet (restored room now t) ip (put_entry subnet first base) absent
            ∙ put_entry_new subnet first base b
        | inr q ↦ elim (restored_step j n t k) [
          | inl d ↦
              ap (λ es. lookup ip (put_entries subnet es base)) d
              ∙ put_entries-restored ip m c t base i ks (ground (arith, q, l)) e v b
          | inr (c', d) ↦
              let first = written (entry_of j c') in
              ap (λ es. lookup ip (put_entries subnet es base)) d
              ∙ put_entries-restored ip m c t (put_entry subnet first base) i ks
                  (ground (arith, q, l)) e v (put_entry_other subnet first ip base q ∙ b)
        ]
      ]

  -- No address stands twice in a table that was loaded.
  pub put_entries-IsMap :
      (es : List BookEntry) (t : MemberTable) → IsMap t → IsMap (put_entries subnet es t)
  unfolding put_entries
  put_entries-IsMap [] t i = i
  put_entries-IsMap (e ∷ es) t i =
      put_entries-IsMap es (put_entry subnet e t)
        (store-IsMap e.virtual_ip _ (at e.virtual_ip t).1 (at-IsMap e.virtual_ip t i))
