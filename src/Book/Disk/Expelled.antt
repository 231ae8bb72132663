-- ===== src/Book/Disk/Expelled.antt =====
-- An expulsion and a restart of the host (core/usecase: kickmember.go, persist.go and
-- issuecredential.go): the book is saved, read again, and somebody knocks.
use kanpachi.Base.{
  ℕ, ◌+◌, ◌≤◌, ◌<◌, true, false, ◌≡◌, refl, List, [], ◌∷◌, some, arith, ok, lookup, IsMap, All,
  subst, sym, ◌∙◌, ap, ◌==◌, Bool-cases, inl, inr,
}
use kanpachi.Net.{Time, Addr, addr_eq, addr_beq_iff}
use kanpachi.State.Types.{Peer}
use kanpachi.Members.{Nickname, Credential, Member, MemberTable, new_member, is_expired}
use kanpachi.Session.{Session, entries, entry_of, require_host, arrival_grace}
use kanpachi.Session.Kicking.{KickRun, member_at, kicked_entry, kick_member, put_out}
use kanpachi.Session.Expulsion.{at-found, kick-members, put_out-lookup, put_out-IsMap}
use kanpachi.Session.Issuing.{IssueRun, issue_credential_for}
use kanpachi.Session.Seats.{issue_credential_for-kept}
use kanpachi.Book.{Library, on_disk, encode_book}
use kanpachi.Book.Filter.{Restores, IsWritable, is_live, written, whole, decode_book-encode_book}
use kanpachi.Book.Loading.{
  SavedRoom, load_members, load_book, IsKeyed, store-IsKeyed, seated, restored,
  put_entries-restored, put_entries-IsMap,
}
use kanpachi.Book.Disk.{book_of}

-- The book of the session that is saved, and the table of a host that starts with it.
module _ (l : Library) (r : Restores l) (gen : ℕ) (s : Session) (saved : SavedRoom) (now : Time)
    (w : All IsWritable (entries s.members))
    (u : l.unmarshal (encode_book l (book_of gen s)) ≡ some (on_disk l (book_of gen s)))
    (o : saved.room ≡ s.state.room) (g : saved.members_gen ≤ (book_of gen s).gen) where
  load-eq :
      (load_members l (some (encode_book l (book_of gen s))) saved now []).0
      ≡ (load_book saved []
          (ok (record (book_of gen s) { entries = restored s.state.room now s.members }))).0
  unfolding load_members
  load-eq = rw o (rw (decode_book-encode_book l (book_of gen s) saved.members_gen now r u w g) refl)

  -- A credential of the table that is revoked and still runs when the host starts again comes back,
  -- and its address, a valid one, is neither given away nor given back by a request, by whatever key,
  -- until the last whole second of the credential.
  pub issue-load_members :
      (ip : Addr) (m : Member) (c : Credential) (s' : Session) (q : IssueRun) (name : Nickname)
      (key : List ℕ)
      → IsMap s.members
      → IsKeyed s.members
      → lookup ip s.members ≡ some m
      → m.cred ≡ some c
      → c.revoked ≡ true
      → is_live s.state.room now (entry_of ip c) ≡ true
      → s'.members ≡ (load_members l (some (encode_book l (book_of gen s))) saved now []).0
      → q.taken_at < whole c.expires_at
      → lookup ip (issue_credential_for q name key s').0.members
        ≡ some (seated saved.subnet (written (entry_of ip c)) (new_member ip))
  unfolding load_book is_live is_expired lookup
  issue-load_members ip m c s' q name key i k f e v a t z =
      let b = restored s.state.room now s.members in
      let found =
        put_entries-restored saved.subnet s.state.room now ip m c s.members [] i k f e a refl in
      let loaded = t ∙ load-eq in
      let x = ap (λ (y : List (Addr × Member)). lookup ip y) loaded ∙ found in
      issue_credential_for-kept q name key ip
        (seated saved.subnet (written (entry_of ip c)) (new_member ip)) s'
        (subst (λ (y : List (Addr × Member)). IsMap y) (sym loaded)
          (put_entries-IsMap saved.subnet s.state.room now b [] tt))
        x (ground (arith, v)) (ground (arith, a, z))

lookup-IsKeyed :
    (ip : Addr) (m : Member) (t : MemberTable) → IsKeyed t → lookup ip t ≡ some m → m.ip ≡ ip
unfolding lookup
lookup-IsKeyed ip m [] k l = cc
lookup-IsKeyed ip m ((j, n) ∷ t) (k, ks) l = elim (Bool-cases (j == ip)) [
  | inl q ↦
      let same : n ≡ m = ground (arith, q, l) in
      subst (λ (x : Member). x.ip ≡ ip) same (k ∙ (addr_beq_iff j ip).0 q)
  | inr q ↦ lookup-IsKeyed ip m t ks (ground (arith, q, l))
]

-- The credential of who was put out at an instant.
abbrev pub expelled_cred : Time → Credential → Credential
expelled_cred now c = record c { revoked = true; expires_at = now + arrival_grace }

module _ (k : KickRun) (ip : Addr) (p : Peer) (m : Member) (c : Credential) (s : Session)
    (i : IsMap s.members) (y : IsKeyed s.members) (h : require_host s ≡ ok tt)
    (a : member_at k.checked_at ip s ≡ some p) (n : p.self ≡ false)
    (l : lookup ip s.members ≡ some m) (e : m.cred ≡ some c) where
  put_out-IsKeyed : IsKeyed (put_out k.now ip s).members
  unfolding put_out
  put_out-IsKeyed =
      rw (at-found ip m s.members l)
        (store-IsKeyed ip (kicked_entry k.now m) s.members (lookup-IsKeyed ip m s.members y l) y)

  -- An expulsion outlives the host: if the host of a room puts a member with a credential out, saves
  -- its book, starts again and reads it within the ten minutes that follow, then no request for a
  -- credential, by whatever key, gets the address of who was put out or gives its credential back
  -- until the last whole second of the ten minutes. The address is valid and of the family of the
  -- room, the member has a key, no address stands twice in the table and each entry stands at its own,
  -- the names and keys of the book can be written, the book and the saved room are of the room and in
  -- order, and the library restores what it wrote.
  pub issue-load_members-kick_member :
      (lib : Library) (gen : ℕ) (saved : SavedRoom) (now : Time) (s' : Session) (q : IssueRun)
      (name : Nickname) (key : List ℕ)
      → Restores lib
      → let s₁ = (kick_member k ip s).0 in
        let raw = encode_book lib (book_of gen s₁) in
        All IsWritable (entries s₁.members)
        → lib.unmarshal raw ≡ some (on_disk lib (book_of gen s₁))
        → saved.room ≡ s₁.state.room
        → saved.members_gen ≤ (book_of gen s₁).gen
        → is_live s₁.state.room now (entry_of ip (expelled_cred k.now c)) ≡ true
        → s'.members ≡ (load_members lib (some raw) saved now []).0
        → q.taken_at < whole (k.now + arrival_grace)
        → lookup ip (issue_credential_for q name key s').0.members
          ≡ some
              (seated saved.subnet (written (entry_of ip (expelled_cred k.now c))) (new_member ip))
  issue-load_members-kick_member lib gen saved now s' q name key r w u o g v t z =
      let s₁ = (kick_member k ip s).0 in
      let same = kick-members k ip p m c s i h a n l e in
      issue-load_members lib r gen s₁ saved now w u o g ip (kicked_entry k.now m)
        (expelled_cred k.now c) s' q name key (rw same (put_out-IsMap k.now ip m s i l))
        (rw same put_out-IsKeyed) (rw same (put_out-lookup k.now ip m s i l)) (rw e refl) refl v t z
