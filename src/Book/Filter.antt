-- ===== src/Book/Filter.antt =====
-- What a book that was read holds (core/domain/credentialbook.go), whatever was in the file, and what
-- it keeps of the book that was written.
use kanpachi.Base.{
  ℕ, ◌<◌, ◌≤◌, Bool, true, false, not, ◌&&◌, ◌||◌, ◌≡◌, refl, List, [], ◌∷◌, Option, none, some,
  arith, ltb, nat_beq, if◌then◌else◌, ◌==◌, text_eq, ok, Text, is_empty, map, filter, All, all,
  Bool-cases, Option-cases, inl, inr, eq_refl, subst, ap, ◌⊎◌, Result-cases,
}
use kanpachi.Net.{Time, Addr, is_valid, is4}
use kanpachi.State.Types.{Room}
use kanpachi.InviteId.{print_invite_id}
use kanpachi.Members.{Nickname}
use kanpachi.Nick.{parse_nickname, parse_nickname-eq}
use kanpachi.Session.{BookEntry}
use kanpachi.Book.{
  book_version, CredentialBook, EntryOnDisk, BookOnDisk, Library, to_unix, of_unix, name_or_empty,
  is_out_of_family, entry_on_disk, entries_on_disk, on_disk, encode_book, entry_of_parts,
  decode_entry, with_some, decode_entries, check_book, decode_book,
}

-- A nickname that `ParseNickname` made, or none.
abbrev pub IsNickname : Nickname → Type 0
IsNickname n = (n ≡ []) ⊎ (parse_nickname n ≡ ok n)

-- What an entry of a book that was read is, at the time of the reading.
abbrev pub IsUsable : Room → Time → BookEntry → Type 0
IsUsable room now e =
    (is_valid e.virtual_ip ≡ true)
    × (is_empty room.invite_id ≡ false → is4 e.virtual_ip ≡ true)
    × (now < e.expires_at)
    × (is_empty e.member_key ≡ false)
    × IsNickname e.name

-- An instant cut to the whole second.
abbrev pub whole : Time → Time
whole t = of_unix (to_unix t)

-- What the file keeps of an entry.
abbrev pub written : BookEntry → BookEntry
written e = record e { issued_at = whole e.issued_at; expires_at = whole e.expires_at }

-- The entries that a book gives back: those whose last whole second is still to come.
unfoldable pub is_live : Room → Time → BookEntry → Bool
is_live room now e =
    is_valid e.virtual_ip
    && (is_empty room.invite_id || is4 e.virtual_ip)
    && ltb now (whole e.expires_at)
    && not (is_empty e.member_key)

abbrev is_byte : ℕ → Bool
is_byte b = ltb b 256

-- What an entry's key and name are.
abbrev pub IsWritable : BookEntry → Type 0
IsWritable e = (all is_byte e.member_key ≡ true) × IsNickname e.name

-- The documented laws of the library: an address and bytes are read back as they were written.
pub record Restores (l : Library) : Type 0 where
  pub addr : (a : Addr) → is_valid a ≡ true → l.parse_addr (l.print_addr a) ≡ some a
  pub bytes : (k : List ℕ) → all is_byte k ≡ true → l.decode_bytes (l.encode_bytes k) ≡ some k

name_or_empty-IsNickname : (s : Text) → IsNickname (name_or_empty (parse_nickname s))
name_or_empty-IsNickname s = elim (Result-cases (parse_nickname s)) [
  | inl (n, e) ↦ let p = parse_nickname-eq s n e in inr (rw e (rw p at e))
  | inr (x, e) ↦ inl (rw e refl)
]

name_or_empty-same : (n : Nickname) → IsNickname n → name_or_empty (parse_nickname n) ≡ n
unfolding parse_nickname
name_or_empty-same n (inl e) = rw e refl
name_or_empty-same n (inr e) = rw e refl

module _ (l : Library) (room : Room) (now : Time) where
  decode_entry-IsUsable :
      (e : EntryOnDisk) (ip : Option Addr) (key : Option (List ℕ)) (r : BookEntry)
      → entry_of_parts l room now e ip key ≡ some r
      → IsUsable room now r
  unfolding entry_of_parts
  decode_entry-IsUsable e none key r h = cc
  decode_entry-IsUsable e (some ip) none r h = cc
  decode_entry-IsUsable e (some ip) (some key) r h =
      let out =
        not (is_valid ip)
        || is_out_of_family room ip
        || not (ltb now (of_unix e.expires_at))
        || is_empty key in
      elim (Bool-cases out) [
        | inl q ↦ absurd (ground (arith, q, h))
        | inr q ↦
            let made : BookEntry = record {
              virtual_ip = ip;
              id = e.id;
              name = name_or_empty (parse_nickname e.name);
              member_key = key;
              issued_at = of_unix e.issued_at;
              expires_at = of_unix e.expires_at;
              revoked = e.revoked;
            } in
            let same : made ≡ r = ground (arith, q, h) in
            subst (IsUsable room now) same (
              ground (arith, q),
              λ f. ground (arith, q, f),
              ground (arith, q),
              ground (arith, q),
              name_or_empty-IsNickname e.name,
            )
      ]

  decode_entries-IsUsable :
      (es : List EntryOnDisk) → All (IsUsable room now) (decode_entries l room now es)
  unfolding decode_entries
  decode_entries-IsUsable [] = tt
  decode_entries-IsUsable (e ∷ es) = elim (Option-cases (decode_entry l room now e)) [
    | inl q ↦ rw q (decode_entries-IsUsable es)
    | inr (r, q) ↦ rw q (
      decode_entry-IsUsable e (l.parse_addr e.ip) (l.decode_bytes e.member_key) r q,
      decode_entries-IsUsable es,
    )
  ]

-- The entries of a book that is written and read again.
module _ (l : Library) (r : Restores l) (room : Room) (now : Time) where
  entry-restored :
      (e : BookEntry)
      → is_valid e.virtual_ip ≡ true
      → IsWritable e
      → decode_entry l room now (entry_on_disk l e)
        ≡ (if is_live room now e then some (written e) else none)
  unfolding entry_of_parts is_live
  entry-restored e v (k, n) =
      rw (r.addr e.virtual_ip v, r.bytes e.member_key k, name_or_empty-same e.name n)
        (ground (arith, v))

  with_live :
      (b : Bool) (e : BookEntry) (out es : List BookEntry)
      → out ≡ map written es
      → with_some l (if b then some (written e) else none) out
        ≡ map written (if b then e ∷ es else es)
  with_live true e out es h = ap (◌∷◌ (written e)) h
  with_live false e out es h = h

  dead_if_invalid : (e : BookEntry) → is_valid e.virtual_ip ≡ false → is_live room now e ≡ false
  unfolding is_live
  dead_if_invalid e v = ground (arith, v)

  entries-restored :
      (es : List BookEntry)
      → All IsWritable es
      → decode_entries l room now (entries_on_disk l es)
        ≡ map written (filter (is_live room now) es)
  unfolding decode_entries entries_on_disk
  entries-restored [] h = refl
  entries-restored (e ∷ es) (h, hs) =
      let rest = filter (is_live room now) es in
      elim (Bool-cases (is_valid e.virtual_ip)) [
        | inr v ↦ rw v (rw (dead_if_invalid e v) (entries-restored es hs))
        | inl v ↦ rw v (
            rw (entry-restored e v h)
              (with_live (is_live room now e) e _ rest (entries-restored es hs)))
      ]

check_book-IsUsable :
    (l : Library) (known : ℕ) (room : Room) (now : Time) (o : Option BookOnDisk)
    (b : CredentialBook)
    → check_book l known room now o ≡ ok b
    → (b.room ≡ room) × (known ≤ b.gen) × All (IsUsable room now) b.entries
unfolding check_book
check_book-IsUsable l known room now none b h = cc
check_book-IsUsable l known room now (some d) b h =
    let code = d.code == print_invite_id room.invite_id in
    let seed = d.seed == room.seed in
    elim (Bool-cases (nat_beq d.version book_version && not (ltb d.gen known) && code && seed)) [
      | inr q ↦ absurd (ground (arith, q, h))
      | inl q ↦
          let made : CredentialBook = record {
            gen = d.gen;
            room = room;
            entries = decode_entries l room now d.entries;
          } in
          let same : made ≡ b = ground (arith, q, h) in
          subst (λ x. (x.room ≡ room) × (known ≤ x.gen) × All (IsUsable room now) x.entries) same
            (refl, ground (arith, q), decode_entries-IsUsable l room now d.entries)
    ]

-- Whatever a file of the disk holds, a book that is taken from it is of the room asked for and no
-- older than the generation that is remembered, and each entry has a valid address (an IPv4 one in a
-- room with an invite ID), has not expired, has a member key, and names a legal nickname or nobody.
pub decode_book-IsUsable :
    (l : Library) (raw : Text) (known : ℕ) (room : Room) (now : Time) (b : CredentialBook)
    → decode_book l raw known room now ≡ ok b
    → (b.room ≡ room) × (known ≤ b.gen) × All (IsUsable room now) b.entries
unfolding decode_book
decode_book-IsUsable l raw known room now b h =
    check_book-IsUsable l known room now (l.unmarshal raw) b h

-- A book of the room that is written and read again, and is no older than the generation that is
-- remembered, gives back its generation and exactly the entries that are still live, their instants
-- cut to the whole second, if every name is a nickname or none, every key is of bytes, and the
-- library restores what it wrote.
pub decode_book-encode_book :
    (l : Library) (b : CredentialBook) (known : ℕ) (now : Time)
    → Restores l
    → l.unmarshal (encode_book l b) ≡ some (on_disk l b)
    → All IsWritable b.entries
    → known ≤ b.gen
    → decode_book l (encode_book l b) known b.room now
      ≡ ok (record b { entries = map written (filter (is_live b.room now) b.entries) })
unfolding decode_book check_book
decode_book-encode_book l b known now r u w k =
    let f : ltb b.gen known ≡ false = ground (arith, k) in
    let code = eq_refl (print_invite_id b.room.invite_id) in
    let e = entries-restored l r b.room now b.entries w in
    rw u (rw f (rw code (rw (eq_refl b.room.seed) (rw e refl))))
