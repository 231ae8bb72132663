-- ===== src/Book/Disk/Generations.antt =====
-- What a save and a load do to the generations of a host (core/usecase/persist.go).
use kanpachi.Base.{
  ℕ, suc, ◌^◌, ◌≤◌, ◌<◌, Bool, not, ◌||◌, ◌&&◌, ◌≡◌, refl, [], Option, none, some, arith, nat_beq,
  ltb, ◌==◌, text_eq, ok, err, Text, is_empty, Bool-cases, Result-cases, inl, inr, subst,
}
use kanpachi.Net.{Time, Prefix}
use kanpachi.State.Types.{Room}
use kanpachi.State.{in_room}
use kanpachi.InviteId.{print_invite_id}
use kanpachi.Policy.{is_host}
use kanpachi.Session.{Session}
use kanpachi.Book.{
  book_version, CredentialBook, BookOnDisk, book_rolled_back, Library, on_disk, encode_book,
  check_book, decode_book, decode_entries,
}
use kanpachi.Book.Loading.{load_members, load_book}
use kanpachi.Book.Disk.{Disk, next_gen, book_of, save_room, save_book}

-- A book that is read back has the generation that was written.
abbrev pub KeepsGen : Library → Type 0
KeepsGen l =
    (d r : BookOnDisk) → d.gen < 2 ^ 64 → l.unmarshal (l.marshal d) ≡ some r → r.gen ≡ d.gen

-- The book of the disk, if there is one, is of a generation between two bounds.
abbrev pub HoldsBook : Library → ℕ → ℕ → Option Text → Type 0
HoldsBook l low high none = Unit
HoldsBook l low high (some raw) =
    (b : CredentialBook) × (raw ≡ encode_book l b) × (low ≤ b.gen) × (b.gen ≤ high)

abbrev pub AtMost : ℕ → Option ℕ → Type 0
AtMost gen none = Unit
AtMost gen (some g) = g ≤ gen

-- The room's file is not ahead of the host, nor the host of the book.
abbrev pub IsOrdered : Library → ℕ → ℕ → Disk → Type 0
IsOrdered l high gen d = (gen ≤ high) × AtMost gen d.room_gen × HoldsBook l gen high d.book

pub HoldsBook-weaken :
    (l : Library) (low high high' : ℕ) (o : Option Text)
    → high ≤ high'
    → HoldsBook l low high o
    → HoldsBook l low high' o
HoldsBook-weaken l low high high' none h k = tt
HoldsBook-weaken l low high high' (some raw) h (b, e, p, q) = (b, e, p, ground (arith, h, q))

pub HoldsBook-lower :
    (l : Library) (low low' high : ℕ) (o : Option Text)
    → low ≤ low'
    → HoldsBook l low' high o
    → HoldsBook l low high o
HoldsBook-lower l low low' high none h k = tt
HoldsBook-lower l low low' high (some raw) h (b, e, p, q) = (b, e, omega (arith, h, p), q)

pub AtMost-weaken : (g h : ℕ) (o : Option ℕ) → g ≤ h → AtMost g o → AtMost h o
AtMost-weaken g h none e k = tt
AtMost-weaken g h (some x) e k = ground (arith, e, k)

pub save_room-IsOrdered :
    (l : Library) (high : ℕ) (taken : Bool) (s : Session) (gen : ℕ) (d : Disk)
    → IsOrdered l high gen d
    → IsOrdered l high gen (save_room taken s gen d)
unfolding save_room
save_room-IsOrdered l high taken s gen d (a, b, c) =
    elim (Bool-cases (not (is_host s.state.role) || not (in_room s.state.conn))) [
      | inl p ↦ rw p (a, b, c)
      | inr p ↦ rw p (elim (Bool-cases (is_empty s.state.room.invite_id || not taken)) [
        | inl q ↦ rw q (a, b, c)
        | inr q ↦ rw q (a, omega arith, c)
      ])
    ]

pub save_book-IsOrdered :
    (l : Library) (high : ℕ) (taken room_taken : Bool) (s : Session) (gen : ℕ) (d : Disk)
    → suc high < 2 ^ 64
    → IsOrdered l high gen d
    → IsOrdered l
        (suc high)
        (save_book l taken room_taken s gen d).0
        (save_book l taken room_taken s gen d).1
unfolding save_book
save_book-IsOrdered l high taken room_taken s gen d f (a, b, c) =
    let high' = suc high in
    let shut =
      not (is_host s.state.role) || not (in_room s.state.conn) || is_empty s.state.room.invite_id in
    let same : IsOrdered l high' gen d =
      (omega (arith, a), b, HoldsBook-weaken l gen high high' d.book (omega arith) c) in
    let n : next_gen gen ≡ suc gen = omega (arith, a, f) in
    let d' = record d { book = some (encode_book l (book_of gen s)) } in
    let next : IsOrdered l high' (next_gen gen) d' = (
      omega (arith, n, a),
      AtMost-weaken gen (next_gen gen) d.room_gen (omega (arith, n)) b,
      (book_of gen s, refl, omega arith, omega (arith, n, a)),
    ) in
    elim (Bool-cases shut) [
      | inl p ↦ rw p same
      | inr p ↦ rw p (elim (Bool-cases (not taken)) [
        | inl q ↦ rw q same
        | inr q ↦ rw q (save_room-IsOrdered l high' room_taken s (next_gen gen) d' next)
      ])
    ]

-- What is read has the generation of the book that was written.
check_book-gen :
    (l : Library) (known : ℕ) (room : Room) (now : Time) (o : Option BookOnDisk)
    (b : CredentialBook)
    → check_book l known room now o ≡ ok b
    → (r : BookOnDisk) × (o ≡ some r) × (b.gen ≡ r.gen)
unfolding check_book
check_book-gen l known room now none b h = cc
check_book-gen l known room now (some d) b h =
    let code = d.code == print_invite_id room.invite_id in
    let seed = d.seed == room.seed in
    elim (Bool-cases (nat_beq d.version book_version && not (ltb d.gen known) && code && seed)) [
      | inr q ↦ absurd (ground (arith, q, h))
      | inl q ↦
          let made : CredentialBook = record {
            gen = d.gen;
            room = room;
            entries = decode_entries l room now d.entries;
          } in
          let same : made ≡ b = ground (arith, q, h) in
          (d, refl, subst (λ (x : CredentialBook). x.gen ≡ d.gen) same refl)
    ]

pub check_book-rolled_back :
    (l : Library) (known : ℕ) (room : Room) (now : Time) (o : Option BookOnDisk)
    → check_book l known room now o ≡ err book_rolled_back
    → (r : BookOnDisk) × (o ≡ some r) × (r.gen < known)
unfolding check_book
check_book-rolled_back l known room now none h = cc
check_book-rolled_back l known room now (some d) h =
    let code = d.code == print_invite_id room.invite_id in
    let seed = d.seed == room.seed in
    elim (Bool-cases (nat_beq d.version book_version)) [
      | inr q ↦ absurd (ground (arith, q, h))
      | inl q ↦ elim (Bool-cases (ltb d.gen known)) [
        | inl r ↦ (d, refl, ground (arith, r))
        | inr r ↦ elim (Bool-cases (code && seed)) [
          | inl t ↦ absurd (ground (arith, q, r, t, h))
          | inr t ↦ absurd (ground (arith, q, r, t, h))
        ]
      ]
    ]

-- What a start reads of a disk in order.
pub load_book-gen :
    (l : Library) (k : KeepsGen l) (high : ℕ) (h : high < 2 ^ 64) (gen g : ℕ) (room : Room)
    (subnet : Prefix) (now : Time) (o : Option Text)
    → gen ≤ high
    → g ≤ gen
    → HoldsBook l gen high o
    → let new =
        (load_members l o (record { room = room; subnet = subnet; members_gen = g }) now []).1 in
      (new ≤ high) × (g ≤ new) × HoldsBook l new high o
unfolding load_members load_book decode_book
load_book-gen l k high h gen g room subnet now none a b c = (omega (arith, a, b), omega arith, tt)
load_book-gen l k high h gen g room subnet now (some raw) a b (w, e, p, q) =
    elim (Result-cases (check_book l g room now (l.unmarshal raw))) [
      | inr (x, f) ↦ rw f (omega (arith, a, b), omega arith, (w, e, omega (arith, b, p), q))
      | inl (x, f) ↦
          let (r, u, v) = check_book-gen l g room now (l.unmarshal raw) x f in
          let z =
            k (on_disk l w) r (omega (arith, h, q)) (subst (λ y. l.unmarshal y ≡ some r) e u) in
          rw f (omega (arith, v, z, q), omega (arith, v, z, p, b), (w, e, omega (arith, v, z), q))
    ]
