-- ===== src/Book/Disk/Phases.antt =====
-- What a host has behind it when it writes its files, and what its steps keep of their order
-- (core/usecase/persist.go, resumeroom.go and leaveroom.go).
use kanpachi.Base.{
  ℕ, suc, ◌≤◌, Bool, true, false, if◌then◌else◌, sym, not, ◌&&◌, ◌≡◌, refl, List, [], ◌∷◌, Option,
  none, some, arith, text_eq, is_empty, subst,
}
use kanpachi.State.{in_room}
use kanpachi.Policy.{is_host}
use kanpachi.Session.{Session}
use kanpachi.Book.{Library}
use kanpachi.Book.Disk.{
  Disk, Daemon, DiskEvent, clear_room_file, clear_book_file, saves_book, saves_room, starts,
  resumes, discards, closes,
}
use kanpachi.Book.Disk.Generations.{
  HoldsBook, AtMost, IsOrdered, HoldsBook-weaken, HoldsBook-lower, AtMost-weaken,
}

-- What a host has behind it: a start that left its saved room as it is, a close that left the file of
-- the room, or neither.
pub data Phase : Type 0 where
  pending uncleared settled : Phase

-- The session is that of a host in a room with an invite ID, of which a file can be made.
abbrev pub has_file : Session → Bool
has_file s = is_host s.state.role && in_room s.state.conn && not (is_empty s.state.room.invite_id)

-- A host decides on the room that its start found before it opens a room, and where the file of a
-- room that it closed could not be removed, it writes the file of the next room before a book.
abbrev pub is_allowed : DiskEvent → Phase → Bool
is_allowed (saves_book taken room_taken s) settled = true
is_allowed (saves_book taken room_taken s) _ = false
is_allowed (saves_room taken s) pending = false
is_allowed (closes room_done book_done) pending = false
is_allowed _ _ = true

abbrev pub next_phase : DiskEvent → Phase → Phase
next_phase starts p = pending
next_phase (saves_room taken s) uncleared = if taken && has_file s then settled else uncleared
next_phase (resumes room subnet now) pending = settled
next_phase (discards room_done book_done) pending = if room_done then settled else pending
next_phase (closes room_done book_done) p = if room_done then settled else uncleared
next_phase _ p = p

abbrev pub IsInOrder : Phase → List DiskEvent → Type 0
IsInOrder p [] = Unit
IsInOrder p (e ∷ es) = (is_allowed e p ≡ true) × IsInOrder (next_phase e p) es

abbrev pub or_zero : Option ℕ → ℕ
or_zero none = 0
or_zero (some g) = g

-- The book of the disk is not behind the file of the room.
abbrev pub IsAhead : Library → ℕ → Disk → Type 0
IsAhead l high d = AtMost high d.room_gen × HoldsBook l (or_zero d.room_gen) high d.book

abbrev pub Holds : Library → ℕ → Phase → Daemon → Disk → Type 0
Holds l high pending h d = (h.gen ≡ 0) × (h.waiting ≡ d.room_gen) × IsAhead l high d
Holds l high uncleared h d = (h.gen ≡ 0) × (h.waiting ≡ none) × IsAhead l high d
Holds l high settled h d = (h.waiting ≡ none) × IsOrdered l high h.gen d

or_zero-AtMost : (gen : ℕ) (o : Option ℕ) → AtMost gen o → or_zero o ≤ gen
or_zero-AtMost gen none a = omega arith
or_zero-AtMost gen (some g) a = a

pub IsOrdered-IsAhead :
    (l : Library) (high gen : ℕ) (d : Disk) → IsOrdered l high gen d → IsAhead l high d
IsOrdered-IsAhead l high gen d (a, b, c) = (
  AtMost-weaken gen high d.room_gen a b,
  HoldsBook-lower l (or_zero d.room_gen) gen high d.book (or_zero-AtMost gen d.room_gen b) c,
)

pub Holds-IsAhead :
    (l : Library) (high : ℕ) (p : Phase) (h : Daemon) (d : Disk)
    → Holds l high p h d
    → IsAhead l high d
Holds-IsAhead l high pending h d (a, b, c) = c
Holds-IsAhead l high uncleared h d (a, b, c) = c
Holds-IsAhead l high settled h d (a, b) = IsOrdered-IsAhead l high h.gen d b

pub IsAhead-weaken : (l : Library) (high : ℕ) (d : Disk) → IsAhead l high d → IsAhead l (suc high) d
IsAhead-weaken l high d (a, b) = (
  AtMost-weaken high (suc high) d.room_gen (omega arith) a,
  HoldsBook-weaken l (or_zero d.room_gen) high (suc high) d.book (omega arith) b,
)

pub IsOrdered-weaken :
    (l : Library) (high gen : ℕ) (d : Disk) → IsOrdered l high gen d → IsOrdered l (suc high) gen d
IsOrdered-weaken l high gen d (a, b, c) =
    (omega (arith, a), b, HoldsBook-weaken l gen high (suc high) d.book (omega arith) c)

pub Holds-weaken :
    (l : Library) (high : ℕ) (p : Phase) (h : Daemon) (d : Disk)
    → Holds l high p h d
    → Holds l (suc high) p h d
Holds-weaken l high pending h d (a, b, c) = (a, b, IsAhead-weaken l high d c)
Holds-weaken l high uncleared h d (a, b, c) = (a, b, IsAhead-weaken l high d c)
Holds-weaken l high settled h d (a, b) = (a, IsOrdered-weaken l high h.gen d b)

-- Without a file of the room, or with one of no generation, a host that has none either is in order.
pub no_room-IsOrdered :
    (l : Library) (high : ℕ) (d : Disk)
    → IsAhead l high d
    → AtMost 0 d.room_gen
    → IsOrdered l high 0 d
no_room-IsOrdered l high d (a, b) z =
    (omega arith, z, HoldsBook-lower l 0 (or_zero d.room_gen) high d.book (omega arith) b)

pub clear_book-IsAhead :
    (l : Library) (high : ℕ) (done : Bool) (d : Disk)
    → IsAhead l high d
    → IsAhead l high (clear_book_file done d)
clear_book-IsAhead l high false d h = h
clear_book-IsAhead l high true d (a, b) = (a, tt)

clear_book-room : (done : Bool) (d : Disk) → (clear_book_file done d).room_gen ≡ d.room_gen
clear_book-room false d = refl
clear_book-room true d = refl

clear_room-IsAhead :
    (l : Library) (high : ℕ) (d : Disk) → IsAhead l high d → IsAhead l high (clear_room_file true d)
clear_room-IsAhead l high d (a, b) =
    (tt, HoldsBook-lower l 0 (or_zero d.room_gen) high d.book (omega arith) b)

-- Both files are asked to go, and that of the room does.
pub cleared-IsOrdered :
    (l : Library) (high : ℕ) (done : Bool) (d : Disk)
    → IsAhead l high d
    → IsOrdered l high 0 (clear_book_file done (clear_room_file true d))
cleared-IsOrdered l high done d a =
    let d' = clear_room_file true d in
    no_room-IsOrdered l high (clear_book_file done d')
      (clear_book-IsAhead l high done d' (clear_room-IsAhead l high d a))
      (subst (AtMost 0) (sym (clear_book-room done d')) tt)
