-- ===== src/Book/Disk.antt =====
-- The two writes of a save (`saveMembersLocked` and `saveRoomLocked` of core/usecase/persist.go) and
-- what is read after them. The book goes first, and either write can fail or be cut off. Of the
-- room's file the generation is kept here.
pub mod Expelled
pub mod Generations
pub mod Phases
pub mod Steps
pub mod Order
use kanpachi.Base.{
  ℕ, ◌+◌, ◌%◌, ◌^◌, Bool, true, not, ◌||◌, List, [], ◌∷◌, Option, none, some, if◌then◌else◌,
  text_eq, Text, is_empty,
}
use kanpachi.Net.{Time, Prefix}
use kanpachi.State.Types.{Room}
use kanpachi.State.{in_room}
use kanpachi.Policy.{is_host}
use kanpachi.Session.{Session, entries}
use kanpachi.Book.{CredentialBook, Library, encode_book}
use kanpachi.Book.Loading.{SavedRoom, load_members}

-- The generation in the file of the room, and the file of the book, where they are.
pub record Disk : Type 0 where
  pub room_gen : Option ℕ
  pub book : Option Text

-- `s.membersGen + 1`, on `uint64`.
abbrev pub next_gen : ℕ → ℕ
next_gen gen = (gen + 1) % 2 ^ 64

-- The book of `saveMembersLocked`.
abbrev pub book_of : ℕ → Session → CredentialBook
book_of gen s = record { gen = next_gen gen; room = s.state.room; entries = entries s.members }

-- `saveRoomLocked`, with whether the disk takes the file: a room without an invite ID has none.
unfoldable pub save_room : Bool → Session → ℕ → Disk → Disk
save_room taken s gen d =
    if not (is_host s.state.role) || not (in_room s.state.conn)
    then d
    else if is_empty s.state.room.invite_id || not taken
    then d
    else record d { room_gen = some gen }

module _ (l : Library) where
  -- `saveMembersLocked`, with whether the disk takes the book and the room: the generation of the
  -- host and the disk after it.
  unfoldable pub save_book : Bool → Bool → Session → ℕ → Disk → ℕ × Disk
  save_book taken room_taken s gen d =
      if not (is_host s.state.role) || not (in_room s.state.conn) || is_empty s.state.room.invite_id
      then (gen, d)
      else if not taken
      then (gen, d)
      else (
        next_gen gen,
        save_room room_taken s (next_gen gen)
            (record d { book = some (encode_book l (book_of gen s)) }),
      )

-- The daemon of a host: the generation that it has, and that of the room that its start found on the
-- disk and that was neither opened again nor discarded (`s.saved` where `s.hasSaved` holds).
pub record Daemon : Type 0 where
  pub gen : ℕ
  pub waiting : Option ℕ

-- What happens to the files of a host. The flags say whether the disk does what it is asked.
pub data DiskEvent : Type 0 where
  saves_book : Bool → Bool → Session → DiskEvent
  saves_room : Bool → Session → DiskEvent
  starts : DiskEvent
  resumes : Room → Prefix → Time → DiskEvent
  discards closes : Bool → Bool → DiskEvent

abbrev pub clear_room_file : Bool → Disk → Disk
clear_room_file done d = if done then record d { room_gen = none } else d

abbrev pub clear_book_file : Bool → Disk → Disk
clear_book_file done d = if done then record d { book = none } else d

-- `DiscardSavedRoom`: an error where no room waits, or its file stays.
unfoldable pub discard_saved_room : Bool → Bool → Daemon → Disk → Daemon × Disk
discard_saved_room room_done book_done h d = elim (h.waiting) [
  | none ↦ (h, d)
  | some g ↦ if not room_done then (h, d) else (
    record h { gen = 0; waiting = none },
    clear_book_file book_done (clear_room_file true d),
  )
]

-- The files of the room when a host leaves for good, as `leaveLocked` clears them.
unfoldable pub close_files : Bool → Bool → Daemon → Disk → Daemon × Disk
close_files room_done book_done h d =
    (record h { gen = 0 }, clear_book_file book_done (clear_room_file room_done d))

module _ (l : Library) where
  -- What `ResumeRoom` makes of the generation: an error where no room waits.
  unfoldable pub resume_gen : Room → Prefix → Time → Daemon → Disk → Daemon
  resume_gen room subnet now h d = elim (h.waiting) [
    | none ↦ h
    | some g ↦
        let saved : SavedRoom = record { room = room; subnet = subnet; members_gen = g } in
        record h { gen = (load_members l d.book saved now []).1; waiting = none }
  ]

  unfoldable pub disk_step : DiskEvent → Daemon → Disk → Daemon × Disk
  disk_step (saves_book taken room_taken s) h d =
      let (gen, d') = save_book l taken room_taken s h.gen d in (record h { gen = gen }, d')
  disk_step (saves_room taken s) h d = (h, save_room taken s h.gen d)
  disk_step starts h d = (record { gen = 0; waiting = d.room_gen }, d)
  disk_step (resumes room subnet now) h d = (resume_gen room subnet now h d, d)
  disk_step (discards room_done book_done) h d = discard_saved_room room_done book_done h d
  disk_step (closes room_done book_done) h d = close_files room_done book_done h d

  unfoldable pub disk_steps : List DiskEvent → Daemon → Disk → Daemon × Disk
  disk_steps [] h d = (h, d)
  disk_steps (e ∷ es) h d = let (h', d') = disk_step e h d in disk_steps es h' d'
