-- ===== src/Book/Disk/Order.antt =====
-- The order of the generations on a host's disk (core/usecase/persist.go, resumeroom.go and
-- leaveroom.go): neither a write that fails nor a restart makes the host take its own book for an older
-- one.
use kanpachi.Base.{
  ℕ, suc, ◌+◌, ◌^◌, ◌<◌, ◌≡◌, ◌≢◌, refl, List, [], ◌∷◌, none, some, arith, text_eq, err, Text,
  length, subst,
}
use kanpachi.Net.{Time}
use kanpachi.State.Types.{Room}
use kanpachi.Book.{book_rolled_back, Library, on_disk, decode_book}
use kanpachi.Book.Disk.{Disk, Daemon, DiskEvent, disk_step, disk_steps}
use kanpachi.Book.Disk.Generations.{KeepsGen, check_book-rolled_back}
use kanpachi.Book.Disk.Steps.{disk_step-Holds}
use kanpachi.Book.Disk.Phases.{settled, Phase, IsInOrder, IsAhead, Holds, next_phase, Holds-IsAhead}

disk_steps-IsAhead :
    (l : Library) (k : KeepsGen l) (es : List DiskEvent) (high : ℕ) (p : Phase) (o : Daemon)
    (d : Disk)
    → high + length es < 2 ^ 64
    → IsInOrder p es
    → Holds l high p o d
    → IsAhead l (high + length es) (disk_steps l es o d).1
unfolding disk_steps
disk_steps-IsAhead l k [] high p o d h i s =
    let e : high + 0 ≡ high = omega arith in rw e (Holds-IsAhead l high p o d s)
disk_steps-IsAhead l k (e ∷ es) high p o d h (a, i) s =
    let s' = disk_step-Holds l k high (omega (arith, h)) e p o d a s in
    let r =
      disk_steps-IsAhead l k es (suc high) (next_phase e p) (disk_step l e o d).0
        (disk_step l e o d).1 (omega (arith, h)) i s' in
    let q : high + suc (length es) ≡ suc high + length es = omega arith in rw q r

-- A host that never had a file.
abbrev pub new_disk : Disk
new_disk = record { room_gen = none; book = none }

abbrev pub new_daemon : Daemon
new_daemon = record { gen = 0; waiting = none }

-- Whatever a host saves, opens again, discards and closes, whichever of its writes fail, and however
-- often it starts, the book on its disk is never rejected as rolled back against the generation that
-- the file of the room has. The host decides on the room that its start found before it opens
-- another, and after a close whose file of the room stays it writes the file of the next room before
-- a book; fewer than 2^64 things happen since there was no file, and the library keeps the generation
-- of a book that it reads back.
pub decode_book-disk_steps :
    (l : Library) (es : List DiskEvent) (g : ℕ) (raw : Text) (room : Room) (now : Time)
    → KeepsGen l
    → length es < 2 ^ 64
    → IsInOrder settled es
    → (disk_steps l es new_daemon new_disk).1.room_gen ≡ some g
    → (disk_steps l es new_daemon new_disk).1.book ≡ some raw
    → decode_book l raw g room now ≢ err book_rolled_back
unfolding decode_book
decode_book-disk_steps l es g raw room now k h i p q f =
    let (b, c) =
      disk_steps-IsAhead l k es 0 settled new_daemon new_disk (omega (arith, h)) i
        (refl, (omega arith, tt, tt)) in
    let c₁ = rw p at c in
    let (w, e, m, n) = rw q at c₁ in
    let (r, u, v) = check_book-rolled_back l g room now (l.unmarshal raw) f in
    let z = k (on_disk l w) r (omega (arith, h, n)) (subst (λ y. l.unmarshal y ≡ some r) e u) in
    omega (arith, m, v, z)
