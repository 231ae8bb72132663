-- ===== src/Book/Disk/Steps.antt =====
-- Each thing that happens to the files of a host keeps their order (core/usecase/persist.go,
-- resumeroom.go and leaveroom.go).
use kanpachi.Base.{
  ℕ, suc, ◌^◌, ◌≤◌, ◌<◌, Bool, true, false, if◌then◌else◌, sym, ◌∙◌, ◌&&◌, ◌≡◌, refl, none, some,
  arith, text_eq, Bool-cases, Option-cases, inl, inr, subst,
}
use kanpachi.Net.{Time, Prefix}
use kanpachi.State.Types.{Room}
use kanpachi.Session.{Session}
use kanpachi.Book.{Library}
use kanpachi.Book.Disk.{
  Disk, save_room, Daemon, DiskEvent, discard_saved_room, close_files, resume_gen, disk_step,
  saves_book, saves_room, starts, resumes, discards, closes,
}
use kanpachi.Book.Disk.Generations.{
  KeepsGen, HoldsBook, IsOrdered, HoldsBook-lower, save_room-IsOrdered, save_book-IsOrdered,
  load_book-gen,
}
use kanpachi.Book.Disk.Phases.{
  Phase, pending, uncleared, settled, has_file, is_allowed, next_phase, or_zero, Holds,
  IsOrdered-IsAhead, Holds-IsAhead, IsAhead-weaken, IsOrdered-weaken, Holds-weaken,
  no_room-IsOrdered, clear_book-IsAhead, cleared-IsOrdered,
}

save_room-eq :
    (taken : Bool) (s : Session) (gen : ℕ) (d : Disk)
    → save_room taken s gen d
      ≡ (if taken && has_file s then record d { room_gen = some gen } else d)
unfolding save_room
save_room-eq taken s gen d = ground arith

resume-none :
    (l : Library) (room : Room) (subnet : Prefix) (now : Time) (o : Daemon) (d : Disk)
    → o.waiting ≡ none
    → resume_gen l room subnet now o d ≡ o
unfolding resume_gen
resume-none l room subnet now o d e = rw e refl

discard-none :
    (room_done book_done : Bool) (o : Daemon) (d : Disk)
    → o.waiting ≡ none
    → discard_saved_room room_done book_done o d ≡ (o, d)
unfolding discard_saved_room
discard-none room_done book_done o d e = rw e refl

resume-Holds :
    (l : Library) (k : KeepsGen l) (high : ℕ) (h : high < 2 ^ 64) (o : Daemon) (d : Disk)
    (room : Room) (subnet : Prefix) (now : Time)
    → Holds l high pending o d
    → Holds l high settled (resume_gen l room subnet now o d) d
unfolding resume_gen
resume-Holds l k high h o d room subnet now (z, w, s) =
    let (a, b) = s in
    elim (Option-cases d.room_gen) [
      | inl e ↦
          let r = no_room-IsOrdered l high d s (rw e tt) in
          subst (λ (x : Daemon). Holds l high settled x d)
            (sym (resume-none l room subnet now o d (w ∙ e)))
            (w ∙ e, subst (λ n. IsOrdered l high n d) (sym z) r)
      | inr (g, e) ↦
          let m : g ≤ high = rw e at a in
          let c : HoldsBook l g high d.book = rw e at b in
          let (p, q, r) = load_book-gen l k high h g g room subnet now d.book m (omega arith) c in
          rw (w ∙ e) (refl, (p, rw e q, r))
    ]

pub disk_step-Holds :
    (l : Library) (k : KeepsGen l) (high : ℕ) (h : suc high < 2 ^ 64) (e : DiskEvent) (p : Phase)
    (o : Daemon) (d : Disk)
    → is_allowed e p ≡ true
    → Holds l high p o d
    → Holds l (suc high) (next_phase e p) (disk_step l e o d).0 (disk_step l e o d).1
unfolding disk_step close_files discard_saved_room resume_gen
disk_step-Holds l k high h starts p o d i s =
    (refl, refl, IsAhead-weaken l high d (Holds-IsAhead l high p o d s))
disk_step-Holds l k high h (saves_book taken room_taken s) settled o d i (w, r) =
    (w, save_book-IsOrdered l high taken room_taken s o.gen d h r)
disk_step-Holds l k high h (saves_book taken room_taken s) pending o d i r = cc
disk_step-Holds l k high h (saves_book taken room_taken s) uncleared o d i r = cc
disk_step-Holds l k high h (saves_room taken s) settled o d i (w, r) =
    (w, IsOrdered-weaken l high o.gen _ (save_room-IsOrdered l high taken s o.gen d r))
disk_step-Holds l k high h (saves_room taken s) pending o d i r = cc
disk_step-Holds l k high h (saves_room taken s) uncleared o d i (z, w, r) =
    let r' = IsAhead-weaken l high d r in
    rw (save_room-eq taken s o.gen d) (elim (Bool-cases (taken && has_file s)) [
      | inr q ↦ rw q (z, w, r')
      | inl q ↦ rw q (
          rw z (
            w,
            (
              omega arith,
              omega arith,
              HoldsBook-lower l 0 (or_zero d.room_gen) (suc high) d.book (omega arith) r'.1,
            ),
          ))
    ])
disk_step-Holds l k high h (resumes room subnet now) pending o d i r =
    resume-Holds l k (suc high) h o d room subnet now (Holds-weaken l high pending o d r)
disk_step-Holds l k high h (resumes room subnet now) uncleared o d i r =
    subst (λ (x : Daemon). Holds l (suc high) uncleared x d)
      (sym (resume-none l room subnet now o d (r.1))) (Holds-weaken l high uncleared o d r)
disk_step-Holds l k high h (resumes room subnet now) settled o d i r =
    subst (λ (x : Daemon). Holds l (suc high) settled x d)
      (sym (resume-none l room subnet now o d (r.0))) (Holds-weaken l high settled o d r)
disk_step-Holds l k high h (discards room_done book_done) uncleared o d i r =
    subst (λ (x : Daemon × Disk). Holds l (suc high) uncleared x.0 x.1)
      (sym (discard-none room_done book_done o d (r.1))) (Holds-weaken l high uncleared o d r)
disk_step-Holds l k high h (discards room_done book_done) settled o d i r =
    subst (λ (x : Daemon × Disk). Holds l (suc high) settled x.0 x.1)
      (sym (discard-none room_done book_done o d (r.0))) (Holds-weaken l high settled o d r)
disk_step-Holds l k high h (discards false book_done) pending o d i r =
    let s = Holds-weaken l high pending o d r in
    elim (Option-cases o.waiting) [
      | inl e ↦
          subst (λ (x : Daemon × Disk). Holds l (suc high) pending x.0 x.1)
            (sym (discard-none false book_done o d e)) s
      | inr (g, e) ↦
          let same : discard_saved_room false book_done o d ≡ (o, d) = rw e refl in
          subst (λ (x : Daemon × Disk). Holds l (suc high) pending x.0 x.1) (sym same) s
    ]
disk_step-Holds l k high h (discards true book_done) pending o d i (z, w, r) =
    let r' = IsAhead-weaken l high d r in
    elim (Option-cases o.waiting) [
      | inl e ↦
          let x = no_room-IsOrdered l (suc high) d r' (rw (sym w ∙ e) tt) in
          subst (λ (x : Daemon × Disk). Holds l (suc high) settled x.0 x.1)
            (sym (discard-none true book_done o d e))
            (e, subst (λ n. IsOrdered l (suc high) n d) (sym z) x)
      | inr (g, e) ↦ rw e (refl, cleared-IsOrdered l (suc high) book_done d r')
    ]
disk_step-Holds l k high h (closes room_done book_done) pending o d i r = cc
disk_step-Holds l k high h (closes false book_done) uncleared o d i (z, w, r) =
    (refl, w, clear_book-IsAhead l (suc high) book_done d (IsAhead-weaken l high d r))
disk_step-Holds l k high h (closes true book_done) uncleared o d i (z, w, r) =
    (w, cleared-IsOrdered l (suc high) book_done d (IsAhead-weaken l high d r))
disk_step-Holds l k high h (closes false book_done) settled o d i (w, r) =
    let r' = IsAhead-weaken l high d (IsOrdered-IsAhead l high o.gen d r) in
    (refl, w, clear_book-IsAhead l (suc high) book_done d r')
disk_step-Holds l k high h (closes true book_done) settled o d i (w, r) =
    let r' = IsAhead-weaken l high d (IsOrdered-IsAhead l high o.gen d r) in
    (w, cleared-IsOrdered l (suc high) book_done d r')
