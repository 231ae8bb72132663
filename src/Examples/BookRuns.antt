-- ===== src/Examples/BookRuns.antt =====
-- A host that puts its guest out, saves its book and starts again; and books read from a disk.
use kanpachi.Base.{
  ◌+◌, ◌*◌, ◌^◌, ◌≤◌, ◌≡◌, ◌≢◌, refl, true, false, List, [], ◌∷◌, Option, none, some, arith,
  nat_beq, if◌then◌else◌, ok, err, codes, Text, lookup, store, All, map, filter, text_eq, inr,
}
use kanpachi.Net.{Addr, is_valid, no_addr, v4, v6, addr_eq, prefix}
use kanpachi.Members.{new_member, at}
use kanpachi.State.{drop_alerts}
use kanpachi.State.Types.{Room}
use kanpachi.Nick.{
  parse_nickname, check_symbols, nickname_from_host, clean_name, before_dot,
  parse_nickname-nickname_from_host,
}
use kanpachi.Session.{BookEntry, Session, entries, entry_of, require_host, virtual_ip_of, drop_peer}
use kanpachi.InviteId.{group}
use kanpachi.Session.Kicking.{
  KickRun, member_at, or_entry, cred_of_entry, put_out, kick_done, kick_cred, kick_peer,
  kick_checked, kick_member,
}
use kanpachi.Session.Issuing.{issue_credential_for}
use kanpachi.Book.{
  CredentialBook, BookOnDisk, book_rolled_back, Library, on_disk, encode_book, entries_on_disk,
  entry_of_parts, decode_entries, check_book, decode_book,
}
use kanpachi.Book.Filter.{
  Restores, IsUsable, IsWritable, is_live, written, decode_book-IsUsable, decode_book-encode_book,
}
use kanpachi.Book.Loading.{SavedRoom, load_members, load_book, seated}
use kanpachi.Book.Disk.{
  DiskEvent, saves_book, saves_room, starts, resumes, closes, disk_step, disk_steps, save_book,
  save_room, resume_gen, close_files, book_of,
}
use kanpachi.Book.Disk.Generations.{KeepsGen}
use kanpachi.Book.Disk.Order.{new_disk, new_daemon, decode_book-disk_steps}
use kanpachi.Book.Disk.Expelled.{expelled_cred, issue-load_members-kick_member}
use kanpachi.Examples.SessionRuns.{ana, ana_peer, pass, hosting, half_kick, knock}

abbrev print_plain : Addr → Text
print_plain no_addr = []
print_plain (v4 a) = 4 ∷ a ∷ []
print_plain (v6 a z) = 6 ∷ a ∷ z

abbrev parse_plain : Text → Option Addr
parse_plain [] = none
parse_plain (t ∷ []) = none
parse_plain (t ∷ a ∷ z) = if nat_beq t 4 then some (v4 a) else some (v6 a z)

-- A file of one document but for its generation.
abbrev reads : BookOnDisk → Text → Option BookOnDisk
reads d [] = none
reads d (g ∷ s) = some (record d { gen = g })

abbrev plain : BookOnDisk → Library
plain d = record {
  print_addr = print_plain;
  parse_addr = parse_plain;
  encode_bytes = λ k. k;
  decode_bytes = λ t. some t;
  marshal = λ (b : BookOnDisk). b.gen ∷ [];
  unmarshal = reads d;
}

plain-addr :
    (d : BookOnDisk) (a : Addr)
    → is_valid a ≡ true
    → (plain d).parse_addr ((plain d).print_addr a) ≡ some a
plain-addr d no_addr h = cc
plain-addr d (v4 a) h = refl
plain-addr d (v6 a z) h = refl

plain-Restores : (d : BookOnDisk) → Restores (plain d)
plain-Restores d = record { addr = plain-addr d; bytes = λ k h. refl }

abbrev home : Room
home = record { invite_id = codes "A7K2M9QX"; seed = codes "kanpachi.gg" }

abbrev housed : Session
housed = record hosting { state = record hosting.state { room = home } }

abbrev full_kick : KickRun
full_kick = record half_kick { is_applied = true }

abbrev after_kick : Session
after_kick = (kick_member full_kick (v4 258) housed).0

abbrev expelled_doc : BookOnDisk
expelled_doc = record {
  version = 1;
  gen = 5;
  code = codes "A7K2-M9QX";
  seed = codes "kanpachi.gg";
  entries =
      record {
        ip = print_plain (v4 258);
        id = codes "c1";
        name = codes "ana";
        member_key = 7 ∷ [];
        issued_at = 0;
        expires_at = 600;
        revoked = true;
      }
      ∷ [];
}

abbrev lib : Library
lib = plain expelled_doc

abbrev saved : SavedRoom
saved = record { room = home; subnet = prefix (v4 256) 24; members_gen = 5 }

abbrev restarted : Session
restarted = record housed {
  members = (load_members lib (some (encode_book lib (book_of 4 after_kick))) saved 30 []).0;
}

after_kick-IsWritable : All IsWritable (entries after_kick.members)
unfolding kick_member kick_checked kick_peer kick_cred cred_of_entry kick_done drop_alerts put_out
    drop_peer require_host member_at or_entry virtual_ip_of lookup store at entries parse_nickname
    check_symbols
after_kick-IsWritable = ((refl, inr refl), tt)

after_kick-restored :
    lib.unmarshal (encode_book lib (book_of 4 after_kick))
    ≡ some (on_disk lib (book_of 4 after_kick))
unfolding kick_member kick_checked kick_peer kick_cred cred_of_entry kick_done drop_alerts put_out
    drop_peer require_host member_at or_entry virtual_ip_of lookup store at entries entries_on_disk
    group
after_kick-restored = refl

after_kick-room : home ≡ after_kick.state.room
unfolding kick_member kick_checked kick_peer kick_cred cred_of_entry kick_done drop_alerts put_out
    drop_peer require_host member_at or_entry virtual_ip_of lookup store at entries
after_kick-room = refl

after_kick-is_live :
    is_live after_kick.state.room 30 (entry_of (v4 258) (expelled_cred 20 pass)) ≡ true
unfolding kick_member kick_checked kick_peer kick_cred cred_of_entry kick_done drop_alerts put_out
    drop_peer require_host member_at or_entry virtual_ip_of lookup store at entries is_live
after_kick-is_live = refl

issue-load_members_example :
    lookup (v4 258) (issue_credential_for knock (codes "ana") (7 ∷ []) restarted).0.members
    ≡ some (
        seated saved.subnet
          (written (entry_of (v4 258) (expelled_cred 20 pass)))
          (new_member (v4 258)))
unfolding require_host member_at or_entry virtual_ip_of lookup
issue-load_members_example =
    issue-load_members-kick_member full_kick (v4 258) ana_peer ana pass housed (refl, tt) (refl, tt)
      refl refl refl refl refl lib 4 saved 30 restarted knock (codes "ana") (7 ∷ [])
      (plain-Restores expelled_doc) after_kick-IsWritable after_kick-restored after_kick-room
      (omega arith) after_kick-is_live refl (omega arith)

-- A save that is cut off between its two files, a start, and the room opened again and closed for
-- good, of which the file stays; then the next room.
abbrev history : List DiskEvent
history =
    saves_room true housed
    ∷ saves_book true true housed
    ∷ saves_book true false housed
    ∷ starts
    ∷ resumes home (prefix (v4 256) 24) 30
    ∷ closes false false
    ∷ saves_room false housed
    ∷ saves_room true housed
    ∷ saves_book true true housed
    ∷ []

plain-KeepsGen : (d : BookOnDisk) → KeepsGen (plain d)
plain-KeepsGen d = λ w r h e. cc e

history-disk :
    let d = (disk_steps lib history new_daemon new_disk).1 in
    (d.room_gen ≡ some 1) × (d.book ≡ some (1 ∷ []))
unfolding disk_steps disk_step save_book save_room resume_gen close_files load_members load_book
    decode_book check_book
history-disk = (refl, refl)

decode_book-disk_steps_example : decode_book lib (1 ∷ []) 1 home 30 ≢ err book_rolled_back
decode_book-disk_steps_example =
    decode_book-disk_steps lib history 1 (1 ∷ []) home 30 (plain-KeepsGen expelled_doc)
      (omega arith) (refl, (refl, (refl, (refl, (refl, (refl, (refl, (refl, (refl, tt)))))))))
      (history-disk.0) (history-disk.1)

-- A start, another room in the place of the saved one, whose file cannot be written: its book is then
-- taken for an older one.
abbrev astray : List DiskEvent
astray =
    saves_book true true housed
    ∷ saves_book true true housed
    ∷ starts
    ∷ saves_room false housed
    ∷ saves_book true false housed
    ∷ []

astray-rolled_back :
    let d = (disk_steps lib astray new_daemon new_disk).1 in
    (d.room_gen ≡ some 2)
    × (decode_book lib (1 ∷ []) 2 home 30 ≡ err book_rolled_back)
    × (d.book ≡ some (1 ∷ []))
unfolding disk_steps disk_step save_book save_room decode_book check_book
astray-rolled_back = (refl, refl, refl)

-- A book with an entry that has run out and one that runs.
abbrev short : BookEntry
short = record {
  virtual_ip = v4 259;
  id = codes "c7";
  name = codes "beto";
  member_key = 8 ∷ [];
  issued_at = 5;
  expires_at = 10 ^ 9 + 5;
  revoked = false;
}

abbrev long : BookEntry
long = record short { virtual_ip = v4 260; expires_at = 9 * 10 ^ 9 + 5 }

abbrev book : CredentialBook
book = record { gen = 5; room = home; entries = short ∷ long ∷ [] }

abbrev book_doc : BookOnDisk
book_doc = on_disk (plain expelled_doc) book

book-restored :
    (plain book_doc).unmarshal (encode_book (plain book_doc) book)
    ≡ some (on_disk (plain book_doc) book)
unfolding entries_on_disk
book-restored = refl

book-IsWritable : All IsWritable book.entries
unfolding parse_nickname check_symbols
book-IsWritable = ((refl, inr refl), ((refl, inr refl), tt))

book-kept : filter (is_live home (2 * 10 ^ 9)) book.entries ≡ long ∷ []
unfolding is_live
book-kept = refl

decode_book-encode_book_example :
    decode_book (plain book_doc) (encode_book (plain book_doc) book) 5 home (2 * 10 ^ 9)
    ≡ ok (record book { entries = map written (filter (is_live home (2 * 10 ^ 9)) book.entries) })
decode_book-encode_book_example =
    decode_book-encode_book (plain book_doc) book 5 (2 * 10 ^ 9) (plain-Restores book_doc)
      book-restored book-IsWritable (omega arith)

-- The book that was read.
abbrev read_book : CredentialBook
read_book = record { gen = 5; room = home; entries = map written (long ∷ []) }

read_book-eq : decode_book (plain book_doc) (5 ∷ []) 4 home (2 * 10 ^ 9) ≡ ok read_book
unfolding decode_book check_book decode_entries entry_of_parts entries_on_disk group parse_nickname
    check_symbols
read_book-eq = refl

decode_book-IsUsable_example :
    (read_book.room ≡ home)
    × (4 ≤ read_book.gen)
    × All (IsUsable home (2 * 10 ^ 9)) read_book.entries
decode_book-IsUsable_example =
    decode_book-IsUsable (plain book_doc) (5 ∷ []) 4 home (2 * 10 ^ 9) read_book read_book-eq

nickname_from_host_example :
    parse_nickname (nickname_from_host (codes "mc-01.casa.lan")) ≡ ok (codes "mc01")
unfolding nickname_from_host clean_name before_dot
nickname_from_host_example = parse_nickname-nickname_from_host (codes "mc-01.casa.lan")
