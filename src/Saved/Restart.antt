-- ===== src/Saved/Restart.antt =====
-- A guest that leaves its room, and the daemon that starts again (core/usecase: leaveroom.go,
-- persist.go and returnroom.go).
use kanpachi.Base.{
  ◌≤◌, true, false, not, ◌≡◌, refl, [], ◌⊎◌, inl, inr, some, arith, ok, Text, length, all,
  Bool-cases, is_empty,
}
use kanpachi.Net.{Time}
use kanpachi.State.{in_room}
use kanpachi.State.Types.{ExitReason}
use kanpachi.Nick.{parse_nickname}
use kanpachi.RoomCode.{parse_room}
use kanpachi.RoomCode.Codes.{parse_room-code_of}
use kanpachi.Guest.{Guest, is_deliberate}
use kanpachi.Guest.Return.{is_returning, return_due}
use kanpachi.Guest.Leaving.{last_room_of}
use kanpachi.Book.Filter.{whole}
use kanpachi.Saved.{
  max_room_name_len, member_seed_len, SavedLibrary, saved_room, last_on_disk, encode_last,
  decode_last, load_last,
}
use kanpachi.Saved.RoundTrip.{Rereads, is_byte, decode_last-encode_last}

-- A daemon that starts with the file of the last room that a guest left makes its first attempt to go
-- back at once, into that room, exactly if the guest did not leave on purpose and was not put out.
-- The code of the room was read from a text, its name is not too long, the guest's name is a
-- nickname, the seed of its key is absent or of the right length, and the library reads back what it
-- wrote.
pub return_due-load_last :
    (l : SavedLibrary) (exit : ExitReason) (at now : Time) (s s' : Guest) (raw code : Text)
    (r : kanpachi.RoomCode.Room)
    → Rereads l
    → let last = last_room_of at exit s in
      l.read_last (l.write_last (last_on_disk l last)) ≡ some (last_on_disk l last)
      → encode_last l last ≡ ok raw
      → length s.state.name ≤ max_room_name_len
      → parse_nickname s.nick ≡ ok s.nick
      → (s.member_seed ≡ [])
        ⊎ ((all is_byte s.member_seed ≡ true) × (length s.member_seed ≡ member_seed_len))
      → parse_room l.to_lower code ≡ ok r
      → s.state.room ≡ saved_room r
      → in_room s'.state.conn ≡ false
      → s'.return_running ≡ false
      → s'.return_next_at ≡ 0
      → (return_due now (load_last l (some raw) s') ≡ not (is_deliberate exit))
        × ((load_last l (some raw) s').last ≡ some (record last { saved_at = whole at }))
unfolding load_last return_due is_returning
return_due-load_last l exit at now s s' raw code r w f e n k m p q i j z =
    let last = last_room_of at exit s in
    let seed : (last.member_seed ≡ [])
        ⊎ ((all is_byte last.member_seed ≡ true) × (length last.member_seed ≡ member_seed_len)) =
      elim (Bool-cases (is_deliberate exit)) [ inl d ↦ inl (rw d refl) | inr d ↦ rw d m ] in
    let c : is_empty s.state.room.invite_id ≡ false =
      rw q ((parse_room-code_of l.to_lower code r w.lower p).2) in
    let d = decode_last-encode_last l last code r w f n k seed p q in
    let d' : decode_last l raw ≡ ok (record last { saved_at = whole at }) = rw e at d in
    rw d' (rw i (rw j (rw z (ground (arith, c), refl))))
