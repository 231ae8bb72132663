-- ===== src/Guest/Leaving.antt =====
-- What leaving a room means for the way back to it (`leaveLocked` of core/usecase/leaveroom.go with
-- returnroom.go).
use kanpachi.Base.{
  true, false, not, ◌&&◌, ◌||◌, ◌≡◌, refl, List, [], ◌∷◌, some, arith, leb, if◌then◌else◌, Text,
  is_empty, store, text_eq, Bool-cases, inl, inr,
}
use kanpachi.Net.{Time}
use kanpachi.Profile.{is_zero_profile}
use kanpachi.Policy.{is_host}
use kanpachi.State.{in_room, count_present}
use kanpachi.State.Types.{ExitReason, idle}
use kanpachi.State.Machine.{leave-conn}
use kanpachi.Guest.{
  LastRoom, Guest, saves_last, tears_down, Destination, is_closing, is_deliberate, save_last_room,
  note_played, close_room, forget_room, leave_locked,
}
use kanpachi.Guest.Return.{is_returning}

-- The last room that an exit leaves.
abbrev pub last_room_of : Time → ExitReason → Guest → LastRoom
last_room_of saved exit s = record {
  room = s.state.room;
  name = s.state.name;
  nick = s.nick;
  saved_at = saved;
  member_seed = if not (is_deliberate exit) then s.member_seed else [];
  auto_return = not (is_deliberate exit);
}

note_played_same :
    (now : Time) (s : Guest)
    → (played : List (Text × Time)) × (note_played now s ≡ record s { verifiable = played })
unfolding note_played
note_played_same now s =
    elim (Bool-cases (not (is_zero_profile s.state.game) && leb 1 (count_present s.state.peers))) [
      | inl e ↦ (store s.state.game.id now s.verifiable, rw e refl)
      | inr e ↦ (s.verifiable, rw e refl)
    ]

close_room_guest :
    (dest : Destination) (s : Guest) → is_host s.state.role ≡ false → close_room dest s ≡ (s, [])
unfolding close_room
close_room_guest dest s h =
    let e : (is_closing dest && is_host s.state.role) ≡ false = ground (arith, h) in rw e refl

save_last_guest :
    (exit : ExitReason) (now : Time) (s : Guest)
    → is_host s.state.role ≡ false
    → in_room s.state.conn ≡ true
    → is_empty s.state.room.invite_id ≡ false
    → save_last_room (not (is_deliberate exit)) now s ≡ (
      record s { last = some (last_room_of now exit s) },
      saves_last (last_room_of now exit s) ∷ [],
    )
unfolding save_last_room
save_last_guest exit now s h i e =
    let f : (is_host s.state.role || not (in_room s.state.conn) || is_empty s.state.room.invite_id)
        ≡ false =
      ground (arith, h, i, e) in
    rw f refl

-- A guest that leaves a room with an invite ID is outside, has its room saved under its code, and is
-- on its way back exactly if it did not leave on purpose and was not put out; then the key that
-- gives it its seat back is saved too, and otherwise it is not.
pub is_returning-leave_locked :
    (played saved : Time) (reason : Text) (exit : ExitReason) (dest : Destination) (s : Guest)
    → is_host s.state.role ≡ false
    → in_room s.state.conn ≡ true
    → is_empty s.state.room.invite_id ≡ false
    → let (s', calls) = leave_locked played saved reason exit dest s in
      (s'.state.conn ≡ idle)
      × (s'.last ≡ some (last_room_of saved exit s))
      × (calls ≡ saves_last (last_room_of saved exit s) ∷ tears_down ∷ [])
      × (is_returning s' ≡ not (is_deliberate exit))
unfolding leave_locked forget_room is_returning
is_returning-leave_locked played saved reason exit dest s h i e =
    let (p, q) = note_played_same played s in
    let s₀ : Guest = record s { verifiable = p } in
    let c = leave-conn s.state reason exit in
    rw i (
      rw q (
        rw (close_room_guest dest s₀ h)
          (rw (save_last_guest exit saved s₀ h i e) (c, refl, refl, rw c (ground (arith, e))))))
