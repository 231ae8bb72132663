-- ===== src/Guest/Heeding.antt =====
-- What a guest does at a word of its host (`OnRoomNotice` of core/usecase/leaveroom.go).
use kanpachi.Base.{
  ◌+◌, false, true, not, ◌||◌, ◌≡◌, refl, none, arith, is_empty, codes, Bool-cases, inl, inr,
}
use kanpachi.Net.{Time}
use kanpachi.Policy.{is_host, is_guest}
use kanpachi.State.{in_room, note_host_alive, set_host_present}
use kanpachi.State.Types.{RoomState, idle, exit_kicked, exit_room_closed}
use kanpachi.Guest.{Guest, close_for_good}
use kanpachi.Guest.Return.{is_returning}
use kanpachi.Guest.Leaving.{is_returning-leave_locked}
use kanpachi.Guest.Rejoin.{
  rejoin_due, NoticeKind, notice_kicked, notice_stale, notice_room_closed, heed, on_room_notice,
}
use kanpachi.Guest.Streaks.{waits_late}

note_host_alive_same :
    (r : RoomState) (now : Time)
    → ((note_host_alive r now).conn ≡ r.conn)
      × ((note_host_alive r now).role ≡ r.role)
      × ((note_host_alive r now).room ≡ r.room)
unfolding note_host_alive set_host_present
note_host_alive_same r now = elim (Bool-cases (is_guest r.role)) [
  | inl e ↦ rw e (refl, refl, refl)
  | inr e ↦ rw e (refl, refl, refl)
]

abbrev noted : Time → Guest → Guest
noted now s = record s { state = note_host_alive s.state now }

on_room_notice-heed :
    (now played saved : Time) (kind : NoticeKind) (s : Guest)
    → in_room s.state.conn ≡ true
    → is_host s.state.role ≡ false
    → on_room_notice now played saved kind s ≡ heed played saved kind (noted now s)
unfolding on_room_notice
on_room_notice-heed now played saved kind s i h =
    let e : (not (in_room s.state.conn) || is_host s.state.role) ≡ false = ground (arith, i, h) in
    rw e refl

stale-due :
    (t : Time) (s : Guest)
    → in_room s.state.conn ≡ true
    → is_host s.state.role ≡ false
    → is_empty s.state.room.invite_id ≡ false
    → is_empty s.nick ≡ false
    → s.is_stale ≡ true
    → s.last_rejoin + s.rejoin_wait ≡ 0
    → rejoin_due t s ≡ true
stale-due t s i h e n f z = waits_late t s i h e n (ground (arith, f)) (omega (arith, z))

-- A word of the host: who is told that it was put out is outside and on no way back; who is told that
-- the room was closed is outside and will ask the registry for it; and who is told that the host does
-- not know its credential asks for another at once, whether or not the host seems away. The guest is
-- in a room with an invite ID, under a name.
pub on_room_notice_lem :
    (now played saved : Time) (s : Guest)
    → in_room s.state.conn ≡ true
    → is_host s.state.role ≡ false
    → is_empty s.state.room.invite_id ≡ false
    → is_empty s.nick ≡ false
    → let told = λ (kind : NoticeKind). (on_room_notice now played saved kind s).0 in
      ((told notice_kicked).state.conn ≡ idle)
      × (is_returning (told notice_kicked) ≡ false)
      × ((told notice_room_closed).state.conn ≡ idle)
      × (is_returning (told notice_room_closed) ≡ true)
      × ((t : Time) → rejoin_due t (told notice_stale) ≡ true)
      × ((told notice_stale).credential ≡ none)
on_room_notice_lem now played saved s i h e n =
    let (a, b, c) = note_host_alive_same s.state now in
    let s₁ = noted now s in
    let i' : in_room s₁.state.conn ≡ true = rw a i in
    let h' : is_host s₁.state.role ≡ false = rw b h in
    let e' : is_empty s₁.state.room.invite_id ≡ false = rw c e in
    let told = λ (kind : NoticeKind). on_room_notice-heed now played saved kind s i h in
    let kicked =
      is_returning-leave_locked played saved (codes "el host expulsó a esta máquina") exit_kicked
        close_for_good s₁ h' i' e' in
    let closed =
      is_returning-leave_locked played saved (codes "el host cerró la sala") exit_room_closed
        close_for_good s₁ h' i' e' in
    rw (told notice_kicked) (
      rw (told notice_room_closed) (
        rw (told notice_stale) (
          kicked.0,
          kicked.3,
          closed.0,
          closed.3,
          λ t. stale-due t (heed played saved notice_stale s₁).0 i' h' e' n refl refl,
          refl,
        )))
