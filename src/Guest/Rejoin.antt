-- ===== src/Guest/Rejoin.antt =====
-- Asking the host for a seat again while the room is kept (core/usecase/rejoin.go), and the host's
-- notices (`OnRoomNotice` of leaveroom.go). What the exchange with the host and the engine
-- (`rejoinLocked`) leaves is an argument: whether it succeeded, and the state and the credential.
use kanpachi.Base.{
  ℕ, ◌+◌, ◌*◌, ◌^◌, Bool, true, false, not, ◌||◌, List, [], ◌∷◌, Option, none, ltb, leb,
  if◌then◌else◌, Text, is_empty, codes,
}
use kanpachi.Net.{Time, is_zero, elapsed}
use kanpachi.Policy.{is_host}
use kanpachi.Members.{Credential}
use kanpachi.State.{in_room, note_host_alive}
use kanpachi.State.Types.{RoomState, exit_kicked, exit_room_closed, exit_tunnel_lost}
use kanpachi.Guest.{Guest, GuestCall, leaves_lobby, close_for_good, leave_locked, spread}

-- `timing.RejoinAfter`, `RejoinInterval`, `RejoinJitter` and `RejoinCalmAfter`, in nanoseconds, and
-- `maxRejoinStreak`.
abbrev pub rejoin_after : ℕ
rejoin_after = 2 * 60 * 10 ^ 9

abbrev pub rejoin_interval : ℕ
rejoin_interval = 30 * 10 ^ 9

abbrev pub rejoin_jitter : ℕ
rejoin_jitter = 30 * 10 ^ 9

abbrev pub rejoin_calm_after : ℕ
rejoin_calm_after = 15 * 60 * 10 ^ 9

abbrev pub max_rejoin_streak : ℕ
max_rejoin_streak = 8

-- The host has been away for long enough, or says itself that it does not know the credential.
abbrev pub lacks_host : Time → Guest → Bool
lacks_host now s =
    s.is_stale
    || not (
        s.state.host_present
        || is_zero s.state.host_gone_since
        || not (elapsed now s.state.host_gone_since rejoin_after))

-- `rejoinDueLocked`
unfoldable pub rejoin_due : Time → Guest → Bool
rejoin_due now s =
    if not (in_room s.state.conn) || is_host s.state.role
    then false
    else if is_empty s.state.room.invite_id || is_empty s.nick
    then false
    else if not (lacks_host now s)
    then false
    else elapsed now s.last_rejoin s.rejoin_wait

-- `nextRejoinWaitLocked`, with the byte of the source of random bytes.
unfoldable pub next_rejoin_wait : Option ℕ → ℕ
next_rejoin_wait b = spread rejoin_interval rejoin_jitter b

-- What a call of `Rejoin` meets.
pub record RejoinRun : Type 0 where
  pub now : Time
  pub byte : Option ℕ
  pub has_joined : Bool
  pub left : RoomState
  pub credential : Option Credential
  pub played_at : Time
  pub saved_at : Time

-- The streak after a success: it starts anew after calm.
unfoldable pub next_streak : Time → Guest → ℕ
next_streak now s =
    if is_zero s.last_rejoin_success || ltb (s.last_rejoin_success + rejoin_calm_after) now
    then 1
    else s.rejoin_streak + 1

-- The wording of the exit.
abbrev pub not_held : Text
not_held = codes "la conexión con la sala no se sostuvo tras varios reingresos"

-- The clock is set before the attempt.
abbrev pub sealed : RejoinRun → Guest → Guest
sealed k s = record s { last_rejoin = k.now; rejoin_wait = next_rejoin_wait k.byte }

abbrev pub after_exchange : RejoinRun → Guest → Guest
after_exchange k s =
    let r = k.left in record s { state = record r { rejoining = false }; credential = k.credential }

-- `Rejoin`, and whether it answers without an error.
unfoldable pub rejoin : RejoinRun → Guest → Guest × List GuestCall × Bool
rejoin k s =
    if not (rejoin_due k.now s)
    then (s, [], true)
    else if leb max_rejoin_streak s.rejoin_streak
    then (let (s', calls) =
          leave_locked k.played_at k.saved_at not_held exit_tunnel_lost close_for_good s in
        (s', calls, true))
    else if not k.has_joined
    then (after_exchange k (sealed k s), leaves_lobby ∷ [], false)
    else (
      record (after_exchange k (sealed k s)) {
        is_stale = false;
        rejoin_streak = next_streak k.now s;
        last_rejoin_success = k.now;
      },
      [],
      true,
    )

-- `RoomNotice.Kind`
pub data NoticeKind : Type 0 where
  notice_kicked notice_stale notice_room_closed notice_unknown : NoticeKind

-- The cases of `OnRoomNotice`.
abbrev pub heed : Time → Time → NoticeKind → Guest → Guest × List GuestCall
heed played saved notice_kicked s =
    leave_locked played saved (codes "el host expulsó a esta máquina") exit_kicked close_for_good s
heed played saved notice_stale s =
    (record s { is_stale = true; credential = none; last_rejoin = 0; rejoin_wait = 0 }, [])
heed played saved notice_room_closed s =
    leave_locked played saved (codes "el host cerró la sala") exit_room_closed close_for_good s
heed played saved notice_unknown s = (s, [])

-- `OnRoomNotice`
unfoldable pub on_room_notice : Time → Time → Time → NoticeKind → Guest → Guest × List GuestCall
on_room_notice now played saved kind s =
    if not (in_room s.state.conn) || is_host s.state.role
    then (s, [])
    else heed played saved kind (record s { state = note_host_alive s.state now })
