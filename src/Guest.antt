-- ===== src/Guest.antt =====
-- The guest's way back to its room (core/usecase: returnroom.go, rejoin.go, leaveroom.go,
-- deadlines.go and `saveLastRoomLocked` of persist.go). The fields of the session that these
-- operations read and write are here; a call to a port is a `GuestCall`, in order, and its answer an
-- argument. The session's lock makes each operation atomic, except that `Return` and the exchange
-- of `JoinRoom` inside it are two steps. Logs, progress and the redirection of a game are left out.
pub mod Return
pub mod GoingBack
pub mod Leaving
pub mod Rejoin
pub mod Streaks
pub mod Heeding
pub mod Deadlines
pub mod Keeping
pub mod Upkeep
use kanpachi.Base.{
  ℕ, ◌+◌, ◌-◌, ◌*◌, ◌/◌, ◌^◌, Bool, true, false, not, ◌&&◌, ◌||◌, List, [], ◌∷◌, ◌++◌, Option, none,
  some, leb, nat_beq, if◌then◌else◌, Text, is_empty, store, text_eq,
}
use kanpachi.Net.{Time, Addr, no_addr}
use kanpachi.Profile.{is_zero_profile}
use kanpachi.Policy.{is_host}
use kanpachi.Members.{Nickname, Credential, MemberTable}
use kanpachi.State.{in_room, transition_with_exit, count_present}
use kanpachi.State.Types.{Room, no_room, RoomState, ExitReason, exit_user, exit_kicked, idle}

-- `LastRoom` of core/domain/hostedroom.go
pub record LastRoom : Type 0 where
  pub room : Room
  pub name : Text
  pub nick : Nickname
  pub saved_at : Time
  pub member_seed : List ℕ
  pub auto_return : Bool

-- `Session`. `last` is `s.last` where `s.hasLast` holds; `credential` is `s.myCredential`;
-- `member_seed` is the seed of `s.memberKey`; `verifiable` is `s.verificables`, its days as instants.
pub record Guest : Type 0 where
  pub state : RoomState
  pub nick : Nickname
  pub members : MemberTable
  pub members_gen : ℕ
  pub member_seed : List ℕ
  pub sealed_card : List ℕ
  pub credential : Option Credential
  pub is_stale : Bool
  pub verifiable : List (Text × Time)
  pub last : Option LastRoom
  pub return_next_at : Time
  pub return_attempts : ℕ
  pub return_reason : Text
  pub return_running : Bool
  pub last_rejoin : Time
  pub rejoin_wait : ℕ
  pub rejoin_streak : ℕ
  pub last_rejoin_success : Time
  pub last_announce : Time
  pub last_publish : Time
  pub last_renew : Time

-- A call to the store, the registry, the control channel or the engine.
pub data GuestCall : Type 0 where
  clears_room clears_members retires clears_last tears_down cancels_return : GuestCall
  leaves_lobby announces republishes renews_all : GuestCall
  saves_last : LastRoom → GuestCall

-- `destino`
pub data Destination : Type 0 where
  close_for_good keep_to_reopen : Destination

abbrev pub is_closing : Destination → Bool
is_closing close_for_good = true
is_closing keep_to_reopen = false

-- Leaving and being put out are what somebody decided.
abbrev pub is_deliberate : ExitReason → Bool
is_deliberate exit_user = true
is_deliberate exit_kicked = true
is_deliberate _ = false

-- `saveLastRoomLocked`
unfoldable pub save_last_room : Bool → Time → Guest → Guest × List GuestCall
save_last_room auto_return now s =
    if is_host s.state.role || not (in_room s.state.conn) || is_empty s.state.room.invite_id
    then (s, [])
    else let last : LastRoom = record {
      room = s.state.room;
      name = s.state.name;
      nick = s.nick;
      saved_at = now;
      member_seed = if auto_return then s.member_seed else [];
      auto_return = auto_return;
    } in
      (record s { last = some last }, saves_last last ∷ [])

-- The record of what was played with somebody, at the start of `leaveLocked`.
unfoldable pub note_played : Time → Guest → Guest
note_played now s =
    if not (is_zero_profile s.state.game) && leb 1 (count_present s.state.peers)
    then record s { verifiable = store s.state.game.id now s.verifiable }
    else s

-- `closeRoomInRegistryLocked`
unfoldable pub close_in_registry : Guest → List GuestCall
close_in_registry s =
    if not (is_host s.state.role) || is_empty s.state.room.invite_id then [] else retires ∷ []

-- What `leaveLocked` does to a room that is closed for good.
unfoldable pub close_room : Destination → Guest → Guest × List GuestCall
close_room dest s =
    if is_closing dest && is_host s.state.role
    then (record s { members_gen = 0 }, clears_room ∷ clears_members ∷ close_in_registry s)
    else (s, [])

-- The fields that `leaveLocked` empties.
unfoldable pub forget_room : Guest → Guest
forget_room s = record s {
  nick = [];
  sealed_card = [];
  members = [];
  member_seed = [];
  credential = none;
  is_stale = false;
  rejoin_streak = 0;
  last_rejoin_success = 0;
  last_announce = 0;
  last_publish = 0;
}

-- `leaveLocked`, with the readings of the clock for the record and for the last room.
unfoldable pub leave_locked :
    Time → Time → Text → ExitReason → Destination → Guest → Guest × List GuestCall
leave_locked played saved reason exit dest s =
    if not (in_room s.state.conn)
    then (s, [])
    else (let (s₁, closing) = close_room dest (note_played played s) in
        let (s₂, saving) = save_last_room (not (is_deliberate exit)) saved s₁ in
        let s₃ = forget_room s₂ in
        (
          record s₃ { state = (transition_with_exit s₃.state idle reason exit).0 },
          closing ++ (saving ++ tears_down ∷ []),
        ))

-- `base + time.Duration(b)*jitter/255`, or all of the jitter where the source of random bytes fails.
abbrev pub spread : ℕ → ℕ → Option ℕ → ℕ
spread base jitter none = base + jitter
spread base jitter (some b) = base + b * jitter / 255
