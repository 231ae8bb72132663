-- ===== src/State/Types.antt =====
-- The types of the room's state.
use kanpachi.Base.{ℕ, Bool, List, [], Text}
use kanpachi.Net.{Time, Addr, Prefix}
use kanpachi.Profile.{GameProfile}
use kanpachi.Policy.{Role}
use kanpachi.Members.{Nickname, PathKind}
use kanpachi.Canary.{CanaryCheck}
use kanpachi.Quarantine.{QuarantineState, QuarantineDecision}
use kanpachi.Reach.{GameHealth}

pub data ConnState : Type 0 where
  idle resolving connecting connected degraded reconnecting : ConnState

abbrev pub conn_code : ConnState → ℕ
conn_code idle = 0
conn_code resolving = 1
conn_code connecting = 2
conn_code connected = 3
conn_code degraded = 4
conn_code reconnecting = 5

pub data ExitReason : Type 0 where
  exit_none exit_user exit_kicked exit_host_gone exit_room_closed exit_failed exit_tunnel_lost :
      ExitReason

pub data AlertKind : Type 0 where
  firewall_off rules_tampered router_mapping foreign_rule : AlertKind
  lobby_conflict kick_incomplete audit_failed gate_leaking : AlertKind
  game_lost quarantine_off no_member_channels room_almost_full : AlertKind

abbrev pub alert_code : AlertKind → ℕ
alert_code firewall_off = 1
alert_code rules_tampered = 2
alert_code router_mapping = 3
alert_code foreign_rule = 4
alert_code lobby_conflict = 5
alert_code kick_incomplete = 6
alert_code audit_failed = 7
alert_code gate_leaking = 8
alert_code game_lost = 9
alert_code quarantine_off = 10
alert_code no_member_channels = 11
alert_code room_almost_full = 12

pub record Alert : Type 0 where
  pub kind : AlertKind
  pub detail : Text

-- `Room` of core/domain/room.go; the invite ID is its raw text.
pub record Room : Type 0 where
  pub invite_id : Text
  pub seed : Text

abbrev pub no_room : Room
no_room = record { invite_id = []; seed = [] }

pub record Peer : Type 0 where
  pub virtual_ip : Addr
  pub name : Nickname
  pub path : PathKind
  pub rtt : ℕ
  pub self : Bool
  pub host : Bool
  pub away : Bool
  pub away_for : ℕ
  pub seat_frees_in : ℕ

pub record NetCheck : Type 0 where
  pub nat_kind : Text
  pub udp_blocked : Bool
  pub seed_rtt : List (Text × ℕ)
  pub mtu : ℕ
  pub subnet : Prefix
  pub subnet_reason : Text

pub data DisplacementKind : Type 0 where
  displace_nothing displace_leave_room displace_close_room displace_stop_returning :
      DisplacementKind

pub record Displacement : Type 0 where
  pub kind : DisplacementKind
  pub room : Room
  pub name : Text
  pub members : ℕ

pub record ReturnAttempt : Type 0 where
  pub room : Room
  pub name : Text
  pub next_at : Time
  pub attempts : ℕ
  pub reason : Text

pub record RoomState : Type 0 where
  pub conn : ConnState
  pub role : Role
  pub room : Room
  pub name : Text
  pub peers : List Peer
  pub host_present : Bool
  pub host_gone_since : Time
  pub host_last_heard : Time
  pub reconnecting_since : Time
  pub rejoining : Bool
  pub game : GameProfile
  pub game_health : GameHealth
  pub game_where : Addr
  pub game_redirected_to : Addr
  pub local_ip : Addr
  pub subnet : Prefix
  pub net : NetCheck
  pub alerts : List Alert
  pub canary : CanaryCheck
  pub code_lost : Bool
  pub seed_down : Bool
  pub quarantine : QuarantineState
  pub quarantine_decision : QuarantineDecision
  pub gen : ℕ
  pub last_exit : ExitReason
  pub displaces : Displacement
  pub returning : ReturnAttempt

-- `ErrBadTransition`
pub record BadTransition : Type 0 where
  pub from : ConnState
  pub to : ConnState
  pub reason : Text
