-- ===== src/State.antt =====
-- What the daemon knows of its room (core/domain/state.go, with `Peer` and `NetCheck` of
-- core/domain/peer.go, `ExitReason` of core/domain/announce.go, `Displacement` of
-- core/domain/displacement.go and the alerts of core/domain/exposure.go).
pub mod Types
pub mod Machine
pub mod Diagram
pub mod Deadlines
pub mod Alerts
use kanpachi.Base.{
  ℕ, ◌+◌, ◌*◌, ◌%◌, ◌^◌, Bool, true, false, not, ◌&&◌, ◌||◌, List, [], ◌∷◌, Option, none, some,
  nat_beq, if◌then◌else◌, ◌==◌, Text, any, contains, filter, find, Result, ok, err, is_empty, map,
  nat_eq, length,
}
use kanpachi.Net.{Time, is_zero, elapsed, Addr, no_addr, is_valid, no_prefix}
use kanpachi.Profile.{no_game}
use kanpachi.Policy.{Role, role_unset, is_host, is_guest}
use kanpachi.Members.{PathKind, path_relay}
use kanpachi.Canary.{no_check}
use kanpachi.State.Types.{
  ConnState, idle, resolving, connecting, connected, degraded, reconnecting, conn_code, ExitReason,
  exit_none, Peer, Alert, AlertKind, alert_code, RoomState, no_room, BadTransition,
}

-- `transitions`
abbrev pub transitions : ConnState → List ConnState
transitions idle = resolving ∷ []
transitions resolving = connecting ∷ idle ∷ []
transitions connecting = connected ∷ reconnecting ∷ idle ∷ []
transitions connected = degraded ∷ reconnecting ∷ idle ∷ []
transitions degraded = connected ∷ reconnecting ∷ idle ∷ []
transitions reconnecting = connected ∷ degraded ∷ idle ∷ []

abbrev pub same_conn : ConnState → ConnState → Bool
same_conn s t = nat_beq (conn_code s) (conn_code t)

-- `CanGoTo`
unfoldable pub can_go_to : ConnState → ConnState → Bool
can_go_to s next = if same_conn s next then true else any (λ t. same_conn t next) (transitions s)

-- `InRoom`
abbrev pub in_room : ConnState → Bool
in_room s = not (same_conn s idle)

-- `Established`
abbrev pub established : ConnState → Bool
established s = same_conn s connected || same_conn s degraded

-- `clearRoom`; `Gen` is a uint64.
unfoldable pub clear_room : RoomState → RoomState
clear_room r =
    let n = r.net in
    let g = is_guest r.role in
    record r {
      subnet = if g then no_prefix else r.subnet;
      net = record n {
        subnet = if g then no_prefix else n.subnet;
        subnet_reason = if g then [] else n.subnet_reason;
      };
      role = role_unset;
      room = no_room;
      name = [];
      peers = [];
      host_present = false;
      host_gone_since = 0;
      host_last_heard = 0;
      reconnecting_since = 0;
      game = no_game;
      local_ip = no_addr;
      alerts = [];
      canary = no_check;
      code_lost = false;
      gen = (r.gen + 1) % 2 ^ 64;
    }

abbrev pub is_exit_none : ExitReason → Bool
is_exit_none exit_none = true
is_exit_none _ = false

-- `TransitionWithExit`: the state after it, and the error.
unfoldable pub transition_with_exit :
    RoomState → ConnState → Text → ExitReason → RoomState × Option BadTransition
unfolding clear_room
transition_with_exit r next reason exit =
    if not (can_go_to r.conn next)
    then (r, some (record { from = r.conn; to = next; reason = reason }))
    else let moved = record r { conn = next } in
      let left = clear_room moved in
      (
        if same_conn next idle
            then (if is_exit_none exit then left else record left { last_exit = exit })
            else moved,
        none,
      )

-- `Transition`
unfoldable pub transition : RoomState → ConnState → Text → RoomState × Option BadTransition
transition r next reason = transition_with_exit r next reason exit_none

-- `timing.HostAbsenceLimit`, `timing.HostSilenceLimit` and `timing.ReconnectLimit`, in nanoseconds.
abbrev pub host_absence_limit : ℕ
host_absence_limit = 20 * 60 * 10 ^ 9

abbrev pub host_silence_limit : ℕ
host_silence_limit = 6 * 60 * 10 ^ 9

abbrev pub reconnect_limit : ℕ
reconnect_limit = 10 * 60 * 10 ^ 9

-- `ShouldLeaveForHostAbsence`
unfoldable pub should_leave_for_host_absence : RoomState → Time → Bool
should_leave_for_host_absence r now =
    if not (is_guest r.role) || r.host_present || is_zero r.host_gone_since
    then false
    else elapsed now r.host_gone_since host_absence_limit

-- `SetHostPresent`
unfoldable pub set_host_present : RoomState → Bool → Time → RoomState
set_host_present r present now =
    if present
    then record r { host_present = true; host_gone_since = 0; host_last_heard = now }
    else record r {
      host_gone_since =
          if r.host_present || is_zero r.host_gone_since then now else r.host_gone_since;
      host_present = false;
    }

-- `NoteHostAlive`
unfoldable pub note_host_alive : RoomState → Time → RoomState
note_host_alive r now = if not (is_guest r.role) then r else set_host_present r true now

-- `HostSilent`
unfoldable pub host_silent : RoomState → Time → Bool
host_silent r now =
    if not (is_guest r.role) || is_zero r.host_last_heard
    then false
    else elapsed now r.host_last_heard host_silence_limit

-- `SetTunnelDown`
unfoldable pub set_tunnel_down : RoomState → Time → RoomState
set_tunnel_down r now =
    if is_zero r.reconnecting_since then record r { reconnecting_since = now } else r

-- `SetTunnelUp`
unfoldable pub set_tunnel_up : RoomState → RoomState
set_tunnel_up r = record r { reconnecting_since = 0 }

-- `ShouldLeaveForReconnectTimeout`
unfoldable pub should_leave_for_reconnect_timeout : RoomState → Time → Bool
should_leave_for_reconnect_timeout r now =
    if not (in_room r.conn) || is_zero r.reconnecting_since
    then false
    else elapsed now r.reconnecting_since reconnect_limit

abbrev pub is_relay : PathKind → Bool
is_relay path_relay = true
is_relay _ = false

-- `AnyRelay`
unfoldable pub any_relay : RoomState → Bool
any_relay r = any (λ p. not p.self && is_relay p.path) r.peers

-- `ConnFromPeers`
unfoldable pub conn_from_peers : RoomState → ConnState
conn_from_peers r = if any_relay r then degraded else connected

-- `Self` and `HostPeer`
unfoldable pub self_peer : RoomState → Option Peer
self_peer r = find (λ p. p.self) r.peers

unfoldable pub host_peer : RoomState → Option Peer
host_peer r = find (λ p. p.host) r.peers

-- `HasAlert`
unfoldable pub has_alert : RoomState → AlertKind → Bool
has_alert r k = any (λ a. nat_beq (alert_code a.kind) (alert_code k)) r.alerts

-- `DropAlerts`
unfoldable pub drop_alerts : RoomState → AlertKind → RoomState
drop_alerts r k = if is_empty r.alerts then r else record r {
  alerts = filter (λ a. not (nat_beq (alert_code a.kind) (alert_code k))) r.alerts;
}

-- `CountPresent` of core/domain/policy.go.
unfoldable pub count_present : List Peer → ℕ
count_present ps = length (filter (λ p. not (p.self || p.away || not (is_valid p.virtual_ip))) ps)

-- `MemberIPs` of core/domain/policy.go.
unfoldable pub member_ips : List Peer → List Addr
member_ips ps =
    map (λ p. p.virtual_ip) (filter (λ p. not (p.self || not (is_valid p.virtual_ip))) ps)
