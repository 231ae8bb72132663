-- ===== src/Examples/StateRuns.antt =====
-- A session: joining, leaving, a host that goes silent, a tunnel that falls.
use kanpachi.Base.{true, false, ◌≡◌, refl, List, [], ◌∷◌, codes}
use kanpachi.Net.{v4, no_addr, prefix, no_prefix}
use kanpachi.Profile.{no_game}
use kanpachi.Policy.{guest, role_unset}
use kanpachi.Canary.{no_check}
use kanpachi.Quarantine.{no_quarantine, undecided}
use kanpachi.Reach.{unknown}
use kanpachi.State.Types.{
  idle, resolving, connected, degraded, exit_none, exit_kicked, RoomState, no_room,
  displace_nothing, firewall_off, gate_leaking,
}
use kanpachi.State.{transition_with_exit, clear_room, can_go_to}
use kanpachi.State.Machine.{Move, move_all, IsLeft, move_all-IsTidy}

abbrev pub fresh : RoomState
fresh = record {
  conn = idle;
  role = role_unset;
  room = no_room;
  name = [];
  peers = [];
  host_present = false;
  host_gone_since = 0;
  host_last_heard = 0;
  reconnecting_since = 0;
  rejoining = false;
  game = no_game;
  game_health = unknown;
  game_where = no_addr;
  game_redirected_to = no_addr;
  local_ip = no_addr;
  subnet = no_prefix;
  net = record {
    nat_kind = codes "cone";
    udp_blocked = false;
    seed_rtt = [];
    mtu = 1380;
    subnet = no_prefix;
    subnet_reason = [];
  };
  alerts = [];
  canary = no_check;
  code_lost = false;
  seed_down = false;
  quarantine = no_quarantine;
  quarantine_decision = undecided;
  gen = 0;
  last_exit = exit_none;
  displaces = record { kind = displace_nothing; room = no_room; name = []; members = 0 };
  returning = record { room = no_room; name = []; next_at = 0; attempts = 0; reason = [] };
}

abbrev guest_room : RoomState
guest_room = record fresh {
  conn = connected;
  role = guest;
  name = codes "la sala";
  host_present = true;
  subnet = prefix (v4 0x64400000) 24;
  alerts =
      record { kind = firewall_off; detail = [] }
      ∷ record { kind = gate_leaking; detail = [] }
      ∷ [];
  gen = 4;
}

abbrev exits : List Move
exits =
    (degraded, [], exit_none)
    ∷ (resolving, [], exit_none)
    ∷ (idle, codes "expulsado", exit_kicked)
    ∷ (resolving, [], exit_none)
    ∷ (idle, [], exit_none)
    ∷ []

exits-conn : (move_all guest_room exits).conn ≡ idle
unfolding transition_with_exit clear_room can_go_to
exits-conn = refl

move_all-IsTidy_example : IsLeft guest_room (move_all guest_room exits)
move_all-IsTidy_example = move_all-IsTidy guest_room exits refl exits-conn
