-- ===== src/Profile.antt =====
-- The game profile (core/domain/gameprofile.go, its types) and what a profile says of itself.
use kanpachi.Base.{ℕ, Bool, true, false, ◌||◌, not, List, [], Option, none, Text, is_empty}
use kanpachi.Ports.{PortRange}

-- `Origin`, with its zero value.
pub data Origin : Type 0 where
  origin_unset builtin mine imported : Origin

-- `precedence`
unfoldable pub precedence : Origin → ℕ
precedence mine = 3
precedence imported = 2
precedence builtin = 1
precedence origin_unset = 0

abbrev pub origin_is_unset : Origin → Bool
origin_is_unset origin_unset = true
origin_is_unset _ = false

-- `ConnectHintKind`, with its zero value.
pub data ConnectHintKind : Type 0 where
  connect_unset direct_ip lan_browser steam_friends : ConnectHintKind

abbrev pub connect_is_unset : ConnectHintKind → Bool
connect_is_unset connect_unset = true
connect_is_unset _ = false

pub record SystemTweaks : Type 0 where
  pub broadcast_route : Bool
  pub multicast_route : Bool
  pub prefer_ipv4 : Bool
  pub direct_play : Bool

-- `SystemTweaks.Any`
unfoldable pub any_tweak : SystemTweaks → Bool
any_tweak t = t.broadcast_route || t.multicast_route || t.prefer_ipv4 || t.direct_play

pub record Detect : Type 0 where
  pub steam_app_id : ℕ
  pub executables : List Text

pub record ConnectHint : Type 0 where
  pub kind : ConnectHintKind
  pub text_es : Text

pub record BindHint : Type 0 where
  pub file : Text
  pub key : Text
  pub note_es : Text

pub record Verified : Type 0 where
  pub date : Text
  pub by : Text
  pub method : Text
  pub game_version : Text

pub record GameProfile : Type 0 where
  pub id : Text
  pub name : Text
  pub origin : Origin
  pub detect : Detect
  pub host_ports : List PortRange
  pub client_ports : List PortRange
  pub lan_discovery : Bool
  pub tweaks : SystemTweaks
  pub connect : ConnectHint
  pub bind : BindHint
  pub verified : Option Verified

-- `GameProfile{}`
abbrev pub no_game : GameProfile
no_game = record {
  id = [];
  name = [];
  origin = origin_unset;
  detect = record { steam_app_id = 0; executables = [] };
  host_ports = [];
  client_ports = [];
  lan_discovery = false;
  tweaks = record {
    broadcast_route = false;
    multicast_route = false;
    prefer_ipv4 = false;
    direct_play = false;
  };
  connect = record { kind = connect_unset; text_es = [] };
  bind = record { file = []; key = []; note_es = [] };
  verified = none;
}

-- `IsMesh`
abbrev pub is_mesh : GameProfile → Bool
is_mesh p = not (is_empty p.client_ports)

-- `IsZero`
abbrev pub is_zero_profile : GameProfile → Bool
is_zero_profile p = is_empty p.id
