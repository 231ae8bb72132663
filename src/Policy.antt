-- ===== src/Policy.antt =====
-- The firewall policy (core/domain/policy.go): from a profile, a role and the members that are
-- present to the wanted rules. What is proved stands in the modules below.
pub mod Members
pub mod Safety
pub mod Scope
use kanpachi.Base.{
  ℕ, ◌+◌, ◌*◌, ◌/◌, ◌^◌, Bool, true, false, ◌&&◌, ◌||◌, not, ◌≡◌, refl, List, [], ◌∷◌, ◌++◌, map,
  Option, none, some, arith, ltb, leb, nat_beq, if◌then◌else◌, Eq, ◌==◌, Text, codes, decimal,
  has_prefix, is_empty, filter, any, contains, text_order, sort, itself, Result, ok, err, ◌>>=◌,
}
use kanpachi.Net.{Addr, v4, is_valid, Prefix, prefix, addr_eq, addr_order}
use kanpachi.Ports.{
  Proto, proto_unset, proto_tcp, proto_udp, proto_both, PortRange, hits_forbidden, expand,
}
use kanpachi.Profile.{GameProfile, is_zero_profile}

-- `Role`, with its zero value.
pub data Role : Type 0 where
  role_unset host guest : Role

abbrev pub role_code : Role → ℕ
role_code role_unset = 0
role_code host = 1
role_code guest = 2

abbrev pub is_host : Role → Bool
is_host r = nat_beq (role_code r) 1

abbrev pub is_guest : Role → Bool
is_guest r = nat_beq (role_code r) 2

-- `Role.String`
abbrev pub role_text : Role → Text
role_text host = codes "host"
role_text guest = codes "invitado"
role_text role_unset = codes "rol-inválido"

-- `Proto.String`
abbrev pub proto_text : Proto → Text
proto_text proto_tcp = codes "tcp"
proto_text proto_udp = codes "udp"
proto_text proto_both = codes "both"
proto_text proto_unset = codes "proto-inválido"

-- `PortRange.Spec`
unfoldable pub spec : PortRange → Text
spec r =
    if nat_beq r.from r.to then decimal r.from else decimal r.from ++ (codes "-" ++ decimal r.to)

pub record FirewallRule : Type 0 where
  pub name : Text
  pub proto : Proto
  pub from : ℕ
  pub to : ℕ
  pub local : Addr
  pub remote : List Addr
  pub nets : List Prefix

pub record RuleSet : Type 0 where
  pub rules : List FirewallRule

pub data PolicyError : Type 0 where
  no_local_address : PolicyError
  rule_forbidden_port : ℕ → Text → PolicyError
  rule_wide_open : Addr → PolicyError

abbrev pub empty_rules : RuleSet
empty_rules = record { rules = [] }

-- The key by which the rules are sorted.
abbrev pub rule_key : FirewallRule → Text
rule_key r = r.name

-- `Add`
unfoldable pub add : RuleSet → List FirewallRule → RuleSet
add rs more = if is_empty more then rs else record { rules = sort rule_key (rs.rules ++ more) }

-- `Allows`
unfoldable pub allows : RuleSet → ℕ → Bool
allows rs port = any (λ r. leb r.from port && leb port r.to) rs.rules

-- The loop of `normalizeMembers`; `seen` is its map.
unfoldable pub collect_members : Addr → List Addr → List Addr → List Addr
collect_members local [] seen = []
collect_members local (m ∷ ms) seen =
    let skip = collect_members local ms seen in
    let keep = m ∷ collect_members local ms (m ∷ seen) in
    if not (is_valid m) || m == local || contains m seen then skip else keep

-- `normalizeMembers`
unfoldable pub normalize_members : Addr → List Addr → List Addr
normalize_members local members = sort itself (collect_members local members [])

-- `ruleName`
unfoldable pub rule_name : Text → Role → Proto → PortRange → Text
unfolding spec
rule_name id role proto r =
    codes "Kanpachi: "
    ++ (id
        ++ (codes " "
            ++ (role_text role ++ (codes " " ++ (proto_text proto ++ (codes " " ++ spec r))))))

-- The rule of one protocol of a range.
abbrev pub rule_for : Text → Role → Addr → List Addr → PortRange → Proto → FirewallRule
rule_for id role local remote r proto = record {
  name = rule_name id role proto r;
  proto = proto;
  from = r.from;
  to = r.to;
  local = local;
  remote = remote;
  nets = [];
}

-- The loop of `BuildRuleSet` over the ranges.
unfoldable pub rules_of :
    Text → Role → Addr → List Addr → List PortRange → Result PolicyError (List FirewallRule)
rules_of id role local remote [] = ok []
rules_of id role local remote (r ∷ rs) = elim (hits_forbidden r) [
  | some bad ↦ err (rule_forbidden_port bad id)
  | none ↦ do
    rest ← rules_of id role local remote rs
    ok (map (rule_for id role local remote r) (expand r.proto) ++ rest)
]

-- The ranges that a role opens.
abbrev pub role_ports : GameProfile → Role → List PortRange
role_ports p role = if is_guest role then p.client_ports else p.host_ports

-- `BuildRuleSet`
unfoldable pub build_rule_set : GameProfile → Role → Addr → List Addr → Result PolicyError RuleSet
build_rule_set p role local members =
    if is_zero_profile p
    then ok empty_rules
    else if not (is_valid local)
    then err no_local_address
    else if is_empty (role_ports p role)
    then ok empty_rules
    else if is_empty (normalize_members local members)
    then ok empty_rules
    else do
      rules ← rules_of p.id role local (normalize_members local members) (role_ports p role)
      ok (record { rules = sort rule_key rules })

-- `ControlPort`
abbrev pub control_port : ℕ
control_port = 57623

-- `LobbySpace`, 198.19.0.0/16, as its first 16 bits.
abbrev pub lobby_space : ℕ
lobby_space = 198 * 256 + 19

-- `LobbySpace.Contains`
abbrev pub in_lobby_space : Addr → Bool
in_lobby_space (v4 a) = nat_beq (a / 65536) lobby_space
in_lobby_space _ = false

-- `netip.PrefixFrom(a, RoomPrefixBits).Masked()`
abbrev pub room_prefix : Addr → Prefix
room_prefix (v4 a) = prefix (v4 (a / 256 * 256)) 24
room_prefix a = prefix a 24

-- `controlRulePrefix`
abbrev pub control_rule_prefix : Text
control_rule_prefix = codes "Kanpachi: canal de control "

-- `controlRuleName`
abbrev pub control_rule_name : Text → Text
control_rule_name place = control_rule_prefix ++ place

-- `IsControl`
unfoldable pub is_control : FirewallRule → Bool
is_control r = has_prefix r.name control_rule_prefix

-- The rule of the door: the lobby address, open to its own /24.
abbrev pub door_rule : Addr → FirewallRule
door_rule lobby = record {
  name = control_rule_name (codes "puerta");
  proto = proto_tcp;
  from = control_port;
  to = control_port;
  local = lobby;
  remote = [];
  nets = room_prefix lobby ∷ [];
}

-- The rule of the room: the room address, open to the members that are present.
abbrev pub room_rule : Addr → List Addr → FirewallRule
room_rule room present = record {
  name = control_rule_name (codes "sala");
  proto = proto_tcp;
  from = control_port;
  to = control_port;
  local = room;
  remote = present;
  nets = [];
}

-- The part of `ControlRules` about the room address.
abbrev pub room_rules : Addr → List Addr → List FirewallRule
room_rules room members =
    let present = normalize_members room members in
    if is_valid room && not (is_empty present) then room_rule room present ∷ [] else []

-- `ControlRules`
unfoldable pub control_rules :
    Role → Addr → Addr → List Addr → Result PolicyError (List FirewallRule)
control_rules role lobby room members =
    if not (is_host role)
    then ok []
    else if is_valid lobby
    then (if not (in_lobby_space lobby)
        then err (rule_wide_open lobby)
        else ok (sort rule_key (door_rule lobby ∷ room_rules room members)))
    else ok (sort rule_key (room_rules room members))

-- `GameRules`
unfoldable pub game_rules : RuleSet → List FirewallRule
game_rules rs = filter (λ r. not (is_control r)) rs.rules

-- `MirrorLocal`; `addr_text` is `Addr.String` of `net/netip`.
module _ (addr_text : Addr → Text) where
  -- The loop over the rules.
  unfoldable pub mirrored : Addr → List FirewallRule → List FirewallRule
  mirrored addr [] = []
  mirrored addr (r ∷ rs) =
      let rest = mirrored addr rs in
      let twin = record r { local = addr; name = r.name ++ (codes " -> " ++ addr_text addr) } in
      if r.local == addr then r ∷ rest else r ∷ twin ∷ rest

  unfoldable pub mirror_local : RuleSet → Addr → RuleSet
  mirror_local rs addr =
      if not (is_valid addr) || is_empty rs.rules
      then rs
      else record { rules = sort rule_key (mirrored addr rs.rules) }
