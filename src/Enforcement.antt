-- ===== src/Enforcement.antt =====
-- What the firewall holds against what it should (core/domain/enforcement.go), and the report of what
-- is exposed (core/domain/exposurereport.go).
pub mod Drift
pub mod Exposure
use kanpachi.Base.{
  ℕ, Bool, true, false, not, ◌&&◌, ◌||◌, List, [], ◌∷◌, Option, none, some, if◌then◌else◌, ◌==◌,
  text_eq, text_order, Text, lookup, store, keys, contains, sort, itself, map, is_empty,
}
use kanpachi.Net.{Time, is_zero, Addr, Prefix}
use kanpachi.Ports.{Proto}
use kanpachi.Policy.{FirewallRule, RuleSet, is_control}

pub data EnforcementLayer : Type 0 where
  firewall_rules packet_filter : EnforcementLayer

pub record AppliedRule : Type 0 where
  pub name : Text
  pub layer : EnforcementLayer
  pub enabled : Bool

pub data GateState : Type 0 where
  gate_unknown gate_absent gate_present : GateState

pub record Enforcement : Type 0 where
  pub rules : List AppliedRule
  pub gate : GateState

pub record EnforcementDiff : Type 0 where
  pub missing : List Text
  pub extra : List Text
  pub gate_missing : Bool
  pub gate_unchecked : Bool

-- `Intact`
abbrev pub is_intact : EnforcementDiff → Bool
is_intact d = is_empty d.missing && is_empty d.extra && not d.gate_missing

abbrev pub is_firewall : EnforcementLayer → Bool
is_firewall firewall_rules = true
is_firewall packet_filter = false

-- `puestas[name]`, false where the key is missing.
abbrev pub is_on : Option Bool → Bool
is_on none = false
is_on (some b) = b

-- The loop that fills `puestas`.
unfoldable pub applied_names : List AppliedRule → List (Text × Bool) → List (Text × Bool)
applied_names [] m = m
applied_names (r ∷ rs) m = applied_names rs (
    if not (is_firewall r.layer)
    then m
    else if r.enabled
    then store r.name true m
    else elim (lookup r.name m) [ some b ↦ m | none ↦ store r.name false m ])

-- The loop over the wanted rules.
unfoldable pub missing_names : List FirewallRule → List (Text × Bool) → List Text
missing_names [] m = []
missing_names (r ∷ rs) m =
    let rest = missing_names rs m in if not (is_on (lookup r.name m)) then r.name ∷ rest else rest

-- `quiere`
abbrev pub wanted_names : List FirewallRule → List Text
wanted_names [] = []
wanted_names (r ∷ rs) = r.name ∷ wanted_names rs

-- The loop over the keys of `puestas`.
unfoldable pub extra_names : List Text → List Text → List Text
extra_names [] wanted = []
extra_names (n ∷ ns) wanted =
    let rest = extra_names ns wanted in if not (contains n wanted) then n ∷ rest else rest

abbrev pub is_gate_unknown : GateState → Bool
is_gate_unknown gate_unknown = true
is_gate_unknown _ = false

abbrev pub is_gate_absent : GateState → Bool
is_gate_absent gate_absent = true
is_gate_absent _ = false

-- `Diff`
unfoldable pub diff : Enforcement → RuleSet → Bool → EnforcementDiff
diff e desired want_gate =
    let applied = applied_names e.rules [] in
    record {
      missing = sort itself (missing_names desired.rules applied);
      extra = sort itself (extra_names (keys applied) (wanted_names desired.rules));
      gate_missing = want_gate && is_gate_absent e.gate;
      gate_unchecked = want_gate && is_gate_unknown e.gate;
    }

pub record ExposedPort : Type 0 where
  pub name : Text
  pub proto : Proto
  pub from : ℕ
  pub to : ℕ
  pub members : List Addr
  pub nets : List Prefix
  pub is_applied : Bool
  pub control : Bool

pub record ExposureReport : Type 0 where
  pub measured_at : Time
  pub ports : List ExposedPort
  pub gate : GateState
  pub unexpected : List Text

-- `BlindExposure`
abbrev pub blind_exposure : ExposureReport
blind_exposure = record { measured_at = 0; ports = []; gate = gate_unknown; unexpected = [] }

-- `ExposureReport.Blind`
abbrev pub is_blind : ExposureReport → Bool
is_blind r = is_zero r.measured_at

-- One turn of the loop over the wanted rules; `absent` is the map `falta`.
abbrev pub exposed : List Text → FirewallRule → ExposedPort
exposed absent r = record {
  name = r.name;
  proto = r.proto;
  from = r.from;
  to = r.to;
  members = r.remote;
  nets = r.nets;
  is_applied = not (contains r.name absent);
  control = is_control r;
}

abbrev pub port_name : ExposedPort → Text
port_name p = p.name

-- `NewExposureReport`
unfoldable pub new_exposure_report : RuleSet → Enforcement → Bool → Time → ExposureReport
new_exposure_report desired e want_gate at =
    let d = diff e desired want_gate in
    if is_zero at then blind_exposure else record {
      measured_at = at;
      ports = sort port_name (map (exposed d.missing) desired.rules);
      gate = e.gate;
      unexpected = d.extra;
    }
