-- ===== src/Quarantine.antt =====
-- The base quarantine: the blocks on the forbidden ports (core/domain/quarantine.go).
pub mod Coverage
use kanpachi.Base.{
  ℕ, ◌*◌, Bool, true, false, ◌&&◌, List, [], ◌∷◌, ◌++◌, Text, codes, decimal, leb, nat_beq, not,
  filter, length, if◌then◌else◌,
}
use kanpachi.Ports.{Proto, proto_tcp, proto_udp, proto_beq, forbidden_ports}

pub record QuarantineRule : Type 0 where
  pub name : Text
  pub proto : Proto
  pub from : ℕ
  pub to : ℕ
  pub inbound : Bool

-- `QuarantineSystem`; values that are neither are treated as Windows.
pub data QuarantineSystem : Type 0 where
  windows linux : QuarantineSystem

-- `sshPort`
abbrev pub ssh_port : ℕ
ssh_port = 22

-- `quarantinePortsFor`
unfoldable pub quarantine_ports_for : QuarantineSystem → List ℕ
quarantine_ports_for linux = filter (λ p. not (nat_beq p ssh_port)) forbidden_ports
quarantine_ports_for windows = forbidden_ports

-- `quarantineName`
unfoldable pub quarantine_name : Proto → ℕ → Bool → Text
quarantine_name p port inbound =
    codes "Kanpachi-base: bloqueo "
    ++ ((if inbound then codes "entrante" else codes "saliente")
        ++ (codes " "
            ++ ((if proto_beq p proto_udp then codes "UDP" else codes "TCP")
                ++ (codes " " ++ decimal port))))

-- One rule of the quarantine.
abbrev pub block : ℕ → Proto → Bool → QuarantineRule
block port proto inbound = record {
  name = quarantine_name proto port inbound;
  proto = proto;
  from = port;
  to = port;
  inbound = inbound;
}

-- The three loops of `BaseQuarantineFor`, over ports, protocols and directions.
abbrev pub blocks : List ℕ → List QuarantineRule
blocks [] = []
blocks (port ∷ ports) =
    block port proto_tcp true
    ∷ block port proto_tcp false
    ∷ block port proto_udp true
    ∷ block port proto_udp false
    ∷ blocks ports

-- `BaseQuarantineFor`
unfoldable pub base_quarantine_for : QuarantineSystem → List QuarantineRule
base_quarantine_for sys = blocks (quarantine_ports_for sys)

pub data QuarantineDecision : Type 0 where
  undecided accepted declined : QuarantineDecision

pub data QuarantineVerdict : Type 0 where
  unknown absent partial applied : QuarantineVerdict

pub record QuarantineState : Type 0 where
  pub verdict : QuarantineVerdict
  pub ports : List ℕ
  pub total : ℕ
  pub missing : ℕ
  pub disabled : ℕ
  pub drifted : ℕ

abbrev pub no_quarantine : QuarantineState
no_quarantine = record {
  verdict = unknown;
  ports = [];
  total = 0;
  missing = 0;
  disabled = 0;
  drifted = 0;
}

-- `MeasuredQuarantine`, on counts that are not negative.
unfoldable pub measured_quarantine : QuarantineSystem → ℕ → ℕ → ℕ → QuarantineState
measured_quarantine sys missing disabled drifted =
    let total = length (base_quarantine_for sys) in
    record {
      verdict =
          if leb total missing
          then absent
          else if nat_beq missing 0 && nat_beq disabled 0 && nat_beq drifted 0
          then applied
          else partial;
      ports = quarantine_ports_for sys;
      total = total;
      missing = missing;
      disabled = disabled;
      drifted = drifted;
    }
