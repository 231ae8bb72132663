-- ===== src/Probe.antt =====
-- The probe of the room's exposure (core/domain/probe.go).
pub mod Verdicts
use kanpachi.Base.{
  ℕ, Bool, true, false, ◌&&◌, ◌||◌, List, [], ◌∷◌, Option, none, some, nat_beq, if◌then◌else◌, Text,
  codes, filter, store, nat_eq, sort, nat_order, is_empty,
}
use kanpachi.Net.{Time, is_zero, Addr}
use kanpachi.Ports.{Proto, proto_beq, proto_tcp, proto_both, PortRange}
use kanpachi.Profile.{GameProfile}
use kanpachi.Policy.{control_port}
use kanpachi.Members.{Nickname}

pub data ProbeKind : Type 0 where
  reference forbidden game : ProbeKind

pub data ProbeOutcome : Type 0 where
  answered refused silent failed : ProbeOutcome

-- `Reached`
abbrev pub reached : ProbeOutcome → Bool
reached answered = true
reached refused = true
reached silent = false
reached failed = false

pub record ProbeTarget : Type 0 where
  pub port : ℕ
  pub kind : ProbeKind
  pub label : Text

pub record ProbeResult : Type 0 where
  pub target : ProbeTarget
  pub outcome : ProbeOutcome
  pub rtt : ℕ

pub data ProbeVerdict : Type 0 where
  blind leaky unreachable sealed : ProbeVerdict

pub record ProbeReport : Type 0 where
  pub target : Addr
  pub name : Nickname
  pub measured_at : Time
  pub results : List ProbeResult

abbrev pub is_forbidden_kind : ProbeKind → Bool
is_forbidden_kind forbidden = true
is_forbidden_kind _ = false

abbrev pub is_reference_kind : ProbeKind → Bool
is_reference_kind reference = true
is_reference_kind _ = false

-- The loop of `Verdict`; `seen` is its variable `reference`.
unfoldable pub judge : List ProbeResult → Bool → ProbeVerdict
judge [] seen = if seen then sealed else unreachable
judge (r ∷ rs) seen =
    let rest = judge rs (seen || (is_reference_kind r.target.kind && reached r.outcome)) in
    if is_forbidden_kind r.target.kind && reached r.outcome then leaky else rest

-- `Verdict`
unfoldable pub verdict : ProbeReport → ProbeVerdict
verdict r = if is_zero r.measured_at then blind else judge r.results false

-- `Leaks`
unfoldable pub leaks : ProbeReport → List ProbeResult
leaks r = filter (λ x. is_forbidden_kind x.target.kind && reached x.outcome) r.results

-- `forbiddenProbeLabels`, the entries that have a label.
abbrev pub forbidden_probe_labels : List (ℕ × Text)
forbidden_probe_labels =
    (22, codes "SSH")
    ∷ (135, codes "RPC de Windows")
    ∷ (139, codes "NetBIOS")
    ∷ (445, codes "compartir archivos (SMB)")
    ∷ (3389, codes "Escritorio remoto")
    ∷ (5357, codes "descubrimiento de dispositivos")
    ∷ (5358, codes "descubrimiento de dispositivos")
    ∷ (5985, codes "administración remota (WinRM)")
    ∷ (5986, codes "administración remota (WinRM)")
    ∷ []

-- `remoteAccessProbePorts`
abbrev pub remote_access_probe_ports : List (ℕ × Text)
remote_access_probe_ports =
    (4000, codes "NoMachine")
    ∷ (5900, codes "VNC")
    ∷ (5938, codes "TeamViewer")
    ∷ (7070, codes "AnyDesk")
    ∷ (21116, codes "RustDesk")
    ∷ (21118, codes "RustDesk")
    ∷ (47984, codes "Sunshine")
    ∷ (47989, codes "Sunshine")
    ∷ (48010, codes "Sunshine")
    ∷ []

-- `byPort[port] = …`
abbrev pub put : ProbeTarget → List (ℕ × ProbeTarget) → List (ℕ × ProbeTarget)
put t m = store t.port t m

-- The loops over the two tables of labels.
abbrev pub put_labels : List (ℕ × Text) → List (ℕ × ProbeTarget) → List (ℕ × ProbeTarget)
put_labels [] m = m
put_labels ((port, label) ∷ ls) m =
    put_labels ls (put (record { port = port; kind = forbidden; label = label }) m)

-- The forbidden ports that have a label, and those of remote access.
unfoldable pub labelled : List (ℕ × ProbeTarget)
labelled = put_labels remote_access_probe_ports (put_labels forbidden_probe_labels [])

-- The loop over the ranges of the host.
unfoldable pub put_game : Text → List PortRange → List (ℕ × ProbeTarget) → List (ℕ × ProbeTarget)
put_game name [] m = m
put_game name (r ∷ rs) m = put_game name rs (
    if proto_beq r.proto proto_tcp || proto_beq r.proto proto_both
    then put (record { port = r.from; kind = game; label = name }) m
    else m)

abbrev pub targets : List (ℕ × ProbeTarget) → List ProbeTarget
targets [] = []
targets ((p, t) ∷ m) = t ∷ targets m

abbrev pub target_port : ProbeTarget → ℕ
target_port t = t.port

-- The target of the room's channel.
abbrev pub channel_target : ProbeTarget
channel_target = record {
  port = control_port;
  kind = reference;
  label = codes "el canal de la sala";
}

-- `byPort`, filled.
unfoldable pub by_port : GameProfile → List (ℕ × ProbeTarget)
by_port g = put channel_target (put_game g.name g.host_ports labelled)

-- `ProbeTargets`
unfoldable pub probe_targets : GameProfile → List ProbeTarget
probe_targets g = sort target_port (targets (by_port g))
