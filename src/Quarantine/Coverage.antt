-- ===== src/Quarantine/Coverage.antt =====
-- What the quarantine blocks (core/domain/quarantine.go).
use kanpachi.Base.{
  ℕ, ◌≤◌, ◌<◌, ◌*◌, Bool, true, false, not, ◌&&◌, ◌≡◌, ◌↔◌, refl, List, [], ◌∷◌, arith, nat_beq,
  contains, any, filter, length, nat_eq, ◌∙◌, ap,
}
use kanpachi.Ports.{
  Proto, proto_tcp, proto_udp, proto_both, proto_unset, proto_beq, forbidden_ports,
}
use kanpachi.Quarantine.{
  QuarantineRule, QuarantineSystem, windows, linux, ssh_port, quarantine_ports_for, blocks,
  base_quarantine_for, measured_quarantine, absent, applied,
}

-- The test for a rule that blocks one port, protocol and direction, and no other port.
abbrev pub is_block : ℕ → Proto → Bool → QuarantineRule → Bool
is_block port proto true r =
    nat_beq r.from port && nat_beq r.to port && proto_beq r.proto proto && r.inbound
is_block port proto false r =
    nat_beq r.from port && nat_beq r.to port && proto_beq r.proto proto && not r.inbound

-- TCP or UDP.
abbrev pub is_single : Proto → Bool
is_single proto_tcp = true
is_single proto_udp = true
is_single _ = false

any-blocks :
    (port : ℕ) (proto : Proto) (inbound : Bool) (ports : List ℕ)
    → any (is_block port proto inbound) (blocks ports) ≡ (is_single proto && contains port ports)
any-blocks port proto_unset true [] = refl
any-blocks port proto_unset false [] = refl
any-blocks port proto_tcp true [] = refl
any-blocks port proto_tcp false [] = refl
any-blocks port proto_udp true [] = refl
any-blocks port proto_udp false [] = refl
any-blocks port proto_both true [] = refl
any-blocks port proto_both false [] = refl
any-blocks port proto inbound (p ∷ ps) = ground (arith, any-blocks port proto inbound ps)

contains-filter :
    (port : ℕ) (ps : List ℕ)
    → contains port (filter (λ p. not (nat_beq p ssh_port)) ps)
      ≡ (not (nat_beq port ssh_port) && contains port ps)
contains-filter port [] = ground arith
contains-filter port (p ∷ ps) = ground (arith, contains-filter port ps)

-- Windows blocks each forbidden port over TCP and UDP in both directions, and nothing else; Linux
-- blocks the same but port 22.
pub base_quarantine_for_lem :
    (port : ℕ) (proto : Proto) (inbound : Bool)
    → (any (is_block port proto inbound) (base_quarantine_for windows)
        ≡ (is_single proto && contains port forbidden_ports))
      × (any (is_block port proto inbound) (base_quarantine_for linux)
          ≡ (is_single proto && (not (nat_beq port ssh_port) && contains port forbidden_ports)))
unfolding base_quarantine_for quarantine_ports_for
base_quarantine_for_lem port proto inbound = (
  any-blocks port proto inbound forbidden_ports,
  any-blocks port proto inbound (quarantine_ports_for linux)
      ∙ ap (λ b. is_single proto && b) (contains-filter port forbidden_ports),
)

length-blocks : (ps : List ℕ) → length (blocks ps) ≡ 4 * length ps
length-blocks [] = omega arith
length-blocks (p ∷ ps) = omega (arith, length-blocks ps)

many : (sys : QuarantineSystem) → 10 < length (quarantine_ports_for sys)
unfolding quarantine_ports_for
many windows = omega arith
many linux = omega arith

-- The measured verdict is applied exactly if nothing is missing, disabled or changed, and absent
-- exactly if at least as many rules are missing as there are: four for each port, more than forty.
pub measured_quarantine_lem :
    (sys : QuarantineSystem) (missing disabled drifted : ℕ)
    → let q = measured_quarantine sys missing disabled drifted in
      ((q.verdict ≡ applied) ↔ ((missing ≡ 0) × (disabled ≡ 0) × (drifted ≡ 0)))
      × ((q.verdict ≡ absent) ↔ (q.total ≤ missing))
      × (q.total ≡ 4 * length (quarantine_ports_for sys))
      × (40 < q.total)
unfolding measured_quarantine base_quarantine_for
measured_quarantine_lem sys missing disabled drifted =
    let n = length-blocks (quarantine_ports_for sys) in
    let b = many sys in
    (
      (
        λ h. (ground (arith, n, b), ground (arith, n, b), ground (arith, n, b)),
        λ h. ground (arith, n, b),
      ),
      (λ h. ground arith, λ h. ground arith),
      n,
      omega (arith, n, b),
    )
