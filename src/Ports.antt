-- ===== src/Ports.antt =====
-- Ports and protocols of a game profile (core/domain/gameprofile.go).
use kanpachi.Base.{
  ℕ, Bool, true, ◌&&◌, ◌≡◌, ◌↔◌, List, [], ◌∷◌, Option, arith, leb, nat_beq, Eq, find,
}

-- `Proto`, a uint8 of values 1 to 3; `proto_unset` is its zero value.
pub data Proto : Type 0 where
  proto_unset proto_tcp proto_udp proto_both : Proto

-- The uint8 behind a `Proto`.
abbrev pub proto_code : Proto → ℕ
proto_code proto_unset = 0
proto_code proto_tcp = 1
proto_code proto_udp = 2
proto_code proto_both = 3

abbrev pub proto_beq : Proto → Proto → Bool
proto_beq p q = nat_beq (proto_code p) (proto_code q)

pub proto_beq_iff : (p q : Proto) → (proto_beq p q ≡ true) ↔ (p ≡ q)
proto_beq_iff p q = ground arith

instance abbrev pub proto_eq : Eq Proto
proto_eq = record { equal = proto_beq; equal_iff = proto_beq_iff }

-- `PortRange`; the two ends are uint16.
pub record PortRange : Type 0 where
  pub proto : Proto
  pub from : ℕ
  pub to : ℕ

-- `forbiddenPorts`
abbrev pub forbidden_ports : List ℕ
forbidden_ports = 22 ∷ 135 ∷ 137 ∷ 138 ∷ 139 ∷ 445 ∷ 3389 ∷ 3702 ∷ 5357 ∷ 5358 ∷ 5985 ∷ 5986 ∷ []

-- `hitsForbidden`: the first forbidden port inside the range.
unfoldable pub hits_forbidden : PortRange → Option ℕ
hits_forbidden r = find (λ p. leb r.from p && leb p r.to) forbidden_ports

-- `expand`
abbrev pub expand : Proto → List Proto
expand proto_both = proto_tcp ∷ proto_udp ∷ []
expand proto_unset = proto_unset ∷ []
expand proto_tcp = proto_tcp ∷ []
expand proto_udp = proto_udp ∷ []
