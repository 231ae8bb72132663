-- ===== src/Validation/Accepted.antt =====
-- What an accepted profile is, and that the firewall policy never refuses one
-- (core/domain/gameprofile.go, core/domain/policy.go).
use kanpachi.Base.{
  ℕ, ◌+◌, ◌≤◌, ◌≢◌, true, false, ◌&&◌, ◌≡◌, refl, List, [], ◌∷◌, ◌++◌, Option, none, some, arith,
  leb, ok, is_empty, length, All, All-map, any, Bool-cases, Option-cases, inl, inr,
}
use kanpachi.Net.{Addr, is_valid}
use kanpachi.Ports.{PortRange, hits_forbidden, proto_code}
use kanpachi.Profile.{GameProfile, is_zero_profile}
use kanpachi.Policy.{Role, RuleSet, build_rule_set, normalize_members, allows, role_ports, is_guest}
use kanpachi.Policy.Safety.{build_rule_set-allows}
use kanpachi.Validation.{
  check_ranges, check_head, ProfileError, and_then, accept, validate, new_game_profile,
  is_valid_profile_id,
}

-- A range has a protocol, starts above 0, does not end before it starts, and holds no forbidden port.
pub record IsSound (r : PortRange) : Type 0 where
  pub has_proto : proto_code r.proto ≢ 0
  pub from_one : 1 ≤ r.from
  pub ordered : r.from ≤ r.to
  pub allowed : hits_forbidden r ≡ none

check_ranges_lem :
    (rs : List PortRange)
    → ((check_ranges rs ≡ none) → All IsSound rs) × (All IsSound rs → check_ranges rs ≡ none)
unfolding check_ranges
check_ranges_lem [] = (λ h. tt, λ h. refl)
check_ranges_lem (r ∷ rs) = elim (Option-cases (hits_forbidden r)) [
  | inr (bad, e) ↦
      (λ h. absurd (ground (arith, e, h)), λ (i, is). absurd (ground (arith, e, i.allowed)))
  | inl e ↦ (
    λ h. (
      record {
        has_proto = ground (arith, h);
        from_one = ground (arith, h);
        ordered = ground (arith, h);
        allowed = e;
      },
      (check_ranges_lem rs).0 (ground (arith, e, h)),
    ),
    λ (i, is). ground (arith, e, i.has_proto, i.from_one, i.ordered, (check_ranges_lem rs).1 is),
  )
]

-- What an accepted profile is.
pub record IsAccepted (p : GameProfile) : Type 0 where
  pub has_id : is_valid_profile_id p.id ≡ true
  pub has_port : 1 ≤ length p.host_ports + length p.client_ports
  pub few_ranges : length p.host_ports + length p.client_ports ≤ 8
  pub sound : All IsSound (p.host_ports ++ p.client_ports)

is_empty-length : (rs : List PortRange) → is_empty rs ≡ false → 1 ≤ length rs
is_empty-length [] h = cc
is_empty-length (r ∷ rs) h = omega arith

check_head-none :
    (p : GameProfile)
    → check_head p ≡ none
    → (is_valid_profile_id p.id ≡ true)
      × (1 ≤ length p.host_ports + length p.client_ports)
      × (length p.host_ports + length p.client_ports ≤ 8)
check_head-none p h = (
  ground (arith, h),
  ground (arith, h, is_empty-length p.host_ports, is_empty-length p.client_ports),
  ground (arith, h),
)

and_then-none : (a b : Option ProfileError) → and_then a b ≡ none → (a ≡ none) × (b ≡ none)
and_then-none none b h = (refl, h)
and_then-none (some e) b h = cc

validate-parts :
    (p : GameProfile)
    → validate p ≡ none
    → (check_head p ≡ none) × (check_ranges (p.host_ports ++ p.client_ports) ≡ none)
unfolding validate
validate-parts p h =
    let (head, rest) = and_then-none (check_head p) _ h in
    (head, (and_then-none (check_ranges (p.host_ports ++ p.client_ports)) _ rest).0)

accept-ok : (p q : GameProfile) (o : Option ProfileError) → accept p o ≡ ok q → (q ≡ p) × (o ≡ none)
accept-ok p q none h = (ground (arith, h), refl)
accept-ok p q (some e) h = cc

-- A profile that is accepted is kept as it is, has an ID and one to eight ranges, and each of these
-- has a protocol, starts above port 0, does not end before it starts, and holds no forbidden port.
pub new_game_profile-IsAccepted :
    (p q : GameProfile) → new_game_profile p ≡ ok q → (q ≡ p) × IsAccepted p
new_game_profile-IsAccepted p q h =
    let (same, v) = accept-ok p q (validate p) h in
    let (head, ranges) = validate-parts p v in
    let (i, n, m) = check_head-none p head in
    (
      same,
      record {
        has_id = i;
        has_port = n;
        few_ranges = m;
        sound = (check_ranges_lem (p.host_ports ++ p.client_ports)).0 ranges;
      },
    )

All-split : (rs ss : List PortRange) → All IsSound (rs ++ ss) → All IsSound rs × All IsSound ss
All-split [] ss h = (tt, h)
All-split (r ∷ rs) ss (i, is) = let (a, b) = All-split rs ss is in ((i, a), b)

valid_id-nonempty : (p : GameProfile) → is_valid_profile_id p.id ≡ true → is_zero_profile p ≡ false
unfolding is_valid_profile_id
valid_id-nonempty p h = ground (arith, h)

role_ports-IsSound :
    (p : GameProfile) (role : Role) → IsAccepted p → All IsSound (role_ports p role)
role_ports-IsSound p role a =
    let (hosts, clients) = All-split p.host_ports p.client_ports a.sound in
    elim (Bool-cases (is_guest role)) [ inl e ↦ rw e clients | inr e ↦ rw e hosts ]

-- The firewall policy never refuses a profile that was accepted: with an address of this machine and
-- another member, it gives rules, and they leave exactly the ports of the role's ranges reachable.
pub build_rule_set-new_game_profile :
    (p q : GameProfile) (role : Role) (local : Addr) (members : List Addr)
    → new_game_profile p ≡ ok q
    → is_valid local ≡ true
    → is_empty (normalize_members local members) ≡ false
    → (rs : RuleSet) × (build_rule_set p role local members ≡ ok rs)
      × ((port : ℕ)
          → allows rs port ≡ any (λ r. leb r.from port && leb port r.to) (role_ports p role))
build_rule_set-new_game_profile p q role local members h v n =
    let (same, a) = new_game_profile-IsAccepted p q h in
    build_rule_set-allows p role local members (valid_id-nonempty p a.has_id) v n (
      All-map IsSound (λ r. hits_forbidden r ≡ none) (λ r i. i.allowed) (role_ports p role)
        (role_ports-IsSound p role a))
