-- ===== src/Validation.antt =====
-- The check that every game profile passes (core/domain/gameprofile.go, `NewGameProfile` and
-- `validate`). An ID with a code point outside ASCII is refused here as its bytes are there.
pub mod Accepted
use kanpachi.Base.{
  ℕ, ◌+◌, Bool, true, false, not, ◌&&◌, ◌||◌, List, [], ◌∷◌, ◌++◌, Option, none, some, ltb, nat_beq,
  if◌then◌else◌, Result, ok, err, Text, size, trim_space, is_lower, is_digit, is_empty, all, length,
}
use kanpachi.Ports.{Proto, proto_code, PortRange, hits_forbidden}
use kanpachi.Profile.{origin_is_unset, connect_is_unset, GameProfile}

pub data ProfileError : Type 0 where
  bad_id bad_name no_origin no_ports too_many_ranges port_range_shape no_connect_hint : ProfileError
  port_forbidden : ℕ → ProfileError

-- `MaxPortRanges`
abbrev pub max_port_ranges : ℕ
max_port_ranges = 8

-- `s[0] == '-'` and `s[len(s)-1] == '-'`
abbrev pub starts_with_dash : Text → Bool
starts_with_dash [] = false
starts_with_dash (c ∷ s) = nat_beq c b'-'

abbrev pub ends_with_dash : Text → Bool
ends_with_dash [] = false
ends_with_dash (c ∷ []) = nat_beq c b'-'
ends_with_dash (c ∷ d ∷ s) = ends_with_dash (d ∷ s)

-- `validProfileID`
unfoldable pub is_valid_profile_id : Text → Bool
is_valid_profile_id s =
    if is_empty s || ltb 64 (size s)
    then false
    else if starts_with_dash s || ends_with_dash s
    then false
    else all (λ c. is_lower c || is_digit c || nat_beq c b'-') s

-- `r.Proto == 0 || r.From == 0 || r.To < r.From`
abbrev pub is_misshapen : PortRange → Bool
is_misshapen r = nat_beq (proto_code r.proto) 0 || nat_beq r.from 0 || ltb r.to r.from

-- The loop of `validate`; `none` is its end.
unfoldable pub check_ranges : List PortRange → Option ProfileError
check_ranges [] = none
check_ranges (r ∷ rs) =
    let rest = check_ranges rs in
    if is_misshapen r
    then some port_range_shape
    else elim (hits_forbidden r) [ some bad ↦ some (port_forbidden bad) | none ↦ rest ]

-- The checks before and after the loop.
abbrev pub check_head : GameProfile → Option ProfileError
check_head p =
    if not (is_valid_profile_id p.id)
    then some bad_id
    else if is_empty (trim_space p.name)
    then some bad_name
    else if origin_is_unset p.origin
    then some no_origin
    else if is_empty p.host_ports && is_empty p.client_ports
    then some no_ports
    else if ltb max_port_ranges (length p.host_ports + length p.client_ports)
    then some too_many_ranges
    else none

-- A check that comes after another, which returns at its own error.
abbrev pub and_then : Option ProfileError → Option ProfileError → Option ProfileError
and_then (some e) next = some e
and_then none next = next

-- `validate`; `none` is the nil error.
unfoldable pub validate : GameProfile → Option ProfileError
validate p = and_then (check_head p) (
    and_then (check_ranges (p.host_ports ++ p.client_ports))
      (if connect_is_unset p.connect.kind then some no_connect_hint else none))

abbrev pub accept : GameProfile → Option ProfileError → Result ProfileError GameProfile
accept p (some e) = err e
accept p none = ok p

-- `NewGameProfile`
abbrev pub new_game_profile : GameProfile → Result ProfileError GameProfile
new_game_profile p = accept p (validate p)
