-- ===== src/Addressing.antt =====
-- The choice of the room's /24 (core/domain/addressing.go). The source of random bytes is the list of
-- the 32-bit words that it gives before it fails; of `netip.Prefix.Overlaps` the IPv4 case is here,
-- the only one that the code asks about.
pub mod Search
pub mod Plan
use kanpachi.Base.{
  ℕ, zero, suc, ◌+◌, ◌-◌, ◌*◌, ◌/◌, ◌%◌, ◌^◌, Bool, true, false, not, ◌&&◌, List, [], ◌∷◌, Option,
  none, some, ltb, leb, nat_beq, if◌then◌else◌, find, Result, ok, err,
}
use kanpachi.Net.{Addr, no_addr, v4, v6, Prefix, no_prefix, prefix}

pub data AddressError : Type 0 where
  no_subnet no_random random_unusable : AddressError

-- `SharedSpace`, 100.64.0.0/10, and `FallbackSpace`, 10.99.0.0/16.
abbrev pub shared_space : Prefix
shared_space = prefix (v4 (100 * 16777216 + 64 * 65536)) 10

abbrev pub fallback_space : Prefix
fallback_space = prefix (v4 (10 * 16777216 + 99 * 65536)) 16

-- `RoomPrefixBits`
abbrev pub room_prefix_bits : ℕ
room_prefix_bits = 24

-- `p.IsValid() && p.Addr().Is4()`
abbrev pub is_v4_prefix : Prefix → Bool
is_v4_prefix (prefix (v4 a) bits) = leb bits 32
is_v4_prefix _ = false

abbrev pub bits_of : Prefix → ℕ
bits_of no_prefix = 0
bits_of (prefix a bits) = bits

-- The addresses that share the first bits of one address, by their number.
abbrev pub block_of : ℕ → ℕ → ℕ
block_of bits a = a / 2 ^ (32 - bits)

-- `Overlaps`, on IPv4 prefixes: equal up to the shorter length.
abbrev pub overlaps : Prefix → Prefix → Bool
overlaps (prefix (v4 a) m) (prefix (v4 b) n) =
    let k = if ltb m n then m else n in nat_beq (block_of k a) (block_of k b)
overlaps _ _ = false

-- `firstOverlap`
unfoldable pub first_overlap : List Prefix → Prefix → Option Prefix
first_overlap local want = find (λ p. is_v4_prefix p && overlaps p want) local

-- `LobbyOverlap`
unfoldable pub lobby_overlap : List Prefix → Prefix → Option Prefix
lobby_overlap local lobby =
    find (λ p. is_v4_prefix p && (leb room_prefix_bits (bits_of p) && overlaps p lobby)) local

-- The loop of `randomIndex`, on the tries that are left.
unfoldable pub random_tries : ℕ → ℕ → ℕ → List ℕ → Result AddressError ℕ × List ℕ
random_tries zero limit count words = (err random_unusable, words)
random_tries (suc left) limit count [] = (err no_random, [])
random_tries (suc left) limit count (w ∷ words) =
    let rest = random_tries left limit count words in
    if ltb w limit then (ok (w % count), words) else rest

-- `randomIndex`
unfoldable pub random_index : ℕ → List ℕ → Result AddressError ℕ × List ℕ
random_index count words =
    if nat_beq count 0
    then (err no_subnet, words)
    else random_tries 64 (2 ^ 32 - 2 ^ 32 % count) count words

-- The /24 of an index, on uint32.
abbrev pub candidate : ℕ → ℕ → Prefix
candidate base idx = prefix (v4 ((base + idx * 256) % 2 ^ 32)) room_prefix_bits

abbrev pub is_hit : Option Prefix → Bool
is_hit none = false
is_hit (some p) = true

-- The loop of `pickSubnet`: `left` turns are left, the next one is the `i`-th.
unfoldable pub pick_loop : ℕ → ℕ → ℕ → List Prefix → ℕ → ℕ → Option Prefix
pick_loop base count start local zero i = none
pick_loop base count start local (suc left) i =
    let rest = pick_loop base count start local left (suc i) in
    let c = candidate base ((start + i) % 2 ^ 32 % count) in
    if not (is_hit (first_overlap local c)) then some c else rest

-- How many /24 fit.
abbrev pub count_of : ℕ → ℕ
count_of bits = 2 ^ (24 - bits)

-- What `pickSubnet` does with the answer of `randomIndex`.
unfoldable pub pick_from : ℕ → ℕ → List Prefix → Result AddressError ℕ → Result AddressError Prefix
pick_from base count local (err e) = err e
pick_from base count local (ok start) = elim (pick_loop base count start local count 0) [
  | none ↦ err no_subnet
  | some p ↦ ok p
]

-- `pickSubnet`, with the words that are left.
unfoldable pub pick_subnet : Prefix → List Prefix → List ℕ → Result AddressError Prefix × List ℕ
pick_subnet (prefix (v4 base) bits) local words =
    let (index, rest) = random_index (count_of bits) words in
    if ltb room_prefix_bits bits
    then (err no_subnet, words)
    else (pick_from base (count_of bits) local index, rest)
pick_subnet _ local words = (err no_subnet, words)

-- The three reasons, without their wording.
pub data PlanReason : Type 0 where
  shared_in_use : Prefix → PlanReason
  shared_full no_conflict : PlanReason

pub record AddressPlan : Type 0 where
  pub subnet : Prefix
  pub reason : PlanReason

abbrev pub planned : PlanReason → Result AddressError Prefix → Result AddressError AddressPlan
planned why (err e) = err e
planned why (ok p) = ok (record { subnet = p; reason = why })

-- `PlanAddresses`
unfoldable pub plan_addresses : List Prefix → List ℕ → Result AddressError AddressPlan
plan_addresses local words = elim (first_overlap local shared_space) [
  | some p ↦ planned (shared_in_use p) (pick_subnet fallback_space local words).0
  | none ↦
      let (picked, rest) = pick_subnet shared_space local words in
      elim picked [
        | ok p ↦ planned no_conflict (ok p)
        | err e ↦ planned shared_full (pick_subnet fallback_space local rest).0
      ]
]

-- `Addr.Next`: the zero address after the last one.
abbrev pub next : Addr → Addr
next no_addr = no_addr
next (v4 a) = if leb (2 ^ 32) (a + 1) then no_addr else v4 (a + 1)
next (v6 a zone) = if leb (2 ^ 128) (a + 1) then no_addr else v6 (a + 1) zone

-- `HostAddress`
abbrev pub host_address : Prefix → Addr
host_address no_prefix = no_addr
host_address (prefix a bits) = next a
