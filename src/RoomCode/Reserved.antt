-- ===== src/RoomCode/Reserved.antt =====
-- The addresses that a seed may not have (core/domain/room.go): `CheckSeedAddr`.
use kanpachi.Base.{
  ℕ, ◌+◌, ◌-◌, ◌*◌, ◌/◌, ◌^◌, ◌<◌, Bool, true, false, not, ◌&&◌, ◌||◌, ◌≡◌, List, [], ◌∷◌, arith,
  nat_beq, if◌then◌else◌, Text, any, ap, Bool-cases, inl, inr,
}
use kanpachi.Net.{Addr, no_addr, v4, v6}
use kanpachi.Addressing.{shared_space, fallback_space}
use kanpachi.Session.{prefix_contains}

-- The prefixes of `reservados`: a value and the bits after the prefix.
abbrev pub reserved_v4 : List (ℕ × ℕ)
reserved_v4 =
    (0, 24)
    ∷ (10 * 2 ^ 24, 24)
    ∷ (100 * 2 ^ 24 + 64 * 2 ^ 16, 22)
    ∷ (127 * 2 ^ 24, 24)
    ∷ (169 * 2 ^ 24 + 254 * 2 ^ 16, 16)
    ∷ (172 * 2 ^ 24 + 16 * 2 ^ 16, 20)
    ∷ (192 * 2 ^ 24, 8)
    ∷ (192 * 2 ^ 24 + 2 * 2 ^ 8, 8)
    ∷ (192 * 2 ^ 24 + 88 * 2 ^ 16 + 99 * 2 ^ 8, 8)
    ∷ (192 * 2 ^ 24 + 168 * 2 ^ 16, 16)
    ∷ (198 * 2 ^ 24 + 18 * 2 ^ 16, 17)
    ∷ (198 * 2 ^ 24 + 51 * 2 ^ 16 + 100 * 2 ^ 8, 8)
    ∷ (203 * 2 ^ 24 + 113 * 2 ^ 8, 8)
    ∷ (240 * 2 ^ 24, 28)
    ∷ []

abbrev pub reserved_v6 : List (ℕ × ℕ)
reserved_v6 =
    (1, 0)
    ∷ (0xfc00 * 2 ^ 112, 121)
    ∷ (0xfe80 * 2 ^ 112, 118)
    ∷ (0xfec0 * 2 ^ 112, 118)
    ∷ (0x100 * 2 ^ 112, 64)
    ∷ (0x2001 * 2 ^ 112 + 0xdb8 * 2 ^ 96, 96)
    ∷ (0x3fff * 2 ^ 112, 108)
    ∷ (0x5f00 * 2 ^ 112, 112)
    ∷ (0, 32)
    ∷ (0x64 * 2 ^ 112 + 0xff9b * 2 ^ 96, 32)
    ∷ (0x64 * 2 ^ 112 + 0xff9b * 2 ^ 96 + 2 ^ 80, 80)
    ∷ (0x2002 * 2 ^ 112, 112)
    ∷ (0x2001 * 2 ^ 112, 105)
    ∷ []

-- `netip.Prefix.Contains` on the value of an address of the same length.
abbrev pub in_block : ℕ → ℕ × ℕ → Bool
in_block a (p, rest) = nat_beq (a / 2 ^ rest) (p / 2 ^ rest)

-- `a.Unmap().WithZone("")`
unfoldable pub unmapped : Addr → Addr
unmapped no_addr = no_addr
unmapped (v4 a) = v4 a
unmapped (v6 a z) = if nat_beq (a / 2 ^ 32) 0xffff then v4 (a - 0xffff * 2 ^ 32) else v6 a []

-- `IsMulticast() || IsUnspecified() || IsLoopback() || IsLinkLocalUnicast()`
unfoldable pub is_special : Addr → Bool
is_special no_addr = false
is_special (v4 a) =
    in_block a (224 * 2 ^ 24, 28)
    || nat_beq a 0
    || in_block a (127 * 2 ^ 24, 24)
    || in_block a (169 * 2 ^ 24 + 254 * 2 ^ 16, 16)
is_special (v6 a z) =
    in_block a (0xff00 * 2 ^ 112, 120)
    || nat_beq a 0
    || nat_beq a 1
    || in_block a (0xfe80 * 2 ^ 112, 118)

unfoldable pub is_reserved : Addr → Bool
is_reserved no_addr = false
is_reserved (v4 a) = any (in_block a) reserved_v4
is_reserved (v6 a z) = any (in_block a) reserved_v6

-- `CheckSeedAddr`: whether the address passes.
unfoldable pub passes_seed_check : Addr → Bool
passes_seed_check no_addr = false
passes_seed_check (v4 a) = not (is_special (unmapped (v4 a))) && not (is_reserved (unmapped (v4 a)))
passes_seed_check (v6 a z) =
    not (is_special (unmapped (v6 a z))) && not (is_reserved (unmapped (v6 a z)))

unmapped-mapped :
    (n : ℕ) (zone : Text) → n < 2 ^ 32 → unmapped (v6 (0xffff * 2 ^ 32 + n) zone) ≡ v4 n
unfolding unmapped
unmapped-mapped n zone h =
    let e : (0xffff * 2 ^ 32 + n) / 2 ^ 32 ≡ 0xffff = omega (arith, h) in
    let d : 0xffff * 2 ^ 32 + n - 0xffff * 2 ^ 32 ≡ n = omega arith in ground (arith, e, d)

in_shared : (n : ℕ) → prefix_contains shared_space (v4 n) ≡ true → is_reserved (v4 n) ≡ true
unfolding is_reserved
in_shared n s = let e : in_block n (100 * 2 ^ 24 + 64 * 2 ^ 16, 22) ≡ true = s in ground (arith, e)

in_fallback : (n : ℕ) → prefix_contains fallback_space (v4 n) ≡ true → is_reserved (v4 n) ≡ true
unfolding is_reserved
in_fallback n s =
    let e : in_block n (10 * 2 ^ 24, 24) ≡ true = ground (arith, s) in ground (arith, e)

rooms-is_reserved :
    (n : ℕ)
    → (prefix_contains shared_space (v4 n) || prefix_contains fallback_space (v4 n)) ≡ true
    → is_reserved (v4 n) ≡ true
rooms-is_reserved n s = elim (Bool-cases (prefix_contains shared_space (v4 n))) [
  | inl e ↦ in_shared n e
  | inr e ↦ in_fallback n (ground (arith, e, s))
]

-- An IPv4 address is judged alike in its IPv6 form, with any zone, and the spaces that rooms take
-- their subnets from do not pass in either form.
pub passes_seed_check_lem :
    (n : ℕ) (zone : Text)
    → n < 2 ^ 32
    → (passes_seed_check (v6 (0xffff * 2 ^ 32 + n) zone) ≡ passes_seed_check (v4 n))
      × ((prefix_contains shared_space (v4 n) || prefix_contains fallback_space (v4 n)) ≡ true
          → passes_seed_check (v4 n) ≡ false)
unfolding passes_seed_check unmapped
passes_seed_check_lem n zone h = (
  ap (λ a. not (is_special a) && not (is_reserved a)) (unmapped-mapped n zone h),
  λ s. ground (arith, rooms-is_reserved n s),
)
