-- ===== src/Net.antt =====
-- Instants and network addresses: what the program uses of Go's `time` and `net/netip`.
-- An instant is its nanoseconds after the zero `time.Time`, so `IsZero` is the test for 0; no
-- instant before it is modelled. An address keeps its value as a number, and an IPv6 zone as text.
use kanpachi.Base.{
  ℕ, ◌+◌, Bool, true, false, ◌&&◌, ◌||◌, ◌≡◌, refl, ◌↔◌, arith, ltb, leb, nat_beq, Eq, Order, Text,
  text_beq, text_beq_iff, text_less, text_irrefl, text_trans, text_connected,
}

abbrev pub Time : Type 0
Time = ℕ

-- `t.IsZero()`
abbrev pub is_zero : Time → Bool
is_zero t = nat_beq t 0

-- `now.Sub(since) >= limit`, over signed durations.
abbrev pub elapsed : Time → Time → ℕ → Bool
elapsed now since limit = leb (since + limit) now

-- `netip.Addr`: the zero value, an IPv4 address, an IPv6 address with its zone.
pub data Addr : Type 0 where
  no_addr : Addr
  v4 : ℕ → Addr
  v6 : ℕ → Text → Addr

abbrev pub is_valid : Addr → Bool
is_valid no_addr = false
is_valid (v4 a) = true
is_valid (v6 a z) = true

abbrev pub is4 : Addr → Bool
is4 (v4 a) = true
is4 _ = false

abbrev pub addr_beq : Addr → Addr → Bool
addr_beq no_addr no_addr = true
addr_beq (v4 a) (v4 b) = nat_beq a b
addr_beq (v6 a z) (v6 b y) = nat_beq a b && text_beq z y
addr_beq _ _ = false

pub addr_beq_iff : (a b : Addr) → (addr_beq a b ≡ true) ↔ (a ≡ b)
addr_beq_iff (v6 a z) (v6 b y) =
    let (to, from) = text_beq_iff z y in (λ h. ground (arith, to), λ h. ground (arith, from))
addr_beq_iff no_addr no_addr = ground arith
addr_beq_iff no_addr (v4 b) = ground arith
addr_beq_iff no_addr (v6 b y) = ground arith
addr_beq_iff (v4 a) no_addr = ground arith
addr_beq_iff (v4 a) (v4 b) = ground arith
addr_beq_iff (v4 a) (v6 b y) = ground arith
addr_beq_iff (v6 a z) no_addr = ground arith
addr_beq_iff (v6 a z) (v4 b) = ground arith

instance abbrev pub addr_eq : Eq Addr
addr_eq = record { equal = addr_beq; equal_iff = addr_beq_iff }

-- `a.Less(b)`: by length, then by value, then by zone.
abbrev pub addr_less : Addr → Addr → Bool
addr_less no_addr no_addr = false
addr_less no_addr (v4 b) = true
addr_less no_addr (v6 b y) = true
addr_less (v4 a) no_addr = false
addr_less (v4 a) (v4 b) = ltb a b
addr_less (v4 a) (v6 b y) = true
addr_less (v6 a z) no_addr = false
addr_less (v6 a z) (v4 b) = false
addr_less (v6 a z) (v6 b y) = ltb a b || (nat_beq a b && text_less z y)

pub addr_irrefl : (a : Addr) → addr_less a a ≡ false
addr_irrefl no_addr = refl
addr_irrefl (v4 a) = ground arith
addr_irrefl (v6 a z) = ground (arith, text_irrefl z)

pub addr_trans : (a b c : Addr) → addr_less a b ≡ true → addr_less b c ≡ true → addr_less a c ≡ true
addr_trans no_addr b no_addr h k = ground arith
addr_trans no_addr b (v4 c) h k = refl
addr_trans no_addr b (v6 c x) h k = refl
addr_trans (v4 a) no_addr c h k = cc
addr_trans (v4 a) (v4 b) no_addr h k = cc
addr_trans (v4 a) (v4 b) (v4 c) h k = ground arith
addr_trans (v4 a) b (v6 c x) h k = refl
addr_trans (v4 a) (v6 b y) no_addr h k = cc
addr_trans (v4 a) (v6 b y) (v4 c) h k = cc
addr_trans (v6 a z) no_addr c h k = cc
addr_trans (v6 a z) (v4 b) c h k = cc
addr_trans (v6 a z) (v6 b y) no_addr h k = cc
addr_trans (v6 a z) (v6 b y) (v4 c) h k = cc
addr_trans (v6 a z) (v6 b y) (v6 c x) h k = ground (arith, text_trans z y x)

pub addr_connected : (a b : Addr) → addr_less a b ≡ false → addr_less b a ≡ false → a ≡ b
addr_connected no_addr no_addr h k = refl
addr_connected no_addr (v4 b) h k = cc
addr_connected no_addr (v6 b y) h k = cc
addr_connected (v4 a) no_addr h k = cc
addr_connected (v4 a) (v4 b) h k = ground arith
addr_connected (v4 a) (v6 b y) h k = cc
addr_connected (v6 a z) no_addr h k = cc
addr_connected (v6 a z) (v4 b) h k = cc
addr_connected (v6 a z) (v6 b y) h k = ground (arith, text_connected z y)

instance abbrev pub addr_order : Order Addr
addr_order = record {
  less = addr_less;
  less_irrefl = addr_irrefl;
  less_trans = addr_trans;
  less_connected = addr_connected;
}

-- `netip.Prefix`: the zero value, or an address and a count of leading bits. IPv4 prefixes alone
-- take part in the address planning.
pub data Prefix : Type 0 where
  no_prefix : Prefix
  prefix : Addr → ℕ → Prefix
