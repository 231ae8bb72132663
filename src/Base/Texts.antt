-- ===== src/Base/Texts.antt =====
-- Text. A Go string is the list of its code points, so a model text is a string in valid UTF-8;
-- `size` is `len`, in bytes. Byte order on UTF-8 is the order of code points.
use Prim.Native.Nat.{ℕ, zero, suc, ◌+◌, ◌/◌, ◌%◌}
use Prim.Native.Char.{code}
use Prim.Native.String.{String}
use mathlib.Core.Path.{◌≡◌, refl}
use mathlib.Core.Logic.{◌↔◌}
use mathlib.Core.Bool.{Bool, true, false, ◌&&◌, ◌||◌}
use mathlib.Core.List.{List, [], ◌∷◌}
use native.Mathlib.Omega.{arith}
use kanpachi.Base.Tests.{ltb, leb, nat_beq, if◌then◌else◌}
use kanpachi.Base.Interfaces.{Eq, Order}
use kanpachi.Base.Lists.{is_empty}

abbrev pub Text : Type 0
Text = List ℕ

-- The code points of a literal.
abbrev pub codes : String → Text
codes String.[] = []
codes (String.◌∷◌ c s) = code c ∷ codes s

abbrev pub text_beq : Text → Text → Bool
text_beq [] [] = true
text_beq [] (_ ∷ _) = false
text_beq (_ ∷ _) [] = false
text_beq (a ∷ s) (b ∷ t) = nat_beq a b && text_beq s t

pub text_beq_iff : (s t : Text) → (text_beq s t ≡ true) ↔ (s ≡ t)
text_beq_iff [] [] = ground arith
text_beq_iff [] (_ ∷ _) = ground arith
text_beq_iff (_ ∷ _) [] = ground arith
text_beq_iff (a ∷ s) (b ∷ t) =
    let (to, from) = text_beq_iff s t in (λ h. ground (arith, to), λ h. ground (arith, from))

instance abbrev pub text_eq : Eq Text
text_eq = record { equal = text_beq; equal_iff = text_beq_iff }

-- `s < t` on strings.
abbrev pub text_less : Text → Text → Bool
text_less [] [] = false
text_less [] (_ ∷ _) = true
text_less (_ ∷ _) [] = false
text_less (a ∷ s) (b ∷ t) = ltb a b || (nat_beq a b && text_less s t)

pub text_irrefl : (s : Text) → text_less s s ≡ false
text_irrefl [] = refl
text_irrefl (a ∷ s) = ground (arith, text_irrefl s)

pub text_trans : (s t u : Text) → text_less s t ≡ true → text_less t u ≡ true → text_less s u ≡ true
text_trans [] [] u h k = cc
text_trans [] (b ∷ t) [] h k = cc
text_trans [] (b ∷ t) (c ∷ u) h k = refl
text_trans (a ∷ s) [] u h k = cc
text_trans (a ∷ s) (b ∷ t) [] h k = cc
text_trans (a ∷ s) (b ∷ t) (c ∷ u) h k = ground (arith, text_trans s t u)

pub text_connected : (s t : Text) → text_less s t ≡ false → text_less t s ≡ false → s ≡ t
text_connected [] [] h k = refl
text_connected [] (b ∷ t) h k = cc
text_connected (a ∷ s) [] h k = cc
text_connected (a ∷ s) (b ∷ t) h k = ground (arith, text_connected s t)

instance abbrev pub text_order : Order Text
text_order = record {
  less = text_less;
  less_irrefl = text_irrefl;
  less_trans = text_trans;
  less_connected = text_connected;
}

-- The bytes that a code point takes in UTF-8.
abbrev pub width : ℕ → ℕ
width c = if ltb c 128 then 1 else if ltb c 2048 then 2 else if ltb c 65536 then 3 else 4

-- `len(s)`
abbrev pub size : Text → ℕ
size [] = 0
size (c ∷ s) = width c + size s

-- `unicode.IsSpace`
abbrev pub is_space : ℕ → Bool
is_space c =
    (leb 9 c && leb c 13)
    || nat_beq c 32
    || nat_beq c 0x85
    || nat_beq c 0xa0
    || nat_beq c 0x1680
    || (leb 0x2000 c && leb c 0x200a)
    || nat_beq c 0x2028
    || nat_beq c 0x2029
    || nat_beq c 0x202f
    || nat_beq c 0x205f
    || nat_beq c 0x3000

abbrev pub trim_left : Text → Text
trim_left [] = []
trim_left (c ∷ s) = let rest = trim_left s in if is_space c then rest else c ∷ s

abbrev pub trim_right : Text → Text
trim_right [] = []
trim_right (c ∷ s) = let rest = trim_right s in if is_empty rest && is_space c then [] else c ∷ rest

-- `strings.TrimSpace`
abbrev pub trim_space : Text → Text
trim_space s = trim_right (trim_left s)

abbrev pub has_prefix : Text → Text → Bool
has_prefix s [] = true
has_prefix [] (_ ∷ _) = false
has_prefix (c ∷ s) (p ∷ ps) = nat_beq c p && has_prefix s ps

abbrev pub is_digit : ℕ → Bool
is_digit c = leb b'0' c && leb c b'9'

abbrev pub is_lower : ℕ → Bool
is_lower c = leb b'a' c && leb c b'z'

abbrev pub is_upper : ℕ → Bool
is_upper c = leb b'A' c && leb c b'Z'

-- `strconv.Itoa` of what is not negative: the digits of `n` before `out`, on fuel above `n`.
unfoldable pub digits : ℕ → ℕ → Text → Text
digits zero n out = out
digits (suc f) n out =
    let d = (b'0' + n % 10) ∷ out in let rest = digits f (n / 10) d in if ltb n 10 then d else rest

unfoldable pub decimal : ℕ → Text
unfolding digits
decimal n = digits (suc n) n []
