-- ===== src/InviteId/RoundTrip.antt =====
-- What is read back is what was written (core/domain/inviteid.go).
use kanpachi.Base.{
  ℕ, zero, suc, ◌+◌, ◌-◌, ◌<◌, ◌%◌, true, false, ◌≡◌, refl, List, [], ◌∷◌, some, arith, ok, Text,
  size, is_lower, is_upper, contains, nat_eq, all, Option-cases, inl, inr, length,
}
use native.Mathlib.Nat.{mod-lt}
use kanpachi.InviteId.{
  alphabet, is_separator, normalize, is_symbol, parse_invite_id, group, print_invite_id, symbol_at,
  symbols, new_invite_id, invite_id_len,
}

-- A symbol is one ASCII byte that `normalizeInviteID` leaves as it is.
symbol_kept :
    (c : ℕ) → is_symbol c ≡ true → (is_separator c ≡ false) × (is_lower c ≡ false) × (c < 128)
symbol_kept c h = (ground (arith, h), ground (arith, h), ground (arith, h))

-- A hand-written spelling of an ID: with separators anywhere, and letters in either case.
pub data Spells : Text → Text → Type 0 where
  done : Spells [] []
  separate : {c : ℕ} {s raw : Text} → is_separator c ≡ true → Spells s raw → Spells (c ∷ s) raw
  same : {c : ℕ} {s raw : Text} → is_symbol c ≡ true → Spells s raw → Spells (c ∷ s) (c ∷ raw)
  lowered :
      {c : ℕ} {s raw : Text}
      → is_upper c ≡ true
      → is_symbol c ≡ true
      → Spells s raw
      → Spells ((c + 32) ∷ s) (c ∷ raw)

normalize-Spells : {s raw : Text} → Spells s raw → normalize s ≡ raw
unfolding normalize
normalize-Spells done = refl
normalize-Spells (separate {c} {s} {raw} e p) = ground (arith, e, normalize-Spells p)
normalize-Spells (same {c} {s} {raw} e p) =
    let (a, b, l) = symbol_kept c e in ground (arith, a, b, normalize-Spells p)
normalize-Spells (lowered {c} {s} {raw} u e p) =
    let q : is_separator (c + 32) ≡ false = ground (arith, u) in
    let w : is_lower (c + 32) ≡ true = ground (arith, u) in
    let d : c + 32 - 32 ≡ c = omega arith in ground (arith, q, w, d, normalize-Spells p)

-- An ID: eight symbols of the alphabet.
abbrev pub IsId : Text → Type 0
IsId raw = (length raw ≡ invite_id_len) × (all is_symbol raw ≡ true)

pub size-symbols : (raw : Text) → all is_symbol raw ≡ true → size raw ≡ length raw
size-symbols [] h = refl
size-symbols (c ∷ raw) h =
    let (a, b, l) = symbol_kept c (ground (arith, h)) in
    ground (arith, l, size-symbols raw (ground (arith, h)))

Spells-symbols : {s raw : Text} → Spells s raw → all is_symbol raw ≡ true
Spells-symbols done = refl
Spells-symbols (separate e p) = Spells-symbols p
Spells-symbols (same e p) = ground (arith, e, Spells-symbols p)
Spells-symbols (lowered u e p) = ground (arith, e, Spells-symbols p)

symbols-length : (raw : Text) → size raw ≡ 8 → all is_symbol raw ≡ true → IsId raw
symbols-length raw h a = (ground (arith, size-symbols raw a, h), a)

print-Spells : (k : ℕ) (raw : Text) → all is_symbol raw ≡ true → Spells (group k raw) raw
unfolding group
print-Spells k [] h = done
print-Spells zero (c ∷ s) h =
    separate refl (same (ground (arith, h)) (print-Spells 3 s (ground (arith, h))))
print-Spells (suc k) (c ∷ s) h = same (ground (arith, h)) (print-Spells k s (ground (arith, h)))

-- Every spelling of an ID is read as that ID: with dashes, spaces, underscores and tabs anywhere and
-- with letters of either case.
pub parse_invite_id-Spells :
    (s raw : Text) → Spells s raw → length raw ≡ invite_id_len → parse_invite_id s ≡ ok raw
unfolding parse_invite_id
parse_invite_id-Spells s raw p l =
    let a = Spells-symbols p in ground (arith, normalize-Spells p, a, size-symbols raw a, l)

-- What is read is an ID, and reading back what is written for it gives it again.
pub parse_invite_id-print_invite_id :
    (s raw : Text)
    → parse_invite_id s ≡ ok raw
    → IsId raw × (parse_invite_id (print_invite_id raw) ≡ ok raw)
unfolding parse_invite_id
parse_invite_id-print_invite_id s raw h =
    let a : all is_symbol raw ≡ true = ground (arith, h) in
    let l : size raw ≡ 8 = ground (arith, h) in
    let i = symbols-length raw l a in
    (i, parse_invite_id-Spells (print_invite_id raw) raw (print-Spells 4 raw a) i.0)

symbol_at-contains : (i : ℕ) (s : Text) → i < length s → contains (symbol_at i s) s ≡ true
symbol_at-contains i [] b = absurd (omega (arith, b))
symbol_at-contains zero (c ∷ s) b = ground arith
symbol_at-contains (suc i) (c ∷ s) b = ground (arith, symbol_at-contains i s (omega arith))

symbols_lem :
    (k : ℕ) (bytes : List ℕ) (s : Text)
    → symbols k bytes ≡ some s
    → (length s ≡ k) × (all is_symbol s ≡ true)
unfolding symbols
symbols_lem zero bytes s h = (ground (arith, h), ground (arith, h))
symbols_lem (suc k) [] s h = cc
symbols_lem (suc k) (b ∷ bytes) s h = elim (Option-cases (symbols k bytes)) [
  | inl e ↦ absurd (ground (arith, e, h))
  | inr (t, e) ↦
      let (l, a) = symbols_lem k bytes t e in
      let c = symbol_at-contains (b % 32) alphabet (mod-lt b (omega arith)) in
      (ground (arith, e, h, l), ground (arith, e, h, a, c))
]

-- A new ID, whatever the bytes, is one that is read back from what is written for it.
pub new_invite_id-IsId :
    (bytes : List ℕ) (raw : Text)
    → new_invite_id bytes ≡ some raw
    → IsId raw × (parse_invite_id (print_invite_id raw) ≡ ok raw)
new_invite_id-IsId bytes raw h =
    let i = symbols_lem invite_id_len bytes raw h in
    (i, parse_invite_id-Spells (print_invite_id raw) raw (print-Spells 4 raw i.1) i.0)
