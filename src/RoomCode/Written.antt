-- ===== src/RoomCode/Written.antt =====
-- The characters and the length of a written code, and what the steps of `ParseRoom` make of it
-- (core/domain/room.go).
use kanpachi.Base.{
  ℕ, zero, suc, ◌+◌, ◌*◌, ◌≤◌, Bool, true, false, ◌&&◌, ◌||◌, ◌≡◌, refl, [], ◌∷◌, ◌++◌, arith,
  nat_beq, Text, size, is_upper, is_digit, is_space, is_empty, all, any, contains, nat_eq,
  trim_left, trim_right, Bool-cases, inl, inr, ap, sym, ◌∙◌,
}
use kanpachi.InviteId.{group, is_symbol}
use kanpachi.RoomCode.{before, after, has_scheme}
use kanpachi.RoomCode.Hosts.{is_dotted}

true-false : ¬ (◌≡◌ {A = Bool} true false)
true-false h = cc

-- The characters of a written invite ID, and those of a code.
abbrev pub is_id_char : ℕ → Bool
is_id_char c = is_digit c || is_upper c || nat_beq c b'-'

abbrev pub is_url_char : ℕ → Bool
is_url_char c = is_dotted c || nat_beq c b'/' || is_id_char c

symbol-is_id : (c : ℕ) → is_symbol c ≡ true → is_id_char c ≡ true
symbol-is_id c h = ground (arith, h)

and_both : (a b : Bool) → (a && b) ≡ true → (a ≡ true) × (b ≡ true)
and_both a b h = (ground arith, ground arith)

symbol_first :
    (c : ℕ) (s : Text)
    → all is_symbol (c ∷ s) ≡ true
    → (is_symbol c ≡ true) × (all is_symbol s ≡ true)
symbol_first c s h = and_both (is_symbol c) (all is_symbol s) h

pub group-chars : (k : ℕ) (s : Text) → all is_symbol s ≡ true → all is_id_char (group k s) ≡ true
unfolding group
group-chars k [] h = refl
group-chars zero (c ∷ s) h =
    let (a, b) = symbol_first c s h in ground (arith, group-chars 3 s b, symbol-is_id c a)
group-chars (suc k) (c ∷ s) h =
    let (a, b) = symbol_first c s h in ground (arith, group-chars k s b, symbol-is_id c a)

pub size-group : (k : ℕ) (s : Text) → size (group k s) ≤ 2 * size s
unfolding group
size-group k [] = omega arith
size-group zero (c ∷ s) = ground (arith, size-group 3 s)
size-group (suc k) (c ∷ s) = ground (arith, size-group k s)

pub size-append : (s t : Text) → size (s ++ t) ≡ size s + size t
size-append [] t = omega arith
size-append (c ∷ s) t = ground (arith, size-append s t)

pub size-slash : (t : Text) → size (b'/' ∷ t) ≡ 1 + size t
size-slash t = ground arith

-- A text without spaces is not trimmed.
pub trim_left-same : (s : Text) → any is_space s ≡ false → trim_left s ≡ s
trim_left-same [] h = refl
trim_left-same (c ∷ s) h = let e : is_space c ≡ false = ground (arith, h) in rw e refl

pub trim_right-same : (s : Text) → any is_space s ≡ false → trim_right s ≡ s
trim_right-same [] h = refl
trim_right-same (c ∷ s) h =
    let e : is_space c ≡ false = ground (arith, h) in
    ground (arith, e, trim_right-same s (ground (arith, h)))

pub before-none : (c : ℕ) (s : Text) → contains c s ≡ false → before c s ≡ s
unfolding before
before-none c [] h = refl
before-none c (d ∷ s) h = ground (arith, h, before-none c s (ground (arith, h)))

pub before-append : (c : ℕ) (s t : Text) → contains c s ≡ false → before c (s ++ (c ∷ t)) ≡ s
unfolding before
before-append c [] t h = ground arith
before-append c (d ∷ s) t h = ground (arith, h, before-append c s t (ground (arith, h)))

pub after-append : (c : ℕ) (s t : Text) → contains c s ≡ false → after c (s ++ (c ∷ t)) ≡ t
unfolding after
after-append c [] t h = ground arith
after-append c (d ∷ s) t h = ground (arith, h, after-append c s t (ground (arith, h)))

-- A text without a colon has no scheme.
pub no_scheme :
    (scheme s : Text)
    → contains b':' scheme ≡ true
    → contains b':' s ≡ false
    → has_scheme scheme s ≡ false
unfolding has_scheme
no_scheme [] s h k = cc
no_scheme (p ∷ ps) [] h k = refl
no_scheme (p ∷ ps) (c ∷ s) h k = elim (Bool-cases (nat_beq p b':')) [
  | inl e ↦ ground (arith, e, k)
  | inr e ↦ ground (arith, no_scheme ps s (ground (arith, e, h)) (ground (arith, k)))
]

pub char-is_url : (c : ℕ) → is_url_char c ≡ true → (is_space c ≡ false) × (nat_beq c b'#' ≡ false)
char-is_url c h = (ground arith, ground arith)

pub append-pos : (s t : Text) → is_empty (s ++ (b'/' ∷ t)) ≡ false
append-pos [] t = refl
append-pos (c ∷ s) t = refl

pub other_char : (p : ℕ → Bool) (c d : ℕ) → p c ≡ false → p d ≡ true → nat_beq d c ≡ false
other_char p c d h e = elim (Bool-cases (nat_beq d c)) [
  | inr q ↦ q
  | inl q ↦ let r : d ≡ c = ground (arith, q) in absurd (true-false (sym e ∙ ap p r ∙ h))
]
