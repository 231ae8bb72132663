-- ===== src/Nick.antt =====
-- Nicknames (core/domain/nickname.go): how one is read, and the one that is suggested for a machine.
-- A `Nickname` is its value; texts are code points, so a character is a rune of Go.
use kanpachi.Base.{
  ℕ, zero, suc, ◌≤◌, ◌≡◌, ◌↔◌, refl, Bool, true, false, ◌||◌, [], ◌∷◌, arith, ltb, nat_beq,
  if◌then◌else◌, Result, ok, err, Text, codes, all, length, is_empty, is_lower, is_upper, is_digit,
  is_space, Bool-cases, inl, inr, ap, ◌∙◌,
}

-- `NicknameMaxLen`
abbrev pub nickname_max_len : ℕ
nickname_max_len = 12

pub data NicknameError : Type 0 where
  nickname_empty : NicknameError
  nickname_too_long : ℕ → NicknameError
  nickname_space : NicknameError
  nickname_symbol : ℕ → NicknameError

-- `isASCIILetter || isASCIIDigit`
abbrev pub is_alphanumeric : ℕ → Bool
is_alphanumeric r = is_lower r || is_upper r || is_digit r

-- The loop of `ParseNickname`: the first character that is not allowed, if there is one.
unfoldable pub check_symbols : Text → Result NicknameError (Unit {0})
check_symbols [] = ok tt
check_symbols (r ∷ s) =
    let rest = check_symbols s in
    if is_alphanumeric r
    then rest
    else if is_space r
    then err nickname_space
    else err (nickname_symbol r)

abbrev pub named : Text → Result NicknameError (Unit {0}) → Result NicknameError Text
named s (ok _) = ok s
named s (err e) = err e

-- `ParseNickname`
unfoldable pub parse_nickname : Text → Result NicknameError Text
parse_nickname s =
    if is_empty s
    then err nickname_empty
    else if ltb nickname_max_len (length s)
    then err (nickname_too_long (length s))
    else named s (check_symbols s)

-- `base[:i]` of `NicknameFromHost`, with `i` the first dot.
unfoldable pub before_dot : Text → Text
before_dot [] = []
before_dot (c ∷ s) = let rest = before_dot s in if nat_beq c b'.' then [] else c ∷ rest

-- The loop of `NicknameFromHost`, with the places that are left; it stops when none is.
unfoldable pub clean_name : ℕ → Text → Text
clean_name zero s = []
clean_name (suc n) [] = []
clean_name (suc n) (r ∷ s) =
    let taken = clean_name n s in
    let skipped = clean_name (suc n) s in if is_alphanumeric r then r ∷ taken else skipped

abbrev pub or_kanpachi : Text → Text
or_kanpachi [] = codes "kanpachi"
or_kanpachi (c ∷ s) = c ∷ s

-- `NicknameFromHost`
unfoldable pub nickname_from_host : Text → Text
nickname_from_host host = or_kanpachi (clean_name nickname_max_len (before_dot host))

check_symbols-all : (s : Text) → all is_alphanumeric s ≡ true → check_symbols s ≡ ok tt
unfolding check_symbols
check_symbols-all [] h = refl
check_symbols-all (r ∷ s) h =
    let a : is_alphanumeric r ≡ true = ground (arith, h) in
    let b : all is_alphanumeric s ≡ true = ground (arith, h) in rw a (check_symbols-all s b)

check_symbols_sound : (s : Text) → check_symbols s ≡ ok tt → all is_alphanumeric s ≡ true
unfolding check_symbols
check_symbols_sound [] h = refl
check_symbols_sound (r ∷ s) h = elim (Bool-cases (is_alphanumeric r)) [
  | inl e ↦ rw e (check_symbols_sound s (rw e at h))
  | inr e ↦ elim (Bool-cases (is_space r)) [
    | inl f ↦ absurd (ground (arith, e, f, h))
    | inr f ↦ absurd (ground (arith, e, f, h))
  ]
]

pub parse_nickname-clean :
    (s : Text)
    → is_empty s ≡ false
    → length s ≤ nickname_max_len
    → all is_alphanumeric s ≡ true
    → parse_nickname s ≡ ok s
unfolding parse_nickname
parse_nickname-clean s e l a =
    let f : ltb nickname_max_len (length s) ≡ false = ground (arith, l) in
    rw e (rw f (rw (check_symbols-all s a) refl))

clean_name_bound : (n : ℕ) (s : Text) → length (clean_name n s) ≤ n
unfolding clean_name
clean_name_bound zero s = omega arith
clean_name_bound (suc n) [] = omega arith
clean_name_bound (suc n) (r ∷ s) = elim (Bool-cases (is_alphanumeric r)) [
  | inl e ↦ rw e (omega (arith, clean_name_bound n s))
  | inr e ↦ rw e (clean_name_bound (suc n) s)
]

clean_name-all : (n : ℕ) (s : Text) → all is_alphanumeric (clean_name n s) ≡ true
unfolding clean_name
clean_name-all zero s = refl
clean_name-all (suc n) [] = refl
clean_name-all (suc n) (r ∷ s) = elim (Bool-cases (is_alphanumeric r)) [
  | inl e ↦ rw e (rw e (clean_name-all n s))
  | inr e ↦ rw e (clean_name-all (suc n) s)
]

suggested :
    (s : Text)
    → length s ≤ nickname_max_len
    → all is_alphanumeric s ≡ true
    → parse_nickname (or_kanpachi s) ≡ ok (or_kanpachi s)
unfolding parse_nickname check_symbols
suggested [] l a = refl
suggested (c ∷ s) l a = parse_nickname-clean (c ∷ s) refl l a

-- The name that is suggested for a machine is a legal nickname, whatever the machine's name is.
pub parse_nickname-nickname_from_host :
    (host : Text) → parse_nickname (nickname_from_host host) ≡ ok (nickname_from_host host)
unfolding nickname_from_host
parse_nickname-nickname_from_host host =
    let s = clean_name nickname_max_len (before_dot host) in
    suggested s (clean_name_bound nickname_max_len (before_dot host))
      (clean_name-all nickname_max_len (before_dot host))

named-eq : (s n : Text) (r : Result NicknameError (Unit {0})) → named s r ≡ ok n → s ≡ n
named-eq s n (ok u) h = cc h
named-eq s n (err e) h = cc h

-- What is read is the text itself.
pub parse_nickname-eq : (s n : Text) → parse_nickname s ≡ ok n → s ≡ n
unfolding parse_nickname
parse_nickname-eq s n h = elim (Bool-cases (is_empty s)) [
  | inl e ↦ absurd (ground (arith, e, h))
  | inr e ↦ elim (Bool-cases (ltb nickname_max_len (length s))) [
    | inl f ↦ absurd (ground (arith, e, f, h))
    | inr f ↦ named-eq s n (check_symbols s) (rw (e, f) at h)
  ]
]

nonempty : (s : Text) → is_empty s ≡ false → 1 ≤ length s
nonempty [] h = cc
nonempty (c ∷ s) h = omega arith

filled : (s : Text) → 1 ≤ length s → is_empty s ≡ false
filled [] h = absurd (omega (arith, h))
filled (c ∷ s) h = refl

named-checked : (s n : Text) (r : Result NicknameError (Unit {0})) → named s r ≡ ok n → r ≡ ok tt
named-checked s n (ok tt) h = refl
named-checked s n (err e) h = cc h

-- A text is a nickname exactly when it has one to twelve characters, all ASCII letters or digits, and
-- then the nickname is the text.
pub parse_nickname_lem :
    (s n : Text)
    → (parse_nickname s ≡ ok n)
      ↔ ((s ≡ n) × (1 ≤ length s) × (length s ≤ nickname_max_len) × (all is_alphanumeric s ≡ true))
unfolding parse_nickname
parse_nickname_lem s n = (
  λ h. (elim (Bool-cases (is_empty s)) [
    | inl e ↦ absurd (ground (arith, e, h))
    | inr e ↦ elim (Bool-cases (ltb nickname_max_len (length s))) [
      | inl f ↦ absurd (ground (arith, e, f, h))
      | inr f ↦
          let g : named s (check_symbols s) ≡ ok n = rw (e, f) at h in
          (
            named-eq s n (check_symbols s) g,
            nonempty s e,
            ground (arith, f),
            check_symbols_sound s (named-checked s n (check_symbols s) g),
          )
    ]
  ]),
  λ (p, a, b, c). parse_nickname-clean s (filled s a) b c ∙ ap ok p,
)
