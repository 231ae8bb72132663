-- ===== src/RoomCode.antt =====
-- The code of a room (core/domain/room.go): an invite ID and the host of its seed, as
-- `<host>/<ID>` or `<ID>@<host>`. `strings.ToLower` is `unicode.ToLower` on each code point, which
-- is a parameter. The test of a scheme compares bytes, so that only ASCII letters fold in it.
pub mod Hosts
mod Written
pub mod RoundTrip
pub mod Codes
pub mod Reserved
use kanpachi.Base.{
  ℕ, zero, suc, ◌+◌, ◌*◌, ◌/◌, ◌^◌, ◌-◌, Bool, true, false, not, ◌&&◌, ◌||◌, List, [], ◌∷◌, ◌++◌,
  ltb, leb, nat_beq, if◌then◌else◌, Result, ok, err, Text, codes, size, is_lower, is_upper,
  is_digit, is_empty, all, any, contains, nat_eq, trim_space, length, drop, map, ◌>>=◌,
}
use kanpachi.InviteId.{InviteError, parse_invite_id, print_invite_id}

-- `MaxInputLen` and `maxHostLen`
abbrev pub max_input_len : ℕ
max_input_len = 300

abbrev pub max_host_len : ℕ
max_host_len = 253

pub data RoomError : Type 0 where
  input_too_long input_shape seed_host seed_missing : RoomError
  bad_invite : InviteError → RoomError

-- `Room`
pub record Room : Type 0 where
  pub invite_id : Text
  pub seed : Text

-- The text before the first `c`, and the text after it; all of it and nothing without a `c`.
unfoldable pub before : ℕ → Text → Text
before c [] = []
before c (d ∷ s) = let rest = before c s in if nat_beq d c then [] else d ∷ rest

unfoldable pub after : ℕ → Text → Text
after c [] = []
after c (d ∷ s) = let rest = after c s in if nat_beq d c then s else rest

-- `strings.TrimSuffix(s, c)`
unfoldable pub trim_last : ℕ → Text → Text
trim_last c [] = []
trim_last c (d ∷ s) = let rest = trim_last c s in if is_empty s && nat_beq d c then [] else d ∷ rest

abbrev pub push : ℕ → List Text → List Text
push d [] = (d ∷ []) ∷ []
push d (p ∷ ps) = (d ∷ p) ∷ ps

-- `strings.Split(s, c)`
unfoldable pub split : ℕ → Text → List Text
split c [] = [] ∷ []
split c (d ∷ s) = let rest = split c s in if nat_beq d c then [] ∷ rest else push d rest

abbrev pub last_or : ℕ → Text → ℕ
last_or c [] = c
last_or c (d ∷ s) = last_or d s

abbrev pub last_label : List Text → Text
last_label [] = []
last_label (p ∷ []) = p
last_label (p ∷ q ∷ ps) = last_label (q ∷ ps)

-- The characters of a label.
abbrev pub is_host_char : ℕ → Bool
is_host_char c = is_digit c || is_lower c || nat_beq c b'-'

-- The loop over the labels of `parseSeedHost`.
abbrev pub is_label : Text → Bool
is_label [] = false
is_label (c ∷ s) =
    not (ltb 63 (size (c ∷ s)))
    && not (nat_beq c b'-' || nat_beq (last_or c s) b'-')
    && all is_host_char (c ∷ s)

-- `tieneLetra`
abbrev pub has_letter : Text → Bool
has_letter s = any is_lower s

-- The checks of `parseSeedHost` on the text in lower case.
unfoldable pub is_host : Text → Bool
is_host h =
    not (is_empty h || ltb max_host_len (size h))
    && contains b'.' h
    && all is_label (split b'.' h)
    && has_letter (last_label (split b'.' h))

-- A letter of a scheme in either case.
abbrev pub folds_to : ℕ → ℕ → Bool
folds_to p c = nat_beq c p || (is_upper c && nat_beq (c + 32) p)

-- `len(s) >= len(scheme) && strings.EqualFold(s[:len(scheme)], scheme)`
unfoldable pub has_scheme : Text → Text → Bool
has_scheme [] s = true
has_scheme (p ∷ ps) [] = false
has_scheme (p ∷ ps) (c ∷ s) = folds_to p c && has_scheme ps s

abbrev pub own_scheme : Text
own_scheme = codes "kanpachi://"

abbrev pub https_scheme : Text
https_scheme = codes "https://"

abbrev pub http_scheme : Text
http_scheme = codes "http://"

-- The scheme, and the slash that the own one may end in, are left out.
unfoldable pub without_scheme : Text → Text
without_scheme s =
    if has_scheme own_scheme s
    then trim_last b'/' (drop (length own_scheme) s)
    else if has_scheme https_scheme s
    then drop (length https_scheme) s
    else if has_scheme http_scheme s
    then drop (length http_scheme) s
    else s

-- The part with the invite ID and that with the host.
unfoldable pub parts : Text → Result RoomError (Text × Text)
parts s =
    if contains b'@' s
    then (if contains b'/' s
        then err input_shape
        else if contains b'@' (after b'@' s)
        then err input_shape
        else if is_empty (after b'@' s)
        then err seed_host
        else ok (before b'@' s, after b'@' s))
    else if contains b'/' s
    then (if any (λ c. nat_beq c b'/' || nat_beq c b'?' || nat_beq c b'&') (after b'/' s)
        then err input_shape
        else ok (after b'/' s, before b'/' s))
    else ok (s, [])

unfoldable pub with_invite : {A : Type 0} → Result InviteError A → Result RoomError A
with_invite (ok a) = ok a
with_invite (err e) = err (bad_invite e)

-- `to_lower` is `unicode.ToLower`.
module _ (to_lower : ℕ → ℕ) where
  -- `parseSeedHost`
  unfoldable pub parse_seed_host : Text → Result RoomError Text
  parse_seed_host s =
      let h = map to_lower (trim_last b'.' s) in if is_host h then ok h else err seed_host

  -- The end of `ParseRoom`, from the two parts.
  unfoldable pub room_of : Text → Text → Result RoomError Room
  room_of id_part host_part = with_invite (parse_invite_id id_part) >>= λ id.
      if is_empty host_part
      then err seed_missing
      else (parse_seed_host host_part >>= λ seed. ok (record { invite_id = id; seed = seed }))

  -- `ParseRoom`
  unfoldable pub parse_room : Text → Result RoomError Room
  parse_room input =
      if ltb max_input_len (size input)
      then err input_too_long
      else if is_empty (trim_space input)
      then err input_shape
      else (parts (without_scheme (before b'#' (trim_space input))) >>= λ p. room_of p.0 p.1)

  -- `ParseOwnSeed`
  unfoldable pub parse_own_seed : Text → Result RoomError Text
  parse_own_seed raw =
      let s = trim_space raw in
      if is_empty s
      then ok []
      else if ltb max_host_len (size s)
      then err seed_host
      else parse_seed_host s

-- `Room.InviteURL`
unfoldable pub invite_url : Room → Text
invite_url r = r.seed ++ (b'/' ∷ print_invite_id r.invite_id)
