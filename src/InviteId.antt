-- ===== src/InviteId.antt =====
-- The invite ID (core/domain/inviteid.go): how it is read, written and made. `InviteID.raw` is its
-- text; the source of random bytes is the list of the bytes that it gives before it fails. The code
-- points that `ParseInviteID` turns out are ASCII, so its loop over bytes is one over them.
pub mod RoundTrip
use kanpachi.Base.{
  ℕ, zero, suc, ◌+◌, ◌-◌, ◌*◌, ◌/◌, ◌%◌, Bool, true, false, not, ◌&&◌, ◌||◌, List, [], ◌∷◌, ◌++◌,
  Option, none, some, ltb, leb, nat_beq, if◌then◌else◌, find, Result, ok, err, Text, codes, size,
  is_lower, contains, nat_eq, is_empty, all,
}

-- `Alphabet` and `InviteIDLen`
abbrev pub alphabet : Text
alphabet = codes "23456789ABCDEFGHJKLMNPQRSTUVWXYZ"

abbrev pub invite_id_len : ℕ
invite_id_len = 8

pub data InviteError : Type 0 where
  bad_length : ℕ → InviteError
  bad_symbol : InviteError

-- The characters that `normalizeInviteID` leaves out.
abbrev pub is_separator : ℕ → Bool
is_separator c = nat_beq c b'-' || nat_beq c 32 || nat_beq c b'_' || nat_beq c 9

-- `normalizeInviteID`
unfoldable pub normalize : Text → Text
normalize [] = []
normalize (c ∷ s) =
    let rest = normalize s in
    if is_separator c then rest else if is_lower c then (c - 32) ∷ rest else c ∷ rest

-- `strings.ContainsRune(Alphabet, c)`
abbrev pub is_symbol : ℕ → Bool
is_symbol c = contains c alphabet

-- `ParseInviteID`
unfoldable pub parse_invite_id : Text → Result InviteError Text
parse_invite_id s =
    let n = normalize s in
    if not (nat_beq (size n) invite_id_len)
    then err (bad_length (size n))
    else if not (all is_symbol n)
    then err bad_symbol
    else ok n

-- `InviteID.String`, on an ID of eight symbols or none; a shorter text would make the slice panic.
unfoldable pub group : ℕ → Text → Text
group k [] = []
group zero (c ∷ s) = b'-' ∷ (c ∷ group 3 s)
group (suc k) (c ∷ s) = c ∷ group k s

abbrev pub print_invite_id : Text → Text
print_invite_id raw = group 4 raw

-- The symbol of a byte: `Alphabet[b&0x1f]`.
abbrev pub symbol_at : ℕ → Text → ℕ
symbol_at i [] = 0
symbol_at zero (c ∷ s) = c
symbol_at (suc i) (c ∷ s) = symbol_at i s

-- The first eight symbols of the bytes; `none` if they end before.
unfoldable pub symbols : ℕ → List ℕ → Option Text
symbols zero bytes = some []
symbols (suc k) [] = none
symbols (suc k) (b ∷ bytes) = elim (symbols k bytes) [
  | none ↦ none
  | some s ↦ some (symbol_at (b % 32) alphabet ∷ s)
]

-- `NewInviteID`; `none` is its error.
abbrev pub new_invite_id : List ℕ → Option Text
new_invite_id bytes = symbols invite_id_len bytes
