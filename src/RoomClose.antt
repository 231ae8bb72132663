-- ===== src/RoomClose.antt =====
-- Closing a room in the registry: the signed bytes and the age of their stamp
-- (core/domain/roomclose.go). An instant here counts nanoseconds from 2^63 seconds before the zero
-- `time.Time`, which is where the 64 bits of its seconds start. A `time.Duration` is its 64 bits:
-- `Sub` saturates at both ends, and the negation wraps.
pub mod Window
use kanpachi.Base.{
  ℕ, ◌+◌, ◌-◌, ◌*◌, ◌/◌, ◌%◌, ◌^◌, Bool, true, false, not, ◌&&◌, List, [], ◌∷◌, ◌++◌, ltb, leb,
  if◌then◌else◌, Text, codes, big_endian,
}
use kanpachi.Net.{Time}

-- `timing.RoomCloseSkew`
abbrev pub room_close_skew : ℕ
room_close_skew = 5 * 60 * 10 ^ 9

-- `time.Unix(ts, 0)`, for the 64 bits of `ts`, and `time.Now()`.
abbrev pub stamp_at : ℕ → ℕ
stamp_at ts = ((ts + 62135596800 + 2 ^ 63) % 2 ^ 64) * 10 ^ 9

abbrev pub clock_at : Time → ℕ
clock_at now = now + 2 ^ 63 * 10 ^ 9

-- `a.Sub(b)`
unfoldable pub saturated_sub : ℕ → ℕ → ℕ
saturated_sub a b =
    if leb b a
    then (if ltb (a - b) (2 ^ 63) then a - b else 2 ^ 63 - 1)
    else if ltb (b - a) (2 ^ 63)
    then 2 ^ 64 - (b - a)
    else 2 ^ 63

abbrev pub is_negative : ℕ → Bool
is_negative d = leb (2 ^ 63) d

-- `-d`
abbrev pub negated : ℕ → ℕ
negated d = (2 ^ 64 - d) % 2 ^ 64

-- `CheckRoomCloseTime`: whether the stamp passes.
unfoldable pub passes_close_time : ℕ → ℕ → Bool
passes_close_time at now =
    let d = saturated_sub now at in
    let distance = if is_negative d then negated d else d in
    not (not (is_negative distance) && ltb room_close_skew distance)

-- `RoomCloseMessage`, for the 64 bits of `at.Unix()`.
unfoldable pub room_close_message : Text → ℕ → List ℕ
room_close_message id ts = codes "kanpachi/room-close/v1" ++ (0 ∷ (id ++ (0 ∷ big_endian 8 ts)))
