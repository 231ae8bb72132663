-- ===== src/RoomClose/Window.antt =====
-- Which stamps pass and what the signed bytes say (core/domain/roomclose.go).
use kanpachi.Base.{
  ℕ, ◌+◌, ◌^◌, ◌<◌, ◌&&◌, ◌||◌, ◌≡◌, refl, ◌∷◌, ◌++◌, arith, leb, Text, length, drop, take,
  take-append, drop-append, big_endian, number_of, number_of-big_endian, ap, sym, ◌∙◌,
}
use kanpachi.RoomClose.{room_close_skew, saturated_sub, passes_close_time, room_close_message}

-- The stamps that pass are those within five minutes of the clock on either side, and those that
-- are 2^63 nanoseconds or more ahead of it, where the difference saturates and its negation wraps.
pub passes_close_time_lem :
    (at now : ℕ)
    → passes_close_time at now ≡ (
        (leb at (now + room_close_skew) && leb now (at + room_close_skew)) || leb (now + 2 ^ 63) at)
unfolding passes_close_time saturated_sub
passes_close_time_lem at now = ground arith

-- The bytes that are signed for one room and second are signed for no other: for IDs of one
-- length, and stamps of 64 bits.
pub room_close_message-inj :
    (id id' : Text) (ts ts' : ℕ)
    → length id ≡ length id'
    → ts < 2 ^ 64
    → ts' < 2 ^ 64
    → room_close_message id ts ≡ room_close_message id' ts'
    → (id ≡ id') × (ts ≡ ts')
unfolding room_close_message
room_close_message-inj id id' ts ts' l b b' h =
    let n = length id in
    let t : (id ++ (0 ∷ big_endian 8 ts)) ≡ (id' ++ (0 ∷ big_endian 8 ts')) = ap (drop 23) h in
    let i =
      sym (take-append n id (0 ∷ big_endian 8 ts) refl)
      ∙ ap (take n) t
      ∙ take-append n id' (0 ∷ big_endian 8 ts') (sym l) in
    let r =
      sym (drop-append n id (0 ∷ big_endian 8 ts) refl)
      ∙ ap (drop n) t
      ∙ drop-append n id' (0 ∷ big_endian 8 ts') (sym l) in
    let w : big_endian 8 ts ≡ big_endian 8 ts' = ap (drop 1) r in
    (
      i,
      sym (number_of-big_endian 8 ts (omega (arith, b)))
          ∙ ap number_of w
          ∙ number_of-big_endian 8 ts' (omega (arith, b')),
    )
