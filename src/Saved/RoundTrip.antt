-- ===== src/Saved/RoundTrip.antt =====
-- The files of the rooms give back what was written (core/domain/hostedroom.go).
use kanpachi.Base.{
  ℕ, ◌≤◌, Bool, true, false, not, ◌&&◌, ◌⊎◌, inl, inr, ◌≡◌, refl, List, [], ◌∷◌, some, arith, ltb,
  nat_beq, ok, ◌>>=◌, Text, is_empty, length, all,
}
use kanpachi.Net.{Time, Prefix}
use kanpachi.InviteId.{print_invite_id}
use kanpachi.RoomCode.{parse_room}
use kanpachi.RoomCode.Hosts.{is_dotted}
use kanpachi.RoomCode.Codes.{parse_room-code_of}
use kanpachi.Addressing.{
  shared_space, fallback_space, room_prefix_bits, bits_of, is_v4_prefix, overlaps,
}
use kanpachi.Nick.{parse_nickname}
use kanpachi.Validation.{is_valid_profile_id}
use kanpachi.Registry.{max_card_bytes}
use kanpachi.Book.Filter.{whole}
use kanpachi.Guest.{LastRoom}
use kanpachi.Saved.{
  max_room_name_len, hosted_on_disk, last_on_disk, card_key_len, member_seed_len, network_id_len,
  network_secret_len, HostedRoom, SavedLibrary, clamp_room_name, saved_room, saved_code,
  check_room_subnet, check_game_id, room_from, fixed_from_base64, parse_saved_at, parse_card,
  encode_hosted, decode_hosted, seed_on_disk, encode_last, parse_member_seed, decode_last,
}

abbrev pub is_byte : ℕ → Bool
is_byte b = ltb b 256

-- The documented laws of the library: what was written is read back, a date to the whole second, and
-- only no bytes are written as no text; `ToLower` leaves the characters of a host in lower case.
pub record Rereads (l : SavedLibrary) : Type 0 where
  pub bytes : (k : List ℕ) → all is_byte k ≡ true → l.decode_bytes (l.encode_bytes k) ≡ some k
  pub bytes_pos : (k : List ℕ) → is_empty (l.encode_bytes k) ≡ is_empty k
  pub subnet : (p : Prefix) → is_v4_prefix p ≡ true → l.parse_prefix (l.print_prefix p) ≡ some p
  pub date : (t : Time) → l.parse_time (l.print_time t) ≡ some (whole t)
  pub date_pos : (t : Time) → is_empty (l.print_time t) ≡ false
  pub lower : (c : ℕ) → is_dotted c ≡ true → l.to_lower c ≡ c

-- What a host has of its room while it is open.
pub record IsHosted (h : HostedRoom) : Type 0 where
  pub name : length h.name ≤ max_room_name_len
  pub host : parse_nickname h.host ≡ ok h.host
  pub network_id : (all is_byte h.network_id ≡ true) × (length h.network_id ≡ network_id_len)
  pub network_secret :
      (all is_byte h.network_secret ≡ true) × (length h.network_secret ≡ network_secret_len)
  pub card_key : (all is_byte h.card_key ≡ true) × (length h.card_key ≡ card_key_len)
  pub card : (all is_byte h.card ≡ true) × (length h.card ≤ max_card_bytes)
  pub subnet :
      (is_v4_prefix h.subnet ≡ true)
      × (bits_of h.subnet ≡ room_prefix_bits)
      × ((overlaps shared_space h.subnet ≡ true) ⊎ (overlaps fallback_space h.subnet ≡ true))
  pub game_id : (h.game_id ≡ []) ⊎ (is_valid_profile_id h.game_id ≡ true)

module _ (l : SavedLibrary) (w : Rereads l) where
  room_from-saved :
      (s : Text) (r : kanpachi.RoomCode.Room)
      → parse_room l.to_lower s ≡ ok r
      → room_from l (print_invite_id r.invite_id) r.seed ≡ ok (saved_room r)
  unfolding room_from saved_code
  room_from-saved s r h =
      let (a, b, c) = parse_room-code_of l.to_lower s r w.lower h in rw b (rw a refl)

  fixed-saved :
      (n : ℕ) (k : List ℕ)
      → (all is_byte k ≡ true) × (length k ≡ n)
      → fixed_from_base64 l n (l.encode_bytes k) ≡ ok k
  unfolding fixed_from_base64
  fixed-saved n k (a, b) =
      let e : nat_beq (length k) n ≡ true = ground (arith, b) in rw (w.bytes k a) (rw e refl)

  card-saved :
      (k : List ℕ)
      → (all is_byte k ≡ true) × (length k ≤ max_card_bytes)
      → parse_card l (l.encode_bytes k) ≡ ok k
  unfolding parse_card
  card-saved [] h = rw (w.bytes_pos []) refl
  card-saved (b ∷ k) (a, c) =
      let e : ltb max_card_bytes (length (b ∷ k)) ≡ false = ground (arith, c) in
      rw (w.bytes_pos (b ∷ k)) (rw (w.bytes (b ∷ k) a) (rw e refl))

  date-saved : (t : Time) → parse_saved_at l (l.print_time t) ≡ ok (whole t)
  unfolding parse_saved_at
  date-saved t = rw (w.date_pos t) (rw (w.date t) refl)

  seed-saved :
      (k : List ℕ)
      → (k ≡ []) ⊎ ((all is_byte k ≡ true) × (length k ≡ member_seed_len))
      → parse_member_seed l (seed_on_disk l k) ≡ ok k
  unfolding parse_member_seed
  seed-saved [] h = refl
  seed-saved (b ∷ k) (inl e) = cc
  seed-saved (b ∷ k) (inr (a, c)) =
      let e : nat_beq (length (b ∷ k)) member_seed_len ≡ true = ground (arith, c) in
      rw e (rw (w.bytes_pos (b ∷ k)) (fixed-saved member_seed_len (b ∷ k) (a, c)))

clamp-saved : (s : Text) → length s ≤ max_room_name_len → clamp_room_name s ≡ s
unfolding clamp_room_name
clamp-saved s h = let e : ltb max_room_name_len (length s) ≡ false = ground (arith, h) in rw e refl

subnet-saved :
    (p : Prefix)
    → (is_v4_prefix p ≡ true)
      × (bits_of p ≡ room_prefix_bits)
      × ((overlaps shared_space p ≡ true) ⊎ (overlaps fallback_space p ≡ true))
    → check_room_subnet p ≡ ok p
unfolding check_room_subnet
subnet-saved p (a, b, c) =
    let n : nat_beq (bits_of p) room_prefix_bits ≡ true = ground (arith, b) in
    let o : (not (overlaps shared_space p) && not (overlaps fallback_space p)) ≡ false = elim c [
      | inl e ↦ ground (arith, e)
      | inr e ↦ ground (arith, e)
    ] in
    rw a (rw n (rw o refl))

game-saved : (s : Text) → (s ≡ []) ⊎ (is_valid_profile_id s ≡ true) → check_game_id s ≡ ok s
unfolding check_game_id
game-saved s (inl e) = rw e refl
game-saved s (inr e) =
    let f : (not (is_empty s) && not (is_valid_profile_id s)) ≡ false = ground (arith, e) in
    rw f refl

-- The file of a room that is open is written and gives the room back, its date to the whole second:
-- its code, which was read from a text, its name, the identity of its network, its card and key, its
-- subnet, its game and the generation of its book. The library reads back what it wrote.
pub decode_hosted-encode_hosted :
    (l : SavedLibrary) (h : HostedRoom) (s : Text) (r : kanpachi.RoomCode.Room)
    → Rereads l
    → l.read_hosted (l.write_hosted (hosted_on_disk l h)) ≡ some (hosted_on_disk l h)
    → IsHosted h
    → parse_room l.to_lower s ≡ ok r
    → h.room ≡ saved_room r
    → (encode_hosted l h >>= λ raw. decode_hosted l raw)
      ≡ ok (record h { saved_at = whole h.saved_at })
unfolding encode_hosted decode_hosted
decode_hosted-encode_hosted l h s r w f i p q =
    let (a, b, c) = parse_room-code_of l.to_lower s r w.lower p in
    let e : is_empty h.room.invite_id ≡ false = rw q c in
    let room : room_from l (print_invite_id h.room.invite_id) h.room.seed ≡ ok h.room =
      rw q (room_from-saved l w s r p) in
    rw e (
      rw f (
        rw room (
          rw i.host (
            rw (fixed-saved l w network_id_len h.network_id i.network_id) (
              rw (fixed-saved l w network_secret_len h.network_secret i.network_secret) (
                rw (fixed-saved l w card_key_len h.card_key i.card_key) (
                  rw (card-saved l w h.card i.card) (
                    rw (w.subnet h.subnet (i.subnet.0)) (
                      rw (subnet-saved h.subnet i.subnet) (
                        rw (game-saved h.game_id i.game_id) (
                          rw (date-saved l w h.saved_at)
                            (rw (clamp-saved h.name i.name) refl))))))))))))

-- The file of a guest's last room is written and gives it back, its date to the whole second, with the
-- wish to return and the seed of the member's key, which is absent or of the right length.
pub decode_last-encode_last :
    (l : SavedLibrary) (x : LastRoom) (s : Text) (r : kanpachi.RoomCode.Room)
    → Rereads l
    → l.read_last (l.write_last (last_on_disk l x)) ≡ some (last_on_disk l x)
    → length x.name ≤ max_room_name_len
    → parse_nickname x.nick ≡ ok x.nick
    → (x.member_seed ≡ [])
      ⊎ ((all is_byte x.member_seed ≡ true) × (length x.member_seed ≡ member_seed_len))
    → parse_room l.to_lower s ≡ ok r
    → x.room ≡ saved_room r
    → (encode_last l x >>= λ raw. decode_last l raw) ≡ ok (record x { saved_at = whole x.saved_at })
unfolding encode_last decode_last
decode_last-encode_last l x s r w f n k m p q =
    let (a, b, c) = parse_room-code_of l.to_lower s r w.lower p in
    let e : is_empty x.room.invite_id ≡ false = rw q c in
    let room : room_from l (print_invite_id x.room.invite_id) x.room.seed ≡ ok x.room =
      rw q (room_from-saved l w s r p) in
    rw e (
      rw f (
        rw room (
          rw k (
            rw (date-saved l w x.saved_at)
              (rw (seed-saved l w x.member_seed m) (rw (clamp-saved x.name n) refl))))))
