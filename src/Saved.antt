-- ===== src/Saved.antt =====
-- The files of the rooms (core/domain/hostedroom.go): the one that a host opens again, and the last one
-- of a guest. JSON in its strict reading, base64, and the texts of a prefix and of a date are the Go
-- library's: parameters. Every error but those of the encoders is `ErrPersistedShape`.
pub mod RoundTrip
pub mod Restart
use kanpachi.Base.{
  ℕ, ◌+◌, ◌*◌, ◌/◌, ◌^◌, Bool, not, ◌&&◌, ◌||◌, List, [], ◌∷◌, ◌++◌, Option, none, some, ltb,
  nat_beq, if◌then◌else◌, Result, ok, err, ◌>>=◌, Text, is_empty, length, take,
}
use kanpachi.Net.{Time, Addr, v4, Prefix, no_prefix, prefix}
use kanpachi.State.Types.{Room}
use kanpachi.InviteId.{print_invite_id}
use kanpachi.RoomCode.{RoomError, parse_room}
use kanpachi.Addressing.{
  shared_space, fallback_space, room_prefix_bits, bits_of, is_v4_prefix, overlaps,
}
use kanpachi.Members.{Nickname}
use kanpachi.Nick.{NicknameError, parse_nickname}
use kanpachi.Validation.{is_valid_profile_id}
use kanpachi.Registry.{max_card_bytes}
use kanpachi.Book.{BookError, persisted_shape}
use kanpachi.Guest.{LastRoom, Guest}

-- `MaxRoomNameLen`, `CardKeyLen`, `MemberSeedLen`, and the lengths of the arrays.
abbrev pub max_room_name_len : ℕ
max_room_name_len = 40

abbrev pub card_key_len : ℕ
card_key_len = 32

abbrev pub member_seed_len : ℕ
member_seed_len = 32

abbrev pub network_id_len : ℕ
network_id_len = 16

abbrev pub network_secret_len : ℕ
network_secret_len = 32

pub record HostedRoom : Type 0 where
  pub room : Room
  pub name : Text
  pub host : Nickname
  pub network_id : List ℕ
  pub network_secret : List ℕ
  pub subnet : Prefix
  pub card_key : List ℕ
  pub card : List ℕ
  pub game_id : Text
  pub members_gen : ℕ
  pub saved_at : Time

-- `persistedRoomJSON` and `lastRoomJSON`
pub record HostedOnDisk : Type 0 where
  pub invite_id : Text
  pub seed : Text
  pub name : Text
  pub host : Text
  pub network_id : Text
  pub network_secret : Text
  pub subnet : Text
  pub card_key : Text
  pub card : Text
  pub game_id : Text
  pub members_gen : ℕ
  pub saved_at : Text

pub record LastOnDisk : Type 0 where
  pub invite_id : Text
  pub seed : Text
  pub name : Text
  pub nick : Text
  pub saved_at : Text
  pub auto_return : Bool
  pub member_seed : Text

-- base64, `netip.Prefix`, RFC 3339, `unicode.ToLower`, and `json.MarshalIndent` with `decodeStrict`.
pub record SavedLibrary : Type 0 where
  pub encode_bytes : List ℕ → Text
  pub decode_bytes : Text → Option (List ℕ)
  pub print_prefix : Prefix → Text
  pub parse_prefix : Text → Option Prefix
  pub print_time : Time → Text
  pub parse_time : Text → Option Time
  pub to_lower : ℕ → ℕ
  pub write_hosted : HostedOnDisk → Text
  pub read_hosted : Text → Option HostedOnDisk
  pub write_last : LastOnDisk → Text
  pub read_last : Text → Option LastOnDisk

abbrev pub or_shape {ℓ} : {A : Type ℓ} → Option A → Result BookError A
or_shape none = err persisted_shape
or_shape (some a) = ok a

-- An error of another kind is wrapped into `ErrPersistedShape`.
abbrev pub as_shape {ℓ κ} : {E : Type ℓ} {A : Type κ} → Result E A → Result BookError A
as_shape (err e) = err persisted_shape
as_shape (ok a) = ok a

-- `ClampRoomName`
unfoldable pub clamp_room_name : Text → Text
clamp_room_name s = if ltb max_room_name_len (length s) then take max_room_name_len s else s

abbrev pub saved_room : kanpachi.RoomCode.Room → Room
saved_room r = record { invite_id = r.invite_id; seed = r.seed }

-- The text that `roomFrom` reads.
unfoldable pub saved_code : Text → Text → Text
saved_code id seed = if is_empty seed then id else id ++ (b'@' ∷ seed)

abbrev pub of_length : ℕ → List ℕ → Result BookError (List ℕ)
of_length n k = if nat_beq (length k) n then ok k else err persisted_shape

-- `checkRoomSubnet`
unfoldable pub check_room_subnet : Prefix → Result BookError Prefix
check_room_subnet p =
    if not (is_v4_prefix p)
    then err persisted_shape
    else if not (nat_beq (bits_of p) room_prefix_bits)
    then err persisted_shape
    else if not (overlaps shared_space p) && not (overlaps fallback_space p)
    then err persisted_shape
    else ok p

-- The card is of at most `MaxCardBytes`.
abbrev pub of_card : List ℕ → Result BookError (List ℕ)
of_card k = if ltb max_card_bytes (length k) then err persisted_shape else ok k

-- A game's ID is absent or a valid one.
unfoldable pub check_game_id : Text → Result BookError Text
check_game_id s =
    if not (is_empty s) && not (is_valid_profile_id s) then err persisted_shape else ok s

module _ (l : SavedLibrary) where
  -- `roomFrom`
  unfoldable pub room_from : Text → Text → Result BookError Room
  room_from id seed =
      as_shape (parse_room l.to_lower (saved_code id seed)) >>= λ r. ok (saved_room r)

  -- `fixedFromBase64`
  unfoldable pub fixed_from_base64 : ℕ → Text → Result BookError (List ℕ)
  fixed_from_base64 n s = or_shape (l.decode_bytes s) >>= λ k. of_length n k

  -- `parseSavedAt`
  unfoldable pub parse_saved_at : Text → Result BookError Time
  parse_saved_at s = if is_empty s then ok 0 else or_shape (l.parse_time s)

  -- The card of `DecodeHostedRoom`, which may be absent.
  unfoldable pub parse_card : Text → Result BookError (List ℕ)
  parse_card s = if is_empty s then ok [] else (or_shape (l.decode_bytes s) >>= λ k. of_card k)

  abbrev pub hosted_on_disk : HostedRoom → HostedOnDisk
  hosted_on_disk h = record {
    invite_id = print_invite_id h.room.invite_id;
    seed = h.room.seed;
    name = h.name;
    host = h.host;
    network_id = l.encode_bytes h.network_id;
    network_secret = l.encode_bytes h.network_secret;
    subnet = l.print_prefix h.subnet;
    card_key = l.encode_bytes h.card_key;
    card = l.encode_bytes h.card;
    game_id = h.game_id;
    members_gen = h.members_gen;
    saved_at = l.print_time h.saved_at;
  }

  -- `HostedRoom.Encode`
  unfoldable pub encode_hosted : HostedRoom → Result BookError Text
  encode_hosted h =
      if is_empty h.room.invite_id
      then err persisted_shape
      else ok (l.write_hosted (hosted_on_disk h))

  -- `DecodeHostedRoom`
  unfoldable pub decode_hosted : Text → Result BookError HostedRoom
  decode_hosted raw = or_shape (l.read_hosted raw) >>= λ j. room_from j.invite_id j.seed >>= λ room.
      as_shape (parse_nickname j.host) >>= λ host.
      fixed_from_base64 network_id_len j.network_id >>= λ network_id.
      fixed_from_base64 network_secret_len j.network_secret >>= λ network_secret.
      fixed_from_base64 card_key_len j.card_key >>= λ card_key. parse_card j.card >>= λ card.
      (or_shape (l.parse_prefix j.subnet) >>= λ p. check_room_subnet p) >>= λ subnet.
      check_game_id j.game_id >>= λ game_id. parse_saved_at j.saved_at >>= λ saved_at. ok (record {
        room = room;
        name = clamp_room_name j.name;
        host = host;
        network_id = network_id;
        network_secret = network_secret;
        subnet = subnet;
        card_key = card_key;
        card = card;
        game_id = game_id;
        members_gen = j.members_gen;
        saved_at = saved_at;
      })

  -- The seed of `LastRoom.Encode`: one of another length is left out.
  abbrev pub seed_on_disk : List ℕ → Text
  seed_on_disk k = if nat_beq (length k) member_seed_len then l.encode_bytes k else []

  abbrev pub last_on_disk : LastRoom → LastOnDisk
  last_on_disk r = record {
    invite_id = print_invite_id r.room.invite_id;
    seed = r.room.seed;
    name = r.name;
    nick = r.nick;
    saved_at = l.print_time r.saved_at;
    auto_return = r.auto_return;
    member_seed = seed_on_disk r.member_seed;
  }

  -- `LastRoom.Encode`
  unfoldable pub encode_last : LastRoom → Result BookError Text
  encode_last r =
      if is_empty r.room.invite_id then err persisted_shape else ok (l.write_last (last_on_disk r))

  -- The seed of `DecodeLastRoom`, which may be absent.
  unfoldable pub parse_member_seed : Text → Result BookError (List ℕ)
  parse_member_seed s = if is_empty s then ok [] else fixed_from_base64 member_seed_len s

  -- `DecodeLastRoom`
  unfoldable pub decode_last : Text → Result BookError LastRoom
  decode_last raw = or_shape (l.read_last raw) >>= λ j. room_from j.invite_id j.seed >>= λ room.
      as_shape (parse_nickname j.nick) >>= λ nick. parse_saved_at j.saved_at >>= λ saved_at.
      parse_member_seed j.member_seed >>= λ seed. ok (record {
        room = room;
        name = clamp_room_name j.name;
        nick = nick;
        saved_at = saved_at;
        member_seed = seed;
        auto_return = j.auto_return;
      })

  abbrev pub with_last : Result BookError LastRoom → Guest → Guest
  with_last (ok r) s = record s { last = some r }
  with_last (err e) s = s

  -- `loadLast` of core/usecase/returnroom.go: a file that is absent or not read changes nothing.
  unfoldable pub load_last : Option Text → Guest → Guest
  load_last none s = s
  load_last (some raw) s = with_last (decode_last raw) s
