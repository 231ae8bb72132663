-- ===== src/Examples/ApiRuns.antt =====
-- Requests to a registry with one room, on a closed seed and on an open one.
use kanpachi.Base.{
  ℕ, zero, suc, ◌+◌, ◌*◌, ◌^◌, ◌≡◌, refl, true, List, [], ◌∷◌, Option, none, some, arith, ok, store,
  purge, err, Text, codes, lookup, text_eq, ◌⊎◌,
}
use kanpachi.Net.{Time}
use kanpachi.InviteId.{parse_invite_id, normalize}
use kanpachi.Limits.{new_limiter}
use kanpachi.SeedAuth.{Credential, allows_by, verify, verify_raw}
use kanpachi.RoomCode.{has_scheme}
use kanpachi.RoomClose.{passes_close_time, saturated_sub}
use kanpachi.Registry.{Room, room_ttl, retire, retire_at, look_up, not_found}
use kanpachi.Registry.Ownership.{IsOwned}
use kanpachi.Api.{
  Server, Crypto, CloseBody, PublishBody, Reply, empties, refuses, is_unauthorized, reauth, no_sub,
  is_rate_limited, handle_close, close_under, close_signed, with_rooms, reply_with, bearer, decoded,
  parts_of,
}
use kanpachi.Api.Routes.{delete_room, put_room, get_room, handle}
use kanpachi.Api.Steps.{Effect, handle-Effect, handle_all, handle_all-IsOwned}
use kanpachi.Api.Doors.{IsSignedClose, handle-token_of, handle_close_lem}

abbrev bytes_of : ℕ → ℕ → List ℕ
bytes_of zero b = []
bytes_of (suc n) b = b ∷ bytes_of n b

-- Stand-ins for the ciphers, with which every signature passes.
abbrev toy : Crypto
toy = record {
  encode = λ bytes. bytes;
  decode = λ t. some t;
  verify = λ key message sig. true;
  hmac = λ key message. bytes_of 32 0;
  argon = λ proof salt t m p. bytes_of 32 0;
  network = λ id. codes "net-";
  members = λ name. none;
}

abbrev ana_key : List ℕ
ana_key = bytes_of 32 1

abbrev ana_room : Room
ana_room = record {
  host_key = ana_key;
  card = 9 ∷ [];
  sig = bytes_of 64 1;
  rendezvous_name = codes "net-";
  pin_until = room_ttl + 5;
  closed_at = 0;
}

abbrev door : Option Credential → Server
door cred = record {
  rooms = (codes "A7K2M9QX", ana_room) ∷ [];
  limiter = new_limiter 30 (60 * 10 ^ 9);
  auth_limiter = new_limiter 5 (60 * 10 ^ 9);
  auth = record { has_path = true; cred = cred };
  failures = 0;
}

abbrev closed_cred : Credential
closed_cred = record {
  version = 1;
  salt = bytes_of 16 0;
  hash = bytes_of 32 0;
  signing = bytes_of 32 0;
  time = 3;
  memory = 65536;
  threads = 4;
}

-- 1970-01-01, and the stamp 0.
abbrev start : Time
start = 62135596800 * 10 ^ 9

abbrev goodbye : CloseBody
goodbye = record { host_key = ana_key; sig = bytes_of 64 1; ts = 0 }

abbrev takeover : PublishBody
takeover = record { host_key = bytes_of 32 2; card = 7 ∷ []; sig = bytes_of 64 2 }

handle-Effect_example :
    Effect toy
      (some (retire_at 7 7 (codes "A7K2M9QX") ana_key))
      (door none).rooms
      (handle toy
        (codes "10.0.0.1")
        7
        (delete_room [] 7 start 7 7 (codes "a7k2-m9qx") (some goodbye))
        (door none)).0.rooms
unfolding parse_invite_id normalize
handle-Effect_example =
    handle-Effect toy (codes "10.0.0.1") 7
      (delete_room [] 7 start 7 7 (codes "a7k2-m9qx") (some goodbye)) (door none)

abbrev visits : List (Text × Time × kanpachi.Api.Routes.Request)
visits =
    (codes "10.0.0.2", 7, put_room [] 7 7 7 (codes "A7K2M9QX") (some takeover))
    ∷ (codes "10.0.0.1", 8, get_room (codes "A7K2M9QX"))
    ∷ []

handle_all-IsOwned_example :
    IsOwned (codes "A7K2M9QX") ana_key (codes "net-") 8 (handle_all toy visits (door none)).rooms
unfolding lookup parse_invite_id normalize decoded parts_of
handle_all-IsOwned_example =
    handle_all-IsOwned toy (codes "A7K2M9QX") ana_key (codes "net-") 8 visits (door none)
      (λ q e. ground (arith, e), (λ q e. cc, tt))
      (record {
        is_map = (refl, tt);
        room = ana_room;
        found = refl;
        key_same = refl;
        name_same = refl;
        lasts = omega arith;
      })

-- A token that does not decode to 57 bytes.
handle-token_of_example :
    ((handle toy
        (codes "10.0.0.2")
        7
        (put_room [] 7 7 7 (codes "A7K2M9QX") (some takeover))
        (door (some closed_cred))).0.rooms
      ≡ (door (some closed_cred)).rooms)
    × (((handle toy
            (codes "10.0.0.2")
            7
            (put_room [] 7 7 7 (codes "A7K2M9QX") (some takeover))
            (door (some closed_cred))).1
          ≡ refuses 401 is_unauthorized reauth)
        ⊎ ((handle toy
              (codes "10.0.0.2")
              7
              (put_room [] 7 7 7 (codes "A7K2M9QX") (some takeover))
              (door (some closed_cred))).1
            ≡ refuses 429 is_rate_limited no_sub))
unfolding allows_by verify verify_raw bearer has_scheme
handle-token_of_example =
    handle-token_of toy (codes "10.0.0.2") [] 7 7
      (put_room [] 7 7 7 (codes "A7K2M9QX") (some takeover)) (door (some closed_cred)) refl refl

handle_close_example :
    (id : Text) × (parse_invite_id (codes "a7k2-m9qx") ≡ ok id)
    × ((key : List ℕ) × IsSignedClose toy start id key goodbye)
    × (look_up id
          (handle_close toy start 7 7 (codes "a7k2-m9qx") (some goodbye) (door none)).0.rooms
        ≡ err not_found)
unfolding handle_close close_under close_signed with_rooms reply_with parse_invite_id normalize
    passes_close_time saturated_sub retire lookup store purge
handle_close_example =
    handle_close_lem toy start 7 7 (codes "a7k2-m9qx") goodbye (door none) (λ e. omega (arith, e))
      refl
