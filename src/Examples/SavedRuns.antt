-- ===== src/Examples/SavedRuns.antt =====
-- The file of an open room, and a guest whose daemon stops and starts again.
use kanpachi.Base.{
  ℕ, ◌≡◌, refl, true, false, List, [], ◌∷◌, ◌>>=◌, Option, none, some, arith, ok, codes, Text, inl,
  inr,
}
use kanpachi.Net.{Time, v4, v6, no_addr, Prefix, no_prefix, prefix}
use kanpachi.State.Types.{exit_failed}
use kanpachi.Addressing.{is_v4_prefix}
use kanpachi.InviteId.{parse_invite_id, normalize}
use kanpachi.RoomCode.{
  parse_room, before, without_scheme, has_scheme, parts, after, room_of, with_invite,
  parse_seed_host, trim_last, is_host, split,
}
use kanpachi.Nick.{parse_nickname, check_symbols}
use kanpachi.Book.{to_unix, of_unix}
use kanpachi.Book.Filter.{whole}
use kanpachi.Guest.{Guest}
use kanpachi.Guest.Return.{return_due}
use kanpachi.Guest.Leaving.{last_room_of}
use kanpachi.Saved.{
  HostedRoom, HostedOnDisk, LastOnDisk, SavedLibrary, hosted_on_disk, last_on_disk, encode_hosted,
  decode_hosted, encode_last, load_last,
}
use kanpachi.Saved.RoundTrip.{Rereads, IsHosted, decode_hosted-encode_hosted}
use kanpachi.Saved.Restart.{return_due-load_last}
use kanpachi.Examples.GuestRuns.{cove, inside, outside}

abbrev print_net : Prefix → Text
print_net (prefix (v4 a) bits) = a ∷ bits ∷ []
print_net _ = []

abbrev parse_net : Text → Option Prefix
parse_net [] = none
parse_net (a ∷ []) = none
parse_net (a ∷ bits ∷ s) = some (prefix (v4 a) bits)

abbrev parse_date : Text → Option Time
parse_date [] = none
parse_date (s ∷ t) = some (of_unix s)

-- Each file holds one document.
abbrev files : HostedOnDisk → LastOnDisk → SavedLibrary
files h r = record {
  encode_bytes = λ k. k;
  decode_bytes = λ t. some t;
  print_prefix = print_net;
  parse_prefix = parse_net;
  print_time = λ t. to_unix t ∷ [];
  parse_time = parse_date;
  to_lower = λ c. c;
  write_hosted = λ d. [];
  read_hosted = λ t. some h;
  write_last = λ d. [];
  read_last = λ t. some r;
}

files-subnet : (p : Prefix) → is_v4_prefix p ≡ true → parse_net (print_net p) ≡ some p
files-subnet no_prefix h = cc
files-subnet (prefix no_addr bits) h = cc
files-subnet (prefix (v4 a) bits) h = refl
files-subnet (prefix (v6 a z) bits) h = cc

files-Rereads : (h : HostedOnDisk) (r : LastOnDisk) → Rereads (files h r)
files-Rereads h r = record {
  bytes = λ k e. refl;
  bytes_pos = λ k. refl;
  subnet = files-subnet;
  date = λ t. refl;
  date_pos = λ t. refl;
  lower = λ c e. refl;
}

abbrev sixteen : List ℕ
sixteen = 1 ∷ 2 ∷ 3 ∷ 4 ∷ 5 ∷ 6 ∷ 7 ∷ 8 ∷ 9 ∷ 10 ∷ 11 ∷ 12 ∷ 13 ∷ 14 ∷ 15 ∷ 16 ∷ []

abbrev secret : List ℕ
secret =
    1 ∷ 2 ∷ 3 ∷ 4 ∷ 5 ∷ 6 ∷ 7 ∷ 8 ∷ 9 ∷ 10 ∷ 11 ∷ 12 ∷ 13 ∷ 14 ∷ 15 ∷ 16 ∷ 17 ∷ 18 ∷ 19 ∷ 20 ∷ 21
    ∷ 22 ∷ 23 ∷ 24 ∷ 25 ∷ 26 ∷ 27 ∷ 28 ∷ 29 ∷ 30 ∷ 31 ∷ 32 ∷ []

abbrev open_room : HostedRoom
open_room = record {
  room = cove;
  name = codes "la sala";
  host = codes "beto";
  network_id = sixteen;
  network_secret = secret;
  subnet = prefix (v4 0x64400000) 24;
  card_key = secret;
  card = 7 ∷ [];
  game_id = [];
  members_gen = 3;
  saved_at = 5;
}

abbrev no_last : LastOnDisk
no_last = record {
  invite_id = [];
  seed = [];
  name = [];
  nick = [];
  saved_at = [];
  auto_return = false;
  member_seed = [];
}

abbrev no_hosted : HostedOnDisk
no_hosted = record {
  invite_id = [];
  seed = [];
  name = [];
  host = [];
  network_id = [];
  network_secret = [];
  subnet = [];
  card_key = [];
  card = [];
  game_id = [];
  members_gen = 0;
  saved_at = [];
}

abbrev host_files : SavedLibrary
host_files = files (hosted_on_disk (files no_hosted no_last) open_room) no_last

open_room-IsHosted : IsHosted open_room
unfolding parse_nickname check_symbols
open_room-IsHosted = record {
  name = omega arith;
  host = refl;
  network_id = (refl, refl);
  network_secret = (refl, refl);
  card_key = (refl, refl);
  card = (refl, omega arith);
  subnet = (refl, refl, inl refl);
  game_id = inl refl;
}

cove-read :
    parse_room (λ c. c) (codes "kanpachi.gg/A7K2-M9QX")
    ≡ ok (record { invite_id = codes "A7K2M9QX"; seed = codes "kanpachi.gg" })
unfolding parse_room before without_scheme has_scheme parts after room_of with_invite
    parse_seed_host trim_last is_host split parse_invite_id normalize
cove-read = refl

decode_hosted-encode_hosted_example :
    (encode_hosted host_files open_room >>= λ raw. decode_hosted host_files raw)
    ≡ ok (record open_room { saved_at = whole 5 })
decode_hosted-encode_hosted_example =
    decode_hosted-encode_hosted host_files open_room (codes "kanpachi.gg/A7K2-M9QX")
      (record { invite_id = codes "A7K2M9QX"; seed = codes "kanpachi.gg" })
      (files-Rereads (hosted_on_disk (files no_hosted no_last) open_room) no_last) refl
      open_room-IsHosted cove-read refl

abbrev leaver : Guest
leaver = record inside { member_seed = secret }

abbrev guest_files : SavedLibrary
guest_files =
    files no_hosted (last_on_disk (files no_hosted no_last) (last_room_of 60 exit_failed leaver))

leaver-written : encode_last guest_files (last_room_of 60 exit_failed leaver) ≡ ok []
unfolding encode_last
leaver-written = refl

ana-nickname : parse_nickname (codes "ana") ≡ ok (codes "ana")
unfolding parse_nickname check_symbols
ana-nickname = refl

return_due-load_last_example :
    (return_due 90 (load_last guest_files (some []) outside) ≡ true)
    × ((load_last guest_files (some []) outside).last
        ≡ some (record (last_room_of 60 exit_failed leaver) { saved_at = whole 60 }))
return_due-load_last_example =
    return_due-load_last guest_files exit_failed 60 90 leaver outside []
      (codes "kanpachi.gg/A7K2-M9QX")
      (record { invite_id = codes "A7K2M9QX"; seed = codes "kanpachi.gg" })
      (files-Rereads no_hosted
        (last_on_disk (files no_hosted no_last) (last_room_of 60 exit_failed leaver)))
      refl leaver-written (omega arith) ana-nickname (inr (refl, refl)) cove-read refl refl refl
      refl
