-- ===== src/Book.antt =====
-- The book of credentials that a host keeps on its disk (core/domain/credentialbook.go) and the
-- record of its room (`HostedRoom` of hostedroom.go). What writes and reads JSON, addresses and
-- base64 is the Go library: a parameter. `Encode` never fails on these types. A count of Unix seconds
-- is kept as seconds after the zero time, which is the count plus 62,135,596,800.
pub mod Filter
pub mod Loading
pub mod Disk
use kanpachi.Base.{
  ℕ, ◌*◌, ◌/◌, ◌^◌, Bool, not, ◌&&◌, ◌||◌, List, [], ◌∷◌, Option, none, some, ltb, nat_beq,
  if◌then◌else◌, ◌==◌, text_eq, Result, ok, err, Text, is_empty,
}
use kanpachi.Net.{Time, Addr, is_valid, is4}
use kanpachi.State.Types.{Room}
use kanpachi.InviteId.{print_invite_id}
use kanpachi.Members.{Nickname}
use kanpachi.Nick.{NicknameError, parse_nickname}
use kanpachi.Session.{BookEntry}

-- `bookVersion`
abbrev pub book_version : ℕ
book_version = 1

pub record CredentialBook : Type 0 where
  pub gen : ℕ
  pub room : Room
  pub entries : List BookEntry

-- `entryOnDisk` and `bookOnDisk`
pub record EntryOnDisk : Type 0 where
  pub ip : Text
  pub id : Text
  pub name : Text
  pub member_key : Text
  pub issued_at : ℕ
  pub expires_at : ℕ
  pub revoked : Bool

pub record BookOnDisk : Type 0 where
  pub version : ℕ
  pub gen : ℕ
  pub code : Text
  pub seed : Text
  pub entries : List EntryOnDisk

-- `ErrPersistedShape`, `ErrBookRolledBack`, `ErrBookOtherRoom`
pub data BookError : Type 0 where
  persisted_shape book_rolled_back book_other_room : BookError

-- `netip.Addr.String` and `ParseAddr`, base64, and `json.Marshal` and `Unmarshal` on a book.
pub record Library : Type 0 where
  pub print_addr : Addr → Text
  pub parse_addr : Text → Option Addr
  pub encode_bytes : List ℕ → Text
  pub decode_bytes : Text → Option (List ℕ)
  pub marshal : BookOnDisk → Text
  pub unmarshal : Text → Option BookOnDisk

-- `t.Unix()` and `time.Unix(s, 0)`
abbrev pub to_unix : Time → ℕ
to_unix t = t / 10 ^ 9

abbrev pub of_unix : ℕ → Time
of_unix s = s * 10 ^ 9

-- `nombre, err := ParseNickname(…)`, with the empty name for an error.
abbrev pub name_or_empty : Result NicknameError Nickname → Nickname
name_or_empty (ok n) = n
name_or_empty (err e) = []

-- `!room.InviteID.IsZero() && !ip.Is4()`
abbrev pub is_out_of_family : Room → Addr → Bool
is_out_of_family room ip = not (is_empty room.invite_id) && not (is4 ip)

module _ (l : Library) where
  abbrev pub entry_on_disk : BookEntry → EntryOnDisk
  entry_on_disk e = record {
    ip = l.print_addr e.virtual_ip;
    id = e.id;
    name = e.name;
    member_key = l.encode_bytes e.member_key;
    issued_at = to_unix e.issued_at;
    expires_at = to_unix e.expires_at;
    revoked = e.revoked;
  }

  -- The loop of `CredentialBook.Encode`.
  unfoldable pub entries_on_disk : List BookEntry → List EntryOnDisk
  entries_on_disk [] = []
  entries_on_disk (e ∷ es) =
      let rest = entries_on_disk es in
      if not (is_valid e.virtual_ip) then rest else entry_on_disk e ∷ rest

  abbrev pub on_disk : CredentialBook → BookOnDisk
  on_disk b = record {
    version = book_version;
    gen = b.gen;
    code = print_invite_id b.room.invite_id;
    seed = b.room.seed;
    entries = entries_on_disk b.entries;
  }

  -- `CredentialBook.Encode`
  abbrev pub encode_book : CredentialBook → Text
  encode_book b = l.marshal (on_disk b)

  -- The tests of an entry in the loop of `DecodeCredentialBook`, once its address and its key are
  -- read: `none` is its `continue`.
  unfoldable pub entry_of_parts :
      Room → Time → EntryOnDisk → Option Addr → Option (List ℕ) → Option BookEntry
  entry_of_parts room now e none key = none
  entry_of_parts room now e (some ip) none = none
  entry_of_parts room now e (some ip) (some key) =
      if not (is_valid ip)
        || is_out_of_family room ip
        || not (ltb now (of_unix e.expires_at))
        || is_empty key
      then none
      else some (record {
        virtual_ip = ip;
        id = e.id;
        name = name_or_empty (parse_nickname e.name);
        member_key = key;
        issued_at = of_unix e.issued_at;
        expires_at = of_unix e.expires_at;
        revoked = e.revoked;
      })

  abbrev pub decode_entry : Room → Time → EntryOnDisk → Option BookEntry
  decode_entry room now e =
      entry_of_parts room now e (l.parse_addr e.ip) (l.decode_bytes e.member_key)

  abbrev pub with_some : Option BookEntry → List BookEntry → List BookEntry
  with_some none es = es
  with_some (some e) es = e ∷ es

  -- The loop of `DecodeCredentialBook`.
  unfoldable pub decode_entries : Room → Time → List EntryOnDisk → List BookEntry
  decode_entries room now [] = []
  decode_entries room now (e ∷ es) =
      with_some (decode_entry room now e) (decode_entries room now es)

  -- The tests of the envelope.
  unfoldable pub check_book : ℕ → Room → Time → Option BookOnDisk → Result BookError CredentialBook
  check_book known room now none = err persisted_shape
  check_book known room now (some d) =
      if not (nat_beq d.version book_version)
      then err persisted_shape
      else if ltb d.gen known
      then err book_rolled_back
      else if not (d.code == print_invite_id room.invite_id) || not (d.seed == room.seed)
      then err book_other_room
      else ok (record { gen = d.gen; room = room; entries = decode_entries room now d.entries })

  -- `DecodeCredentialBook`
  unfoldable pub decode_book : Text → ℕ → Room → Time → Result BookError CredentialBook
  decode_book raw known room now = check_book known room now (l.unmarshal raw)
