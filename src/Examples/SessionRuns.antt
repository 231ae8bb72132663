-- ===== src/Examples/SessionRuns.antt =====
-- A host with one guest: the guest knocks, is put out, and knocks again.
use kanpachi.Base.{
  ℕ, ◌+◌, ◌*◌, ◌^◌, ◌≤◌, ◌<◌, ◌≡◌, refl, true, false, [], ◌∷◌, none, some, arith, ok, err, codes,
  lookup, contains, text_eq,
}
use kanpachi.Net.{Addr, v4, v6, addr_eq, prefix}
use kanpachi.Policy.{host}
use kanpachi.Members.{Credential, Member, new_member, path_direct}
use kanpachi.State.Types.{Peer, connected}
use kanpachi.InviteId.{parse_invite_id, normalize}
use kanpachi.RoomCode.{
  Room, parse_room, invite_url, before, without_scheme, has_scheme, parts, after, room_of,
  with_invite, parse_seed_host, trim_last, is_host, split,
}
use kanpachi.Session.{
  Session, SessionError, require_host, virtual_ip_of, next_free_address, prefix_contains,
}
use kanpachi.Session.Kicking.{KickRun, member_at, or_entry, kicked_entry, kick_member}
use kanpachi.Session.Issuing.{IssueRun, issue_credential_for}
use kanpachi.Session.Addresses.{next_free_address_lem}
use kanpachi.Session.Expulsion.{issue-kick_member}
use kanpachi.RoomCode.RoundTrip.{parse_room-invite_url}
use kanpachi.RoomCode.Reserved.{passes_seed_check, passes_seed_check_lem}
use kanpachi.Examples.StateRuns.{fresh}

abbrev pub pass : Credential
pass = record {
  id = codes "c1";
  token = codes "t1";
  network_name = codes "net";
  name = codes "ana";
  virtual_ip = v4 258;
  subnet = prefix (v4 256) 24;
  issued_at = 10;
  expires_at = 1000;
  member_key = 7 ∷ [];
  revoked = false;
}

abbrev pub ana : Member
ana = record (new_member (v4 258)) { name = codes "ana"; cred = some pass }

abbrev pub ana_peer : Peer
ana_peer = record {
  virtual_ip = v4 258;
  name = codes "ana";
  path = path_direct;
  rtt = 9;
  self = false;
  host = false;
  away = false;
  away_for = 0;
  seat_frees_in = 0;
}

abbrev pub hosting : Session
hosting = record {
  state = record fresh {
    conn = connected;
    role = host;
    local_ip = v4 257;
    subnet = prefix (v4 256) 24;
    peers = ana_peer ∷ [];
  };
  members = (v4 258, ana) ∷ [];
  network_name = codes "net";
}

-- The firewall refuses the rules.
abbrev pub half_kick : KickRun
half_kick = record {
  checked_at = 20;
  now = 20;
  scoped_at = 20;
  applied_at = 21;
  is_revoked = true;
  is_applied = false;
  detail = codes "rules";
}

abbrev pub knock : IssueRun
knock = record {
  searched_at = 30;
  taken_at = 30;
  now = 30;
  applied_at = 31;
  scoped_at = 31;
  is_applied = true;
  renewed = none;
  issued = some (record pass { id = codes "c2"; token = codes "t2" });
}

issue-kick_member_example :
    lookup
      (v4 258)
      (issue_credential_for knock
        (codes "ana")
        (7 ∷ [])
        (kick_member half_kick (v4 258) hosting).0).0.members
    ≡ some (kicked_entry 20 ana)
unfolding require_host member_at or_entry virtual_ip_of lookup
issue-kick_member_example =
    issue-kick_member half_kick (v4 258) ana_peer ana pass hosting (refl, tt) refl refl refl refl
      refl knock (codes "ana") (7 ∷ []) refl (omega arith)

next_free_address_example :
    ((x : Addr)
      → next_free_address (prefix (v4 256) 30) (v4 256 ∷ v4 257 ∷ []) ≡ ok x
      → (n : ℕ) × (x ≡ v4 n)
        × (256 ≤ n)
        × (prefix_contains (prefix (v4 256) 30) (v4 n) ≡ true)
        × (contains (v4 n) (v4 256 ∷ v4 257 ∷ []) ≡ false)
        × ((j : ℕ) → 256 ≤ j → j < n → contains (v4 j) (v4 256 ∷ v4 257 ∷ []) ≡ true))
    × ((e : SessionError)
        → next_free_address (prefix (v4 256) 30) (v4 256 ∷ v4 257 ∷ []) ≡ err e
        → (j : ℕ) → 256 ≤ j
        → j < 2 ^ 32
        → prefix_contains (prefix (v4 256) 30) (v4 j) ≡ true
        → contains (v4 j) (v4 256 ∷ v4 257 ∷ []) ≡ true)
next_free_address_example = next_free_address_lem 256 30 (v4 256 ∷ v4 257 ∷ [])

abbrev home : Room
home = record { invite_id = codes "A7K2M9QX"; seed = codes "kanpachi.gg" }

parse_room-invite_url_example : parse_room (λ c. c) (invite_url home) ≡ ok home
unfolding parse_room before without_scheme has_scheme parts after room_of with_invite
    parse_seed_host trim_last is_host split parse_invite_id normalize
parse_room-invite_url_example =
    parse_room-invite_url (λ c. c) (codes " HTTPS://kanpachi.gg/a7k2-m9qx ") home (λ c h. refl) refl

passes_seed_check_example :
    (passes_seed_check (v6 (0xffff * 2 ^ 32 + (100 * 2 ^ 24 + 64 * 2 ^ 16)) [])
      ≡ passes_seed_check (v4 (100 * 2 ^ 24 + 64 * 2 ^ 16)))
    × (true ≡ true → passes_seed_check (v4 (100 * 2 ^ 24 + 64 * 2 ^ 16)) ≡ false)
passes_seed_check_example = passes_seed_check_lem (100 * 2 ^ 24 + 64 * 2 ^ 16) [] (omega arith)
