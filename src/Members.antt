-- ===== src/Members.antt =====
-- What a host knows of the machines of its room (core/domain/member.go, `Credential` and `PathKind`
-- of core/domain/peer.go). The map from addresses to `*Member` is an association list; a write
-- through the pointer that `At` returns is a `store`. Durations are in nanoseconds.
pub mod Seats
pub mod Table
use kanpachi.Base.{
  ℕ, ◌+◌, ◌-◌, ◌≤◌, Bool, true, false, not, ◌&&◌, ◌||◌, List, [], ◌∷◌, Option, none, some, ltb, leb,
  nat_beq, if◌then◌else◌, ◌==◌, Text, lookup, store, sort, itself,
}
use kanpachi.Net.{Time, is_zero, elapsed, Addr, is_valid, addr_eq, addr_order, Prefix}

-- `Nickname`, by its value.
abbrev pub Nickname : Type 0
Nickname = Text

-- `PathKind`, with its zero value.
pub data PathKind : Type 0 where
  no_path path_direct path_relay path_self path_unconfirmed : PathKind

pub record Credential : Type 0 where
  pub id : Text
  pub token : Text
  pub network_name : Text
  pub name : Nickname
  pub virtual_ip : Addr
  pub subnet : Prefix
  pub issued_at : Time
  pub expires_at : Time
  pub member_key : List ℕ
  pub revoked : Bool

-- `Expired`
unfoldable pub is_expired : Credential → Time → Bool
is_expired c now = not (is_zero c.expires_at) && not (ltb now c.expires_at)

pub record Presence : Type 0 where
  pub in_mesh : Bool
  pub mesh_at : Time
  pub has_channel : Bool
  pub channel_since : Time
  pub kicked : Bool
  pub kicked_at : Time

pub record Member : Type 0 where
  pub ip : Addr
  pub name : Nickname
  pub path : PathKind
  pub rtt : ℕ
  pub presence : Presence
  pub cred : Option Credential
  pub stale_next : Time
  pub stale_tries : ℕ
  pub self : Bool
  pub host : Bool

-- `&Member{IP: ip}`
abbrev pub new_member : Addr → Member
new_member ip = record {
  ip = ip;
  name = [];
  path = no_path;
  rtt = 0;
  presence = record {
    in_mesh = false;
    mesh_at = 0;
    has_channel = false;
    channel_since = 0;
    kicked = false;
    kicked_at = 0;
  };
  cred = none;
  stale_next = 0;
  stale_tries = 0;
  self = false;
  host = false;
}

-- `NoteMesh`
unfoldable pub note_mesh : Member → Time → PathKind → ℕ → Member
note_mesh m at path rtt =
    let p = m.presence in
    record m { presence = record p { in_mesh = true; mesh_at = at }; path = path; rtt = rtt }

-- `NoteOutOfMesh`
unfoldable pub note_out_of_mesh : Member → Member
note_out_of_mesh m =
    let p = m.presence in
    record m { presence = record p { in_mesh = false }; path = no_path; rtt = 0 }

-- `NoteChannel`
unfoldable pub note_channel : Member → Time → Member
note_channel m at =
    let p = m.presence in
    record m {
      presence = record p {
        has_channel = true;
        channel_since = if p.has_channel then p.channel_since else at;
      };
    }

-- `NoteNoChannel`
unfoldable pub note_no_channel : Member → Member
note_no_channel m =
    let p = m.presence in
    record m { presence = record p { has_channel = false; channel_since = 0 } }

-- `now.Before(since)` answers 0, else `now.Sub(since)`.
abbrev pub since : Time → Time → ℕ
since now mark = if ltb now mark then 0 else now - mark

-- `AwayFor`
unfoldable pub away_for : Member → Time → ℕ
away_for m now =
    if m.presence.in_mesh
    then 0
    else if is_zero m.presence.mesh_at
    then elim m.cred [ none ↦ 0 | some c ↦ since now c.issued_at ]
    else since now m.presence.mesh_at

-- `SeatFreesIn`: truncated subtraction is its test for what is not positive.
unfoldable pub seat_frees_in : Member → Time → ℕ
seat_frees_in m now = elim m.cred [ none ↦ 0 | some c ↦ c.expires_at - now ]

-- `m.Cred != nil && !m.Cred.Revoked && !m.Cred.Expired(now)`
abbrev pub has_seat : Option Credential → Time → Bool
has_seat none now = false
has_seat (some c) now = not c.revoked && not (is_expired c now)

-- `IsMember`
unfoldable pub is_member : Member → Time → Bool
is_member m now =
    if m.presence.kicked then false else if m.presence.in_mesh then true else has_seat m.cred now

-- `IsAway`
unfoldable pub is_away : Member → Time → Bool
is_away m now = not m.presence.in_mesh && is_member m now

abbrev pub MemberTable : Type 0
MemberTable = List (Addr × Member)

-- `At`
unfoldable pub at : Addr → MemberTable → Member × MemberTable
at ip t = elim (lookup ip t) [
  | some m ↦ (m, t)
  | none ↦ (new_member ip, store ip (new_member ip) t)
]

-- The loop of `MemberIPsOf`.
unfoldable pub member_loop : Time → Addr → MemberTable → List Addr
member_loop now self [] = []
member_loop now self ((ip, m) ∷ t) =
    let rest = member_loop now self t in
    if ip == self || not (is_valid ip) || not (is_member m now) then rest else ip ∷ rest

-- `MemberIPsOf`
unfoldable pub member_ips_of : Time → Addr → MemberTable → List Addr
member_ips_of now self t = sort itself (member_loop now self t)

-- The veto of an expulsion, lifted once `grace` has passed.
abbrev pub lift_kick : Time → ℕ → Member → Member
lift_kick now grace m =
    let p = m.presence in
    if p.kicked && elapsed now p.kicked_at grace
    then record m { presence = record p { kicked = false } }
    else m

-- `m.Cred != nil && !m.Cred.Expired(now)`
abbrev pub has_live_cred : Option Credential → Time → Bool
has_live_cred none now = false
has_live_cred (some c) now = not (is_expired c now)

-- `vivo`
abbrev pub is_alive : Member → Time → Bool
is_alive m now =
    m.presence.in_mesh || m.presence.has_channel || m.presence.kicked || has_live_cred m.cred now

-- `Forget`
unfoldable pub forget : Time → ℕ → MemberTable → MemberTable
forget now grace [] = []
forget now grace ((ip, m) ∷ t) =
    let rest = forget now grace t in
    let m' = lift_kick now grace m in if is_alive m' now then (ip, m') ∷ rest else rest
