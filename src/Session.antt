-- ===== src/Session.antt =====
-- The host's side of a session (core/usecase): who gets a credential and which address
-- (issuecredential.go), who is put out (kickmember.go), and the book that is saved (persist.go). The
-- session's lock makes each operation atomic. A call to a port of the core is a `Call`, in order;
-- its answer is an argument, as are the readings of the clock. The calls that set the rules and the
-- scope of the control channel carry the addresses that they authorize; the rest of the rules is
-- modelled with the firewall policy. Logs are left out.
pub mod Issuing
pub mod Kicking
pub mod Addresses
pub mod Seats
pub mod Expulsion
pub mod Notices
pub mod Turns
pub mod Telling
use kanpachi.Base.{
  ℕ, zero, suc, ◌+◌, ◌-◌, ◌*◌, ◌/◌, ◌%◌, ◌^◌, Bool, true, false, not, ◌&&◌, ◌||◌, List, [], ◌∷◌,
  ◌++◌, Option, none, some, nat_beq, leb, if◌then◌else◌, ◌==◌, text_eq, Result, ok, err, Text,
  filter, find, is_empty, lookup, store, contains,
}
use kanpachi.Net.{
  Time, is_zero, Addr, no_addr, v4, v6, is_valid, addr_eq, Prefix, no_prefix, prefix,
}
use kanpachi.Addressing.{host_address, next, overlaps}
use kanpachi.Policy.{is_host}
use kanpachi.Members.{
  Nickname, Credential, is_expired, has_live_cred, Member, MemberTable, at, member_ips_of,
}
use kanpachi.State.{in_room, member_ips, drop_alerts}
use kanpachi.State.Types.{Peer, RoomState, Alert, kick_incomplete}

-- `timing.CredentialTTL` and `timing.ArrivalGrace`, in nanoseconds.
abbrev pub credential_ttl : ℕ
credential_ttl = 24 * 3600 * 10 ^ 9

abbrev pub arrival_grace : ℕ
arrival_grace = 10 * 60 * 10 ^ 9

-- `Session`: the fields that these operations read and write, and the name of the room's network.
pub record Session : Type 0 where
  pub state : RoomState
  pub members : MemberTable
  pub network_name : Text

pub data SessionError : Type 0 where
  no_room not_host not_a_member self_kick kick_partial : SessionError
  no_nickname no_member_key no_subnet no_free_address not_issued no_token : SessionError

-- `BookEntry`
pub record BookEntry : Type 0 where
  pub virtual_ip : Addr
  pub id : Text
  pub name : Nickname
  pub member_key : List ℕ
  pub issued_at : Time
  pub expires_at : Time
  pub revoked : Bool

-- A call to the engine, the control channel, the firewall or the store.
pub data Call : Type 0 where
  notifies_kicked : Addr → Call
  revokes : Text → Call
  renews : Text → Call
  issues : Nickname → Call
  restricts : List Addr → Call
  applies : List Addr → Call
  saves : List BookEntry → Call

-- `requireHost`
unfoldable pub require_host : Session → Result SessionError (Unit {0})
require_host s =
    if not (in_room s.state.conn)
    then err no_room
    else if not (is_host s.state.role)
    then err not_host
    else ok tt

-- The entries of `saveMembersLocked`.
abbrev pub entry_of : Addr → Credential → BookEntry
entry_of ip c = record {
  virtual_ip = ip;
  id = c.id;
  name = c.name;
  member_key = c.member_key;
  issued_at = c.issued_at;
  expires_at = c.expires_at;
  revoked = c.revoked;
}

abbrev pub with_entry : Addr → Option Credential → List BookEntry → List BookEntry
with_entry ip none rest = rest
with_entry ip (some c) rest = entry_of ip c ∷ rest

unfoldable pub entries : MemberTable → List BookEntry
entries [] = []
entries ((ip, m) ∷ t) = with_entry m.ip m.cred (entries t)

-- `saveMembersLocked`
unfoldable pub save_members : Session → List Call
save_members s =
    if not (is_host s.state.role) || not (in_room s.state.conn) || is_empty s.state.room.invite_id
    then []
    else saves (entries s.members) ∷ []

-- `authorizedControlIPsLocked`
unfoldable pub authorized_control_ips : Session → Time → List Addr
authorized_control_ips s now =
    if not (is_host s.state.role)
    then member_ips s.state.peers
    else member_ips_of now s.state.local_ip s.members

-- `lastAddress`, for a prefix of at most 32 bits.
unfoldable pub last_address : Prefix → Addr
last_address (prefix (v4 a) bits) =
    v4 (a / 2 ^ (32 - bits) * 2 ^ (32 - bits) + (2 ^ (32 - bits) - 1))
last_address _ = no_addr

-- `subnet.Addr()`
abbrev pub first_address : Prefix → Addr
first_address no_prefix = no_addr
first_address (prefix a bits) = a

-- What holds an address in the loop of `takenAddressesLocked`.
abbrev pub holds_address : Time → Addr → Member → Bool
holds_address now ip m = is_valid ip && (m.presence.in_mesh || has_live_cred m.cred now)

unfoldable pub held_addresses : Time → MemberTable → List Addr
held_addresses now [] = []
held_addresses now ((ip, m) ∷ t) =
    let rest = held_addresses now t in if holds_address now ip m then ip ∷ rest else rest

-- `takenAddressesLocked`, the keys of its map.
unfoldable pub taken_addresses : Time → Session → List Addr
taken_addresses now s =
    first_address s.state.subnet
    ∷ host_address s.state.subnet
    ∷ last_address s.state.subnet
    ∷ held_addresses now s.members

-- `subnet.Contains(a)`, on IPv4.
abbrev pub prefix_contains : Prefix → Addr → Bool
prefix_contains (prefix (v4 b) bits) (v4 a) = nat_beq (a / 2 ^ (32 - bits)) (b / 2 ^ (32 - bits))
prefix_contains _ _ = false

-- The loop of `nextFreeAddress`, on fuel.
unfoldable pub free_from : ℕ → Prefix → List Addr → Addr → Result SessionError Addr
free_from zero subnet taken a = err no_free_address
free_from (suc n) subnet taken a =
    let rest = free_from n subnet taken (next a) in
    if not (prefix_contains subnet a)
    then err no_free_address
    else if not (contains a taken)
    then ok a
    else rest

-- `nextFreeAddress`, on an IPv4 subnet, with a turn for each of its addresses.
unfoldable pub next_free_address : Prefix → List Addr → Result SessionError Addr
next_free_address (prefix (v4 a) bits) taken =
    free_from (2 ^ (32 - bits)) (prefix (v4 a) bits) taken (v4 a)
next_free_address _ taken = err no_subnet

-- What `credentialByMemberLocked` looks for.
abbrev pub is_cred_of : Time → List ℕ → Option Credential → Bool
is_cred_of now key none = false
is_cred_of now key (some c) = not (c.revoked || is_expired c now || not (c.member_key == key))

-- `credentialByMemberLocked`, in the order of the map's iteration.
unfoldable pub credential_by_member : Time → List ℕ → MemberTable → Option (Addr × Credential)
credential_by_member now key [] = none
credential_by_member now key ((ip, m) ∷ t) = elim (m.cred) [
  | none ↦ credential_by_member now key t
  | some c ↦ if is_cred_of now key (some c) then some (ip, c) else credential_by_member now key t
]

-- `virtualIPOf`
unfoldable pub virtual_ip_of : Addr → List Peer → Option Peer
virtual_ip_of ip ps = find (λ p. p.virtual_ip == ip) ps

-- `dropPeerLocked`
unfoldable pub drop_peer : Addr → RoomState → RoomState
drop_peer ip r = record r { peers = filter (λ p. not (p.virtual_ip == ip)) r.peers }

-- What `applyRuleSetLocked` makes of the alert of an expulsion: rules that the firewall takes close it.
abbrev pub after_apply : Bool → Session → Session
after_apply applied s = record s {
  state = if applied then drop_alerts s.state kick_incomplete else s.state;
}
