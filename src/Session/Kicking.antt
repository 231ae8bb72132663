-- ===== src/Session/Kicking.antt =====
-- Putting a member out (core/usecase/kickmember.go): the operation, in the order of its calls.
use kanpachi.Base.{
  ◌+◌, Bool, true, false, ◌&&◌, ◌||◌, List, [], ◌∷◌, ◌++◌, Option, none, some, if◌then◌else◌,
  Result, ok, err, Text, lookup, store,
}
use kanpachi.Net.{Time, Addr, addr_eq}
use kanpachi.Members.{Credential, is_expired, no_path, Member, at}
use kanpachi.State.{drop_alerts}
use kanpachi.State.Types.{Peer, kick_incomplete}
use kanpachi.Session.{
  Session, SessionError, not_a_member, self_kick, kick_partial, Call, notifies_kicked, revokes,
  restricts, applies, require_host, save_members, authorized_control_ips, virtual_ip_of, drop_peer,
  arrival_grace, after_apply,
}

-- What an expulsion meets: the readings of the clock, whether the engine revokes and the firewall
-- takes the rules, and the wording of the alert.
pub record KickRun : Type 0 where
  pub checked_at : Time
  pub now : Time
  pub scoped_at : Time
  pub applied_at : Time
  pub is_revoked : Bool
  pub is_applied : Bool
  pub detail : Text

-- The answer of `memberAtLocked` for an entry of the table.
unfoldable pub peer_of_entry : Time → Addr → Option Member → Option Peer
peer_of_entry now ip none = none
peer_of_entry now ip (some m) = elim (m.cred) [
  | none ↦ none
  | some c ↦
      if c.revoked || is_expired c now
      then none
      else some (record {
        virtual_ip = ip;
        name = c.name;
        path = no_path;
        rtt = 0;
        self = false;
        host = false;
        away = false;
        away_for = 0;
        seat_frees_in = 0;
      })
]

unfoldable pub or_entry : Option Peer → Option Peer → Option Peer
or_entry (some p) entry = some p
or_entry none entry = entry

-- `memberAtLocked`
unfoldable pub member_at : Time → Addr → Session → Option Peer
member_at now ip s =
    or_entry (virtual_ip_of ip s.state.peers) (peer_of_entry now ip (lookup ip s.members))

unfoldable pub cred_of_entry : Option Member → Option Credential
cred_of_entry none = none
cred_of_entry (some m) = m.cred

-- `credentialFor`
abbrev pub credential_for : Addr → Session → Option Credential
credential_for ip s = cred_of_entry (lookup ip s.members)

abbrev pub revoked_cred : Time → Option Credential → Option Credential
revoked_cred now none = none
revoked_cred now (some c) = some (record c { revoked = true; expires_at = now + arrival_grace })

-- The entry of a member that is put out.
abbrev pub kicked_entry : Time → Member → Member
kicked_entry now m =
    let p = m.presence in
    record m {
      presence = record p { kicked = true; kicked_at = now };
      cred = revoked_cred now m.cred;
    }

-- What the operation writes before the second layer.
unfoldable pub put_out : Time → Addr → Session → Session
put_out now ip s =
    let (m, t) = at ip s.members in
    record s { members = store ip (kicked_entry now m) t; state = drop_peer ip s.state }

-- `raiseKickAlertLocked`
unfoldable pub raise_kick_alert : Text → Session → Session
raise_kick_alert detail s =
    let r = drop_alerts s.state kick_incomplete in
    record s {
      state = record r {
        alerts = r.alerts ++ record { kind = kick_incomplete; detail = detail } ∷ [];
      };
    }

-- The end of `KickMember`, with the answer of `applyPolicy`.
unfoldable pub kick_done :
    KickRun → List Call → Session → Session × List Call × Result SessionError (Unit {0})
kick_done k calls s =
    let s' = after_apply k.is_applied s in
    if k.is_revoked && k.is_applied
    then (s', calls ++ save_members s', ok tt)
    else (raise_kick_alert k.detail s', calls, err kick_partial)

-- Its calls up to the rules: none is skipped.
abbrev pub kick_calls : KickRun → Addr → Credential → Session → List Call
kick_calls k ip c s =
    notifies_kicked ip
    ∷ revokes c.id
    ∷ restricts (authorized_control_ips s k.scoped_at)
    ∷ applies (authorized_control_ips s k.applied_at)
    ∷ []

unfoldable pub kick_cred :
    KickRun
    → Addr
    → Option Credential
    → Session
    → Session × List Call × Result SessionError (Unit {0})
kick_cred k ip none s = (s, [], err not_a_member)
kick_cred k ip (some c) s = let s' = put_out k.now ip s in kick_done k (kick_calls k ip c s') s'

unfoldable pub kick_peer :
    KickRun → Addr → Option Peer → Session → Session × List Call × Result SessionError (Unit {0})
kick_peer k ip none s = (s, [], err not_a_member)
kick_peer k ip (some p) s =
    if p.self then (s, [], err self_kick) else kick_cred k ip (credential_for ip s) s

unfoldable pub kick_checked :
    KickRun
    → Addr
    → Result SessionError (Unit {0})
    → Session
    → Session × List Call × Result SessionError (Unit {0})
kick_checked k ip (err e) s = (s, [], err e)
kick_checked k ip (ok _) s = kick_peer k ip (member_at k.checked_at ip s) s

-- `KickMember`
unfoldable pub kick_member :
    KickRun → Addr → Session → Session × List Call × Result SessionError (Unit {0})
kick_member k ip s = kick_checked k ip (require_host s) s
