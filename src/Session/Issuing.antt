-- ===== src/Session/Issuing.antt =====
-- Giving a credential to who knocks (core/usecase/issuecredential.go): the operation, with the
-- return of a credential to the member that has one, and the round of renewals.
use kanpachi.Base.{
  ℕ, ◌+◌, Bool, not, ◌&&◌, ◌||◌, List, [], ◌∷◌, ◌++◌, Option, none, some, ltb, if◌then◌else◌,
  Result, ok, err, Text, store, is_empty,
}
use kanpachi.Net.{Time, Addr, addr_eq}
use kanpachi.Members.{Nickname, Credential, is_expired, MemberTable, at}
use kanpachi.Session.{
  Session, SessionError, no_nickname, no_member_key, not_issued, no_token, Call, renews, issues,
  restricts, applies, require_host, save_members, authorized_control_ips, taken_addresses,
  next_free_address, credential_by_member, credential_ttl, arrival_grace, after_apply,
}

-- What a request meets: the readings of the clock, whether the engine renews the credential that is
-- found and until when, the credential that it issues, and whether the firewall takes the rules.
pub record IssueRun : Type 0 where
  pub searched_at : Time
  pub taken_at : Time
  pub now : Time
  pub applied_at : Time
  pub scoped_at : Time
  pub is_applied : Bool
  pub renewed : Option Time
  pub issued : Option Credential

-- `m := s.members.At(ip)`, then `m.Cred` and `m.Name`.
abbrev pub give : Addr → Credential → Session → Session
give ip c s =
    let (m, t) = at ip s.members in
    record s { members = store ip (record m { cred = some c; name = c.name }) t }

-- The book, the rules and the scope, after a credential was given.
abbrev pub after_giving : IssueRun → Session → List Call
after_giving k s =
    save_members s
    ++ (applies (authorized_control_ips s k.applied_at)
        ∷ restricts (authorized_control_ips s k.scoped_at)
        ∷ [])

-- The credential that the host makes of the engine's.
abbrev pub made_credential : IssueRun → Nickname → List ℕ → Addr → Credential → Session → Credential
made_credential k name key ip c s = record c {
  name = name;
  virtual_ip = ip;
  subnet = s.state.subnet;
  network_name = s.network_name;
  issued_at = k.now;
  expires_at = k.now + credential_ttl;
  member_key = key;
}

unfoldable pub issue_engine :
    IssueRun
    → Nickname
    → List ℕ
    → Addr
    → Option Credential
    → List Call
    → Session
    → Session × List Call × Result SessionError Credential
issue_engine k name key ip none calls s = (s, calls, err not_issued)
issue_engine k name key ip (some c) calls s =
    if is_empty c.token
    then (s, calls, err no_token)
    else (let c' = made_credential k name key ip c s in
        let s' = give ip c' s in (after_apply k.is_applied s', calls ++ after_giving k s', ok c'))

unfoldable pub issue_at :
    IssueRun
    → Nickname
    → List ℕ
    → Result SessionError Addr
    → List Call
    → Session
    → Session × List Call × Result SessionError Credential
issue_at k name key (err e) calls s = (s, calls, err e)
issue_at k name key (ok ip) calls s =
    issue_engine k name key ip k.issued (calls ++ issues name ∷ []) s

-- A credential at a free address of the subnet.
unfoldable pub issue_new :
    IssueRun
    → Nickname
    → List ℕ
    → List Call
    → Session
    → Session × List Call × Result SessionError Credential
issue_new k name key calls s =
    issue_at k name key (next_free_address s.state.subnet (taken_addresses k.taken_at s)) calls s

-- `s.members.At(ip).Cred = nil`
abbrev pub let_go : Addr → Session → Session
let_go ip s =
    let (m, t) = at ip s.members in record s { members = store ip (record m { cred = none }) t }

-- The credential that was found, given back if the engine renews it.
unfoldable pub give_back :
    IssueRun
    → Nickname
    → List ℕ
    → Addr
    → Credential
    → Option Time
    → Session
    → Session × List Call × Result SessionError Credential
give_back k name key ip c none s = issue_new k name key (renews c.id ∷ []) (let_go ip s)
give_back k name key ip c (some until) s =
    let c' = record c { expires_at = until; name = name } in
    let s' = give ip c' s in (after_apply k.is_applied s', renews c.id ∷ after_giving k s', ok c')

unfoldable pub issue_found :
    IssueRun
    → Nickname
    → List ℕ
    → Option (Addr × Credential)
    → Session
    → Session × List Call × Result SessionError Credential
issue_found k name key none s = issue_new k name key [] s
issue_found k name key (some (ip, c)) s = give_back k name key ip c k.renewed s

unfoldable pub issue_checked :
    IssueRun
    → Nickname
    → List ℕ
    → Result SessionError (Unit {0})
    → Session
    → Session × List Call × Result SessionError Credential
issue_checked k name key (err e) s = (s, [], err e)
issue_checked k name key (ok _) s =
    if is_empty name
    then (s, [], err no_nickname)
    else if is_empty key
    then (s, [], err no_member_key)
    else issue_found k name key (credential_by_member k.searched_at key s.members) s

-- `IssueCredentialFor`
unfoldable pub issue_credential_for :
    IssueRun → Nickname → List ℕ → Session → Session × List Call × Result SessionError Credential
issue_credential_for k name key s = issue_checked k name key (require_host s) s

-- `arrivalGraceOpen`
abbrev pub is_arriving : Credential → Time → Bool
is_arriving c now = ltb now (c.issued_at + arrival_grace)

-- `engine` answers `RenewCredential` with the date that it kept, or an error.
module _ (engine : Text → Option Time) where
  unfoldable pub renewed_cred : Time → Bool → Option Credential → Option Credential
  renewed_cred now in_mesh none = none
  renewed_cred now in_mesh (some c) =
      if is_expired c now || c.revoked || (not in_mesh && not (is_arriving c now))
      then some c
      else (elim (engine c.id) [
        | none ↦ some c
        | some until ↦ some (record c { expires_at = until })
      ])

  -- The loop of `renewCredentialsLocked`.
  unfoldable pub renew_credentials : Time → MemberTable → MemberTable
  renew_credentials now [] = []
  renew_credentials now ((ip, m) ∷ t) =
      (ip, record m { cred = renewed_cred now m.presence.in_mesh m.cred }) ∷ renew_credentials now t
