-- ===== src/Session/Expulsion.antt =====
-- What an expulsion leaves, also where one of its two layers fails, and what it holds back
-- afterwards (core/usecase/kickmember.go with issuecredential.go).
use kanpachi.Base.{
  ℕ, ◌+◌, ◌<◌, Bool, true, false, ◌&&◌, ◌≡◌, refl, List, some, arith, ok, text_eq, contains, lookup,
  lookup-store_same, IsMap, store-IsMap, Bool-cases, inl, inr, is_empty,
}
use kanpachi.Net.{Time, Addr, addr_eq, addr_order, is_valid}
use kanpachi.Members.{Nickname, Credential, Member, MemberTable, at, is_expired}
use kanpachi.State.{drop_alerts}
use kanpachi.State.Types.{Peer}
use kanpachi.Session.{Session, Call, restricts, applies, require_host, arrival_grace, after_apply}
use kanpachi.Session.Kicking.{
  KickRun, member_at, cred_of_entry, kicked_entry, put_out, raise_kick_alert, kick_done, kick_calls,
  kick_cred, kick_peer, kick_checked, kick_member,
}
use kanpachi.Session.Issuing.{IssueRun, issue_credential_for}
use kanpachi.Session.Seats.{issue_credential_for-kept}

-- The call authorizes no packet of the address.
abbrev pub Spares : Addr → Call → Type 0
Spares ip (restricts ips) = contains ip ips ≡ false
Spares ip (applies ips) = contains ip ips ≡ false
Spares ip _ = Unit

pub at-found : (ip : Addr) (m : Member) (t : MemberTable) → lookup ip t ≡ some m → at ip t ≡ (m, t)
unfolding at
at-found ip m t h = rw (h, at) refl

apply-same :
    (b : Bool) (s : Session)
    → ((after_apply b s).members ≡ s.members) × ((after_apply b s).state.peers ≡ s.state.peers)
unfolding drop_alerts
apply-same false s = (refl, refl)
apply-same true s = elim (Bool-cases (is_empty s.state.alerts)) [
  | inl e ↦ (refl, rw e refl)
  | inr e ↦ (refl, rw e refl)
]

module _ (now : Time) (ip : Addr) (m : Member) (s : Session) (i : IsMap s.members)
    (l : lookup ip s.members ≡ some m) where
  pub put_out-lookup : lookup ip (put_out now ip s).members ≡ some (kicked_entry now m)
  unfolding put_out
  put_out-lookup = rw (at-found ip m s.members l) (lookup-store_same ip _ s.members)

  pub put_out-IsMap : IsMap (put_out now ip s).members
  unfolding put_out
  put_out-IsMap = rw (at-found ip m s.members l) (store-IsMap ip _ s.members i)

module _ (k : KickRun) (ip : Addr) (p : Peer) (m : Member) (c : Credential) (s : Session)
    (i : IsMap s.members) (h : require_host s ≡ ok tt) (a : member_at k.checked_at ip s ≡ some p)
    (n : p.self ≡ false) (l : lookup ip s.members ≡ some m) (e : m.cred ≡ some c) where
  kick-eq :
      kick_member k ip s ≡ kick_done k (kick_calls k ip c (put_out k.now ip s)) (put_out k.now ip s)
  unfolding kick_member kick_checked kick_peer kick_cred cred_of_entry
  kick-eq = rw (h, kick_member) (rw (a, kick_checked) (rw n (rw l (rw e refl))))

  pub kick-members : (kick_member k ip s).0.members ≡ (put_out k.now ip s).members
  unfolding kick_done raise_kick_alert
  kick-members =
      let same = (apply-same k.is_applied (put_out k.now ip s)).0 in
      rw kick-eq
        (elim (Bool-cases (k.is_revoked && k.is_applied)) [ inl q ↦ rw q same | inr q ↦ rw q same ])

  kick-lookup : lookup ip (kick_member k ip s).0.members ≡ some (kicked_entry k.now m)
  kick-lookup = rw kick-members (put_out-lookup k.now ip m s i l)

  -- Until the ten minutes after such an expulsion are over, no request for a credential, by whatever
  -- key, gets the address of who was put out, or changes the entry there, if the address is valid.
  pub issue-kick_member :
      (q : IssueRun) (name : Nickname) (key : List ℕ)
      → is_valid ip ≡ true
      → q.taken_at < k.now + arrival_grace
      → lookup ip (issue_credential_for q name key (kick_member k ip s).0).0.members
        ≡ some (kicked_entry k.now m)
  unfolding is_expired
  issue-kick_member q name key v t =
      issue_credential_for-kept q name key ip (kicked_entry k.now m) (kick_member k ip s).0
        (rw kick-members (put_out-IsMap k.now ip m s i l)) kick-lookup (rw e refl)
        (ground (arith, e, v, t))
