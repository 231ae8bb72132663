-- ===== src/Session/Telling.antt =====
-- Who is told by `tellStaleMembersLocked` of core/usecase/kickmember.go, and how often, also where
-- channels open (`OnMemberChannelUp`).
use kanpachi.Base.{
  ◌+◌, ◌≤◌, ◌<◌, Bool, true, false, not, ◌&&◌, ◌≡◌, refl, List, [], ◌∷◌, arith, ◌==◌, contains, any,
  All, contains-append, lookup, lookup-store_same, lookup-store_other, Bool-cases, Option-cases,
  inl, inr, ◌∙◌, ap, subst, sym,
}
use kanpachi.Net.{Time, Addr, addr_eq}
use kanpachi.Members.{Member, MemberTable, has_live_cred}
use kanpachi.State.Types.{Peer}
use kanpachi.Session.Notices.{
  needs_no_notice, is_passed_over, clear_notices, tell_peers, tell_stale_members,
  stale_notice_retry, open_channel, NoticeEvent, tells, channel_up, notice_step, notice_steps,
}
use kanpachi.Session.Turns.{
  or_new, entry, tell_peers-told, tell_peers-kept, tell_peers-Waits, Waits, entry-clear,
  tell_peers-tells,
}

-- The wait of a member is not over before an instant.
abbrev LastsTo : Time → Addr → MemberTable → Type 0
LastsTo u ip t = u ≤ (entry ip t).stale_next

-- An event before an instant that is not the opening of the member's channel.
abbrev pub IsBefore : Time → Addr → NoticeEvent → Type 0
IsBefore u ip (tells reaches now ps) = now < u
IsBefore u ip (channel_up j) = (j == ip) ≡ false

entry-open :
    (ip j : Addr) (t : MemberTable) → (j == ip) ≡ false → entry ip (open_channel j t) ≡ entry ip t
unfolding open_channel
entry-open ip j t d = elim (Option-cases (lookup j t)) [
  | inl e ↦ rw (e, open_channel) refl
  | inr (m, e) ↦ rw (e, open_channel) (ap (or_new ip) (lookup-store_other j ip _ t d))
]

open-next : (ip : Addr) (t : MemberTable) → (entry ip (open_channel ip t)).stale_next ≡ 0
unfolding open_channel
open-next ip t = elim (Option-cases (lookup ip t)) [
  | inl e ↦ rw (e, open_channel) (rw e refl)
  | inr (m, e) ↦
      rw (e, open_channel) (ap (λ o. (or_new ip o).stale_next) (lookup-store_same ip _ t))
]

open-cred : (ip : Addr) (t : MemberTable) → (entry ip (open_channel ip t)).cred ≡ (entry ip t).cred
unfolding open_channel
open-cred ip t = elim (Option-cases (lookup ip t)) [
  | inl e ↦ rw (e, open_channel) (rw e refl)
  | inr (m, e) ↦ rw (e, open_channel) (ap (λ o. (or_new ip o).cred) (lookup-store_same ip _ t))
]

notice_step-IsBefore :
    (e : NoticeEvent) (u : Time) (ip : Addr) (t : MemberTable)
    → IsBefore u ip e
    → LastsTo u ip t
    → (contains ip (notice_step e t).1 ≡ false) × LastsTo u ip (notice_step e t).0
unfolding notice_step tell_stale_members
notice_step-IsBefore (channel_up j) u ip t b h =
    let e = entry-open ip j t b in (refl, subst (λ (m : Member). u ≤ m.stale_next) (sym e) h)
notice_step-IsBefore (tells reaches now ps) u ip t b h =
    let n : needs_no_notice now (entry ip t) ≡ true = ground (arith, b, h) in
    let k = tell_peers-kept reaches now ps t ip n in
    let t₁ = (tell_peers reaches now ps t).0 in
    let h₁ : LastsTo u ip t₁ = subst (λ (m : Member). u ≤ m.stale_next) (sym k) h in
    let c = entry-clear reaches now ip t₁ (omega (arith, b, h₁)) in
    (
      elim (Bool-cases (contains ip (tell_peers reaches now ps t).1)) [
        | inr q ↦ q
        | inl q ↦ absurd (ground (arith, tell_peers-told reaches now ps t ip q, n))
      ],
      subst (λ (m : Member). u ≤ m.stale_next) (sym c) h₁,
    )

notice_steps-IsBefore :
    (es : List NoticeEvent) (u : Time) (ip : Addr) (t : MemberTable)
    → All (IsBefore u ip) es
    → LastsTo u ip t
    → contains ip (notice_steps es t).1 ≡ false
unfolding notice_steps
notice_steps-IsBefore [] u ip t b h = refl
notice_steps-IsBefore (e ∷ es) u ip t (b, bs) h =
    let (a, k) = notice_step-IsBefore e u ip t b h in
    let r = notice_steps-IsBefore es u ip (notice_step e t).0 bs k in
    contains-append ip (notice_step e t).1 (notice_steps es (notice_step e t).0).1
    ∙ ground (arith, a, r)

-- Only a member that has no credential that still runs is told to ask for one. Who was told, or could
-- not be reached, is not told again within two seconds, whatever notices to whomever and openings of
-- the channels of others follow; but once the member's own channel opens, the next notice goes to it
-- at once, if it is there and still without a credential.
pub tell_stale_members_lem :
    (reaches again : Addr → Bool) (now later : Time) (ps qs : List Peer) (t t' : MemberTable)
    (ip : Addr) (es : List NoticeEvent)
    → contains ip (tell_stale_members reaches now ps t).1 ≡ true
    → All (IsBefore (now + stale_notice_retry) ip) es
    → any (λ p. p.virtual_ip == ip && not (is_passed_over p)) qs ≡ true
    → has_live_cred (entry ip t').cred later ≡ false
    → (has_live_cred (entry ip t).cred now ≡ false)
      × (contains ip (notice_steps es (tell_stale_members reaches now ps t).0).1 ≡ false)
      × (contains ip (notice_steps (channel_up ip ∷ tells again later qs ∷ []) t').1 ≡ true)
unfolding tell_stale_members Waits notice_steps notice_step
tell_stale_members_lem reaches again now later ps qs t t' ip es h b there missing =
    let n = tell_peers-told reaches now ps t ip h in
    let t₁ = (tell_peers reaches now ps t).0 in
    let w = tell_peers-Waits reaches now ps t ip h in
    let c = entry-clear reaches now ip t₁ (ground (arith, w)) in
    let w' = subst (λ (m : Member). now + stale_notice_retry ≤ m.stale_next) (sym c) w in
    let z = open-next ip t' in
    let missing' : has_live_cred (entry ip (open_channel ip t')).cred later ≡ false =
      ap (λ c. has_live_cred c later) (open-cred ip t') ∙ missing in
    (
      ground (arith, n),
      notice_steps-IsBefore es (now + stale_notice_retry) ip (clear_notices now t₁) b w',
      contains-append ip (tell_peers again later qs (open_channel ip t')).1 []
          ∙ ground (
            arith,
            tell_peers-tells again later qs (open_channel ip t') ip there
                (ground (arith, missing', z)),
          ),
    )
