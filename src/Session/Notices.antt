-- ===== src/Session/Notices.antt =====
-- The notices of a host to the members whose credential it does not have (`tellStaleMembersLocked`
-- and `memberSetChangedLocked` of core/usecase/kickmember.go).
use kanpachi.Base.{
  ℕ, ◌+◌, ◌*◌, ◌^◌, Bool, true, false, not, ◌&&◌, ◌||◌, List, [], ◌∷◌, ◌++◌, none, some, lookup,
  ltb, nat_beq, if◌then◌else◌, contains, any, map, length, store,
}
use kanpachi.Net.{Time, is_zero, Addr, is_valid, addr_eq}
use kanpachi.Members.{Member, MemberTable, at, has_live_cred}
use kanpachi.State.Types.{Peer}

-- `StaleNoticeTries`, and `timing.StaleNoticeCooldown` and `StaleNoticeRetry` in nanoseconds.
abbrev pub stale_notice_tries : ℕ
stale_notice_tries = 10

abbrev pub stale_notice_cooldown : ℕ
stale_notice_cooldown = 30 * 10 ^ 9

abbrev pub stale_notice_retry : ℕ
stale_notice_retry = 2 * 10 ^ 9

-- The member has nothing to be told, or has been told not long ago.
abbrev pub needs_no_notice : Time → Member → Bool
needs_no_notice now m =
    has_live_cred m.cred now || (not (is_zero m.stale_next) && ltb now m.stale_next)

-- The member after a notice that arrived, or did not.
unfoldable pub after_notice : Time → Bool → Member → Member
after_notice now arrived m =
    if arrived
    then record m { stale_next = now + stale_notice_cooldown; stale_tries = 0 }
    else if ltb (m.stale_tries + 1) stale_notice_tries
    then record m { stale_next = now + stale_notice_retry; stale_tries = m.stale_tries + 1 }
    else record m { stale_next = now + stale_notice_cooldown; stale_tries = 0 }

abbrev pub is_passed_over : Peer → Bool
is_passed_over p = p.self || not (is_valid p.virtual_ip) || p.away

-- The last loop of `tellStaleMembersLocked`: what is past is cleared.
abbrev pub clear_past : Time → Member → Member
clear_past now m =
    if not (is_zero m.stale_next) && ltb m.stale_next now
    then record m { stale_next = 0; stale_tries = 0 }
    else m

unfoldable pub clear_notices : Time → MemberTable → MemberTable
clear_notices now [] = []
clear_notices now ((ip, m) ∷ t) = (ip, clear_past now m) ∷ clear_notices now t

-- `reaches` says whether `Notify` gets through to an address.
module _ (reaches : Addr → Bool) (now : Time) where
  -- A turn of the loop: the table, and whether a notice is sent.
  unfoldable pub tell_peer : Peer → MemberTable → MemberTable × Bool
  tell_peer p t =
      if is_passed_over p
      then (t, false)
      else (let (m, t') = at p.virtual_ip t in
          if needs_no_notice now m
          then (t', false)
          else (store p.virtual_ip (after_notice now (reaches p.virtual_ip) m) t', true))

  abbrev pub with_told : Bool → Addr → List Addr → List Addr
  with_told told ip ips = if told then ip ∷ ips else ips

  -- The loop over the members: the table, and the addresses that are told, in order.
  unfoldable pub tell_peers : List Peer → MemberTable → MemberTable × List Addr
  tell_peers [] t = (t, [])
  tell_peers (p ∷ ps) t =
      let (t₁, told) = tell_peer p t in
      let (t₂, ips) = tell_peers ps t₁ in (t₂, with_told told p.virtual_ip ips)

  -- `tellStaleMembersLocked`, on a host.
  unfoldable pub tell_stale_members : List Peer → MemberTable → MemberTable × List Addr
  tell_stale_members ps t = let (t', ips) = tell_peers ps t in (clear_notices now t', ips)

-- What `OnMemberChannelUp` writes in the table: the wait of the member is over. The reading of the
-- mesh and the notices that follow are events of their own.
unfoldable pub open_channel : Addr → MemberTable → MemberTable
open_channel ip t = elim (lookup ip t) [
  | none ↦ t
  | some m ↦ store ip (record m { stale_next = 0; stale_tries = 0 }) t
]

-- What happens to the waits of the members, in some order.
pub data NoticeEvent : Type 0 where
  tells : (Addr → Bool) → Time → List Peer → NoticeEvent
  channel_up : Addr → NoticeEvent

unfoldable pub notice_step : NoticeEvent → MemberTable → MemberTable × List Addr
notice_step (tells reaches now ps) t = tell_stale_members reaches now ps t
notice_step (channel_up ip) t = (open_channel ip t, [])

-- The table after the events, and who is told in them.
unfoldable pub notice_steps : List NoticeEvent → MemberTable → MemberTable × List Addr
notice_steps [] t = (t, [])
notice_steps (e ∷ es) t =
    let (t₁, told) = notice_step e t in let (t₂, later) = notice_steps es t₁ in (t₂, told ++ later)

-- `memberSetChangedLocked`
unfoldable pub member_set_changed : List Peer → List Peer → Bool
member_set_changed before now =
    if not (nat_beq (length before) (length now))
    then true
    else any (λ p. not (contains p.virtual_ip (map (λ (q : Peer). q.virtual_ip) before))) now
