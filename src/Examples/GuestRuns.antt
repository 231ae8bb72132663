-- ===== src/Examples/GuestRuns.antt =====
-- A guest that loses its room and goes back, a host's beat, and notices to members.
use kanpachi.Base.{
  ℕ, ◌+◌, ◌*◌, ◌^◌, ◌≤◌, ◌<◌, ◌≡◌, refl, true, false, Bool, List, [], ◌∷◌, none, some, arith, codes,
  length, contains, inl, inr, lookup, store,
}
use kanpachi.Net.{Time, v4, addr_eq}
use kanpachi.Policy.{guest, host}
use kanpachi.Members.{has_live_cred, at, MemberTable}
use kanpachi.State.Types.{Room, RoomState, idle, connected, exit_failed}
use kanpachi.Session.Notices.{
  tell_stale_members, tell_peers, tell_peer, clear_notices, after_notice, NoticeEvent, tells,
  channel_up, notice_steps,
}
use kanpachi.Session.Turns.{entry}
use kanpachi.Session.Telling.{tell_stale_members_lem}
use kanpachi.Guest.{Guest, LastRoom, saves_last, tears_down, close_for_good, leave_locked}
use kanpachi.Guest.Return.{
  is_returning, return_due, begin_return, forget_last_room, stop_returning, end_return, not_joined,
  ReturnEvent, beats, answers, stops, return_steps, return_interval, return_jitter,
}
use kanpachi.Guest.GoingBack.{end_return_lem, return_due-stop_returning}
use kanpachi.Guest.Leaving.{last_room_of, is_returning-leave_locked}
use kanpachi.Guest.Rejoin.{
  RejoinRun, NoticeKind, notice_kicked, notice_stale, notice_room_closed, on_room_notice,
  rejoin_due, rejoin, next_streak, next_rejoin_wait,
}
use kanpachi.Guest.Streaks.{rejoins, IsRushed, rejoins-IsRushed}
use kanpachi.Guest.Heeding.{on_room_notice_lem}
use kanpachi.Guest.Deadlines.{Beat, unknown_room, enforce_deadlines, enforce_deadlines-leave_locked}
use kanpachi.Guest.Upkeep.{Upkeep}
use kanpachi.Examples.StateRuns.{fresh}
use kanpachi.Examples.SessionRuns.{ana_peer}

abbrev pub cove : Room
cove = record { invite_id = codes "A7K2M9QX"; seed = codes "kanpachi.gg" }

-- A guest whose host is away since the first instant.
abbrev adrift : RoomState
adrift = record fresh { conn = connected; role = guest; room = cove; host_gone_since = 1 }

abbrev pub inside : Guest
inside = record {
  state = adrift;
  nick = codes "ana";
  members = [];
  members_gen = 0;
  member_seed = 9 ∷ [];
  sealed_card = [];
  credential = none;
  is_stale = false;
  verifiable = [];
  last = none;
  return_next_at = 0;
  return_attempts = 0;
  return_reason = [];
  return_running = false;
  last_rejoin = 0;
  rejoin_wait = 0;
  rejoin_streak = 0;
  last_rejoin_success = 0;
  last_announce = 0;
  last_publish = 0;
  last_renew = 0;
}

abbrev left_room : LastRoom
left_room = last_room_of 60 exit_failed inside

abbrev pub outside : Guest
outside = record inside { state = fresh; last = some left_room }

is_returning-leave_example :
    let (s', calls) = leave_locked 50 60 (codes "x") exit_failed close_for_good inside in
    (s'.state.conn ≡ idle)
    × (s'.last ≡ some left_room)
    × (calls ≡ saves_last left_room ∷ tears_down ∷ [])
    × (is_returning s' ≡ true)
is_returning-leave_example =
    is_returning-leave_locked 50 60 (codes "x") exit_failed close_for_good inside refl refl refl

end_return_example :
    let s' = (end_return 100 (some 200) (not_joined (codes "timeout") false) outside).0 in
    (s'.last ≡ some left_room)
    × (s'.return_reason ≡ codes "timeout")
    × ((t : Time) → t < 100 + return_interval → return_due t s' ≡ false)
    × ((t : Time) → 100 + (return_interval * 4 + return_jitter) ≤ t → return_due t s' ≡ true)
    × ((t : Time)
        → ◌≡◌ {A = Bool} false false
        → 100 + (return_interval + return_jitter) ≤ t
        → return_due t s' ≡ true)
    × ((t u : Time) → return_due u (begin_return t s').0 ≡ true → return_due t s' ≡ false)
unfolding is_returning
end_return_example =
    end_return_lem 100 (some 200) (codes "timeout") false outside (omega arith) refl

abbrev evening : List ReturnEvent
evening = beats 5 ∷ answers 6 none (not_joined (codes "timeout") true) ∷ stops ∷ []

return_due-stop_returning_example :
    (return_due 90 (return_steps evening (stop_returning outside).0) ≡ false)
    × (return_due 90 (return_steps evening (forget_last_room outside).0) ≡ false)
return_due-stop_returning_example = return_due-stop_returning evening outside 90

-- Attempts a hundred seconds apart, each of which succeeds and does not bring the host back.
abbrev ask : ℕ → RejoinRun
ask t = record {
  now = t * 10 ^ 11;
  byte = some 0;
  has_joined = true;
  left = adrift;
  credential = none;
  played_at = t * 10 ^ 11;
  saved_at = t * 10 ^ 11;
}

abbrev asks : List RejoinRun
asks = ask 2 ∷ ask 3 ∷ ask 4 ∷ ask 5 ∷ ask 6 ∷ ask 7 ∷ ask 8 ∷ ask 9 ∷ ask 10 ∷ []

asks-IsRushed : IsRushed asks inside
unfolding rejoin rejoin_due next_streak next_rejoin_wait
asks-IsRushed = (
  refl,
  refl,
  λ e. cc e,
  inl refl,
  (
    refl,
    refl,
    λ e. cc e,
    inr (omega arith),
    (
      refl,
      refl,
      λ e. cc e,
      inr (omega arith),
      (
        refl,
        refl,
        λ e. cc e,
        inr (omega arith),
        (
          refl,
          refl,
          λ e. cc e,
          inr (omega arith),
          (
            refl,
            refl,
            λ e. cc e,
            inr (omega arith),
            (
              refl,
              refl,
              λ e. cc e,
              inr (omega arith),
              (
                refl,
                refl,
                λ e. cc e,
                inr (omega arith),
                (refl, refl, λ e. cc e, inr (omega arith), tt),
              ),
            ),
          ),
        ),
      ),
    ),
  ),
)

rejoins_example :
    (length asks ≤ 9)
    × (length asks ≡ 9
        → ((rejoins asks inside).state.conn ≡ idle) × (is_returning (rejoins asks inside) ≡ true))
rejoins_example = rejoins-IsRushed asks inside refl asks-IsRushed

on_room_notice_example :
    let told = λ (kind : NoticeKind). (on_room_notice 70 71 72 kind inside).0 in
    ((told notice_kicked).state.conn ≡ idle)
    × (is_returning (told notice_kicked) ≡ false)
    × ((told notice_room_closed).state.conn ≡ idle)
    × (is_returning (told notice_room_closed) ≡ true)
    × ((t : Time) → rejoin_due t (told notice_stale) ≡ true)
    × ((told notice_stale).credential ≡ none)
on_room_notice_example = on_room_notice_lem 70 71 72 inside refl refl refl refl

abbrev beat : Time → Beat
beat t = record {
  now = t;
  absent_at = t;
  played_at = t;
  saved_at = t;
  game_changed = true;
  announced_at = t;
  repeated_at = t;
  published_at = t;
  publish = unknown_room;
  renewed_at = t;
  told_at = t;
  renewal = λ id. none;
  reaches = λ ip. false;
}

abbrev unheard : Guest
unheard = record inside { state = record adrift { host_present = true; host_last_heard = 7 } }

enforce_deadlines-leave_example :
    let (s', calls, out) = enforce_deadlines (beat (2 * 10 ^ 12)) unheard in
    (out ≡ true) × (s'.state.conn ≡ idle) × (is_returning s' ≡ true)
enforce_deadlines-leave_example =
    enforce_deadlines-leave_locked (beat (2 * 10 ^ 12)) unheard refl refl refl (omega arith)
      (inl (λ e. cc e, refl, omega arith))

abbrev keeper : Guest
keeper = record inside {
  state = record adrift { role = host; peers = ana_peer ∷ [] };
  sealed_card = 3 ∷ [];
}

-- A member without a credential, who cannot be reached at first, and then opens its channel.
abbrev meanwhile : List NoticeEvent
meanwhile = tells (λ ip. true) 60 (ana_peer ∷ []) ∷ channel_up (v4 259) ∷ []

abbrev unreached : MemberTable
unreached = (tell_stale_members (λ ip. false) 50 (ana_peer ∷ []) []).0

tell_stale_members_example :
    (has_live_cred (entry (v4 258) []).cred 50 ≡ false)
    × (contains (v4 258) (notice_steps meanwhile unreached).1 ≡ false)
    × (contains
          (v4 258)
          (notice_steps
            (channel_up (v4 258) ∷ tells (λ ip. true) 70 (ana_peer ∷ []) ∷ [])
            unreached).1
        ≡ true)
unfolding tell_stale_members tell_peers tell_peer at lookup store clear_notices after_notice
tell_stale_members_example =
    tell_stale_members_lem (λ ip. false) (λ ip. true) 50 70 (ana_peer ∷ []) (ana_peer ∷ []) []
      unreached (v4 258) meanwhile refl (omega arith, (refl, tt)) refl refl
