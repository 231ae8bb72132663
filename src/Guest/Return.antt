-- ===== src/Guest/Return.antt =====
-- Going back to the last room (core/usecase/returnroom.go). `Return` claims its turn, lets the lock
-- go while `JoinRoom` runs, and then takes its answer: two steps here, between which anything may
-- happen.
use kanpachi.Base.{
  ℕ, ◌+◌, ◌*◌, ◌^◌, ◌≤◌, Bool, true, false, not, ◌&&◌, List, [], ◌∷◌, ◌++◌, Option, none, some, leb,
  is_empty, if◌then◌else◌, Text,
}
use kanpachi.Net.{Time}
use kanpachi.State.{in_room}
use kanpachi.State.Types.{no_room, ReturnAttempt, exit_user}
use kanpachi.Guest.{
  LastRoom, Guest, GuestCall, clears_last, cancels_return, saves_last, close_for_good, leave_locked,
  spread,
}

-- `timing.ReturnInterval` and `timing.ReturnJitter`, in nanoseconds.
abbrev pub return_interval : ℕ
return_interval = 5 * 60 * 10 ^ 9

abbrev pub return_jitter : ℕ
return_jitter = 30 * 10 ^ 9

-- The answer of `JoinRoom`, by the first case of `Return` that it falls under; the wording of an
-- error, and whether it is `ErrSeedThrottled`.
pub data JoinAnswer : Type 0 where
  joined no_such_room canceled busy : JoinAnswer
  not_joined : Text → Bool → JoinAnswer

-- The last room says that its guest goes back, and has an invite ID (`ReturnAttempt.Returning`).
abbrev pub wants_return : Option LastRoom → Bool
wants_return none = false
wants_return (some last) = last.auto_return && not (is_empty last.room.invite_id)

-- `returningLocked().Returning()`
unfoldable pub is_returning : Guest → Bool
is_returning s = not (in_room s.state.conn) && wants_return s.last

abbrev pub no_return : ReturnAttempt
no_return = record { room = no_room; name = []; next_at = 0; attempts = 0; reason = [] }

-- `returningLocked`
unfoldable pub returning : Guest → ReturnAttempt
returning s = if not (is_returning s) then no_return else elim (s.last) [
  | none ↦ no_return
  | some last ↦ record {
    room = last.room;
    name = last.name;
    next_at = s.return_next_at;
    attempts = s.return_attempts;
    reason = s.return_reason;
  }
]

-- `returnDueLocked`
unfoldable pub return_due : Time → Guest → Bool
return_due now s = not s.return_running && is_returning s && leb s.return_next_at now

-- `nextReturnWaitLocked`, with the byte of the source of random bytes.
unfoldable pub next_return_wait : Bool → Option ℕ → ℕ
next_return_wait throttled b =
    spread (if throttled then return_interval * 4 else return_interval) return_jitter b

abbrev pub forget_saved : Option LastRoom → Guest → Guest × List GuestCall
forget_saved none s = (s, [])
forget_saved (some last) s = (
  record s { last = none; return_next_at = 0; return_attempts = 0; return_reason = [] },
  clears_last ∷ [],
)

-- `forgetLastRoomLocked`
unfoldable pub forget_last_room : Guest → Guest × List GuestCall
forget_last_room s = forget_saved s.last s

-- The rewriting of the saved room, where there is one that wants the return.
abbrev pub switch_off : Option LastRoom → Option LastRoom × List GuestCall
switch_off none = (none, [])
switch_off (some last) =
    if not last.auto_return
    then (some last, [])
    else let off = record last { auto_return = false } in (some off, saves_last off ∷ [])

-- `stopReturningLocked`: an attempt that runs is cancelled.
unfoldable pub stop_returning : Guest → Guest × List GuestCall
stop_returning s =
    let (last, saving) = switch_off s.last in
    (
      record s { last = last; return_next_at = 0; return_attempts = 0; return_reason = [] },
      (if s.return_running then cancels_return ∷ [] else []) ++ saving,
    )

-- The first part of `Return`: `none` where no attempt is made, else the room that is dialled.
unfoldable pub begin_return : Time → Guest → Guest × Option LastRoom
begin_return now s = if not (return_due now s) then (s, none) else (
  record s { return_running = true; return_attempts = s.return_attempts + 1; return_next_at = 0 },
  s.last,
)

-- The last part of `Return`, after the answer of `JoinRoom`. What `JoinRoom` itself writes before it
-- answers, such as the last room anew where it entered one, is not part of it.
unfoldable pub end_return : Time → Option ℕ → JoinAnswer → Guest → Guest × List GuestCall
end_return now b joined s =
    (record s { return_running = false; return_attempts = 0; return_reason = [] }, [])
end_return now b no_such_room s = forget_last_room (record s { return_running = false })
end_return now b canceled s = (record s { return_running = false }, [])
end_return now b busy s = (record s { return_running = false }, [])
end_return now b (not_joined reason throttled) s = (
  record s {
    return_running = false;
    return_reason = reason;
    return_next_at = now + next_return_wait throttled b;
  },
  [],
)

-- `LeaveRoom`, without the notice to the members and the check of the ports.
unfoldable pub leave_room : Time → Time → Text → Guest → Guest × List GuestCall
leave_room played saved reason s =
    if not (in_room s.state.conn) && is_returning s
    then stop_returning s
    else leave_locked played saved reason exit_user close_for_good s

-- What happens to the way back while no room is entered.
pub data ReturnEvent : Type 0 where
  beats : Time → ReturnEvent
  answers : Time → Option ℕ → JoinAnswer → ReturnEvent
  forgets stops : ReturnEvent

unfoldable pub return_step : ReturnEvent → Guest → Guest
return_step (beats now) s = (begin_return now s).0
return_step (answers now b a) s = (end_return now b a s).0
return_step forgets s = (forget_last_room s).0
return_step stops s = (stop_returning s).0

unfoldable pub return_steps : List ReturnEvent → Guest → Guest
return_steps [] s = s
return_steps (e ∷ es) s = return_steps es (return_step e s)

-- The byte of a source of random bytes.
abbrev pub IsByte : Option ℕ → Type 0
IsByte none = Unit
IsByte (some b) = b ≤ 255
