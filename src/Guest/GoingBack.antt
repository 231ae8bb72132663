-- ===== src/Guest/GoingBack.antt =====
-- What the attempts to go back to the last room come to (core/usecase/returnroom.go): when the next one
-- is due, what ends them, and what loses the room.
use kanpachi.Base.{
  ℕ, ◌+◌, ◌*◌, ◌≤◌, ◌<◌, Bool, true, false, ◌≡◌, refl, List, [], ◌∷◌, Option, none, some, arith,
  Text, Bool-cases, inl, inr, ap, ◌∙◌,
}
use kanpachi.Net.{Time}
use kanpachi.Guest.{LastRoom, Guest}
use kanpachi.Guest.Return.{
  return_interval, return_jitter, wants_return, is_returning, return_due, next_return_wait,
  forget_saved, forget_last_room, switch_off, stop_returning, begin_return, end_return, ReturnEvent,
  return_step, return_steps, IsByte, beats, answers, forgets, stops, joined, no_such_room, canceled,
  busy, not_joined,
}

next_return_wait_bound :
    (throttled : Bool) (b : Option ℕ)
    → IsByte b
    → (return_interval ≤ next_return_wait throttled b)
      × (next_return_wait throttled b ≤ return_interval * 4 + return_jitter)
      × (throttled ≡ false → next_return_wait throttled b ≤ return_interval + return_jitter)
unfolding next_return_wait
next_return_wait_bound throttled none h = ground arith
next_return_wait_bound true (some b) h = (omega arith, omega (arith, h), λ e. cc e)
next_return_wait_bound false (some b) h = (omega arith, omega (arith, h), λ e. omega (arith, h))

-- A failed attempt that leaves the way back open is followed by no attempt for five minutes, and by
-- one at the first beat from twenty minutes and a half on, or five and a half where the registry did
-- not throttle it; the room stays saved, the reason is kept, and one attempt runs at a time. The
-- random byte, if there is one, is a byte.
pub end_return_lem :
    (now : Time) (b : Option ℕ) (reason : Text) (throttled : Bool) (s : Guest)
    → IsByte b
    → is_returning s ≡ true
    → let s' = (end_return now b (not_joined reason throttled) s).0 in
      (s'.last ≡ s.last)
      × (s'.return_reason ≡ reason)
      × ((t : Time) → t < now + return_interval → return_due t s' ≡ false)
      × ((t : Time) → now + (return_interval * 4 + return_jitter) ≤ t → return_due t s' ≡ true)
      × ((t : Time)
          → throttled ≡ false
          → now + (return_interval + return_jitter) ≤ t
          → return_due t s' ≡ true)
      × ((t u : Time) → return_due u (begin_return t s').0 ≡ true → return_due t s' ≡ false)
unfolding end_return return_due is_returning begin_return
end_return_lem now b reason throttled s h r =
    let (low, high, calm) = next_return_wait_bound throttled b h in
    let s' = (end_return now b (not_joined reason throttled) s).0 in
    (
      refl,
      refl,
      λ t e. ground (arith, low, e),
      λ t e. ground (arith, high, e, r),
      λ t f e. ground (arith, calm f, e, r),
      λ t u e. (elim (Bool-cases (return_due t s')) [
        | inr q ↦ q
        | inl q ↦ absurd (ground (arith, rw (q, begin_return) at e))
      ]),
    )

-- The last room asks for no return.
abbrev pub WantsNone : Guest → Type 0
WantsNone s = wants_return s.last ≡ false

switch_off-wants : (o : Option LastRoom) → wants_return (switch_off o).0 ≡ false
switch_off-wants none = refl
switch_off-wants (some last) = elim (Bool-cases last.auto_return) [
  | inl e ↦ rw e refl
  | inr e ↦ rw e refl
]

saved-WantsNone :
    (o : Option LastRoom) (s : Guest) → s.last ≡ o → wants_return (forget_saved o s).0.last ≡ false
saved-WantsNone none s e = rw e refl
saved-WantsNone (some last) s e = refl

begin_return-last : (now : Time) (s : Guest) → (begin_return now s).0.last ≡ s.last
unfolding begin_return
begin_return-last now s = elim (Bool-cases (return_due now s)) [
  | inl q ↦ rw (q, begin_return) refl
  | inr q ↦ rw (q, begin_return) refl
]

forget_last_room-WantsNone : (s : Guest) → wants_return (forget_last_room s).0.last ≡ false
unfolding forget_last_room
forget_last_room-WantsNone s = saved-WantsNone s.last s refl

return_step-WantsNone : (e : ReturnEvent) (s : Guest) → WantsNone s → WantsNone (return_step e s)
unfolding return_step begin_return end_return stop_returning
return_step-WantsNone (beats now) s h = ap wants_return (begin_return-last now s) ∙ h
return_step-WantsNone (answers now b joined) s h = h
return_step-WantsNone (answers now b no_such_room) s h =
    forget_last_room-WantsNone (record s { return_running = false })
return_step-WantsNone (answers now b canceled) s h = h
return_step-WantsNone (answers now b busy) s h = h
return_step-WantsNone (answers now b (not_joined reason throttled)) s h = h
return_step-WantsNone forgets s h = forget_last_room-WantsNone s
return_step-WantsNone stops s h = switch_off-wants s.last

return_steps-WantsNone :
    (es : List ReturnEvent) (s : Guest) → WantsNone s → WantsNone (return_steps es s)
unfolding return_steps
return_steps-WantsNone [] s h = h
return_steps-WantsNone (e ∷ es) s h =
    return_steps-WantsNone es (return_step e s) (return_step-WantsNone e s h)

wants_not_due : (s : Guest) (t : Time) → WantsNone s → return_due t s ≡ false
unfolding return_due is_returning
wants_not_due s t h = ground (arith, h)

-- Once somebody stops the return or forgets the room, no attempt is ever due, whatever beats, answers
-- of attempts that still run, and further requests follow, until a room is entered.
pub return_due-stop_returning :
    (es : List ReturnEvent) (s : Guest) (t : Time)
    → (return_due t (return_steps es (stop_returning s).0) ≡ false)
      × (return_due t (return_steps es (forget_last_room s).0) ≡ false)
unfolding stop_returning
return_due-stop_returning es s t =
    let a = switch_off-wants s.last in
    let b = forget_last_room-WantsNone s in
    (
      wants_not_due (return_steps es (stop_returning s).0) t
          (return_steps-WantsNone es (stop_returning s).0 a),
      wants_not_due (return_steps es (forget_last_room s).0) t
          (return_steps-WantsNone es (forget_last_room s).0 b),
    )
