-- ===== src/Guest/Streaks.antt =====
-- How often a guest asks for its seat again, and when it gives up (core/usecase/rejoin.go).
use kanpachi.Base.{
  ℕ, suc, ◌+◌, ◌≤◌, ◌<◌, true, false, ◌≡◌, ◌≢◌, refl, List, [], ◌∷◌, Option, none, some, arith, leb,
  is_empty, length, subst, sym, Bool-cases, inl, inr, ◌⊎◌,
}
use kanpachi.Net.{Time}
use kanpachi.Policy.{is_host}
use kanpachi.State.{in_room}
use kanpachi.State.Types.{idle, exit_tunnel_lost}
use kanpachi.Guest.{Guest, leaves_lobby, close_for_good}
use kanpachi.Guest.Return.{is_returning, IsByte}
use kanpachi.Guest.Leaving.{is_returning-leave_locked}
use kanpachi.Guest.Rejoin.{
  rejoin_interval, rejoin_jitter, rejoin_calm_after, max_rejoin_streak, lacks_host, rejoin_due,
  next_rejoin_wait, RejoinRun, next_streak, not_held, sealed, after_exchange, rejoin,
}

due_inside :
    (now : Time) (s : Guest)
    → rejoin_due now s ≡ true
    → (in_room s.state.conn ≡ true)
      × (is_host s.state.role ≡ false)
      × (is_empty s.state.room.invite_id ≡ false)
      × (is_empty s.nick ≡ false)
unfolding rejoin_due
due_inside now s h = ground (arith, h)

outside_not_due : (now : Time) (s : Guest) → s.state.conn ≡ idle → rejoin_due now s ≡ false
unfolding rejoin_due
outside_not_due now s e = rw e refl

-- A guest whose streak is full leaves the room instead of asking again, and is on its way back.
rejoin_full :
    (k : RejoinRun) (s : Guest)
    → rejoin_due k.now s ≡ true
    → leb max_rejoin_streak s.rejoin_streak ≡ true
    → ((rejoin k s).0.state.conn ≡ idle) × (is_returning (rejoin k s).0 ≡ true)
unfolding rejoin
rejoin_full k s d f =
    let (i, h, e, n) = due_inside k.now s d in
    let (a, b, c, r) =
      is_returning-leave_locked k.played_at k.saved_at not_held exit_tunnel_lost close_for_good s h
        i e in
    rw d (rw f (a, r))

abbrev asked : RejoinRun → Guest → Guest
asked k s = record (after_exchange k (sealed k s)) {
  is_stale = false;
  rejoin_streak = next_streak k.now s;
  last_rejoin_success = k.now;
}

rejoin-asked :
    (k : RejoinRun) (s : Guest)
    → rejoin_due k.now s ≡ true
    → leb max_rejoin_streak s.rejoin_streak ≡ false
    → k.has_joined ≡ true
    → (rejoin k s).0 ≡ asked k s
unfolding rejoin
rejoin-asked k s d f j = rw d (rw f (rw j refl))

unfoldable pub rejoins : List RejoinRun → Guest → Guest
rejoins [] s = s
rejoins (k ∷ ks) s = rejoins ks (rejoin k s).0

-- Every attempt is due when it is made, succeeds, and comes within fifteen minutes of the last
-- success.
abbrev pub IsRushed : List RejoinRun → Guest → Type 0
IsRushed [] s = Unit
IsRushed (k ∷ ks) s =
    (rejoin_due k.now s ≡ true)
    × (k.has_joined ≡ true)
    × (k.now ≢ 0)
    × ((s.last_rejoin_success ≡ 0) ⊎ (k.now ≤ s.last_rejoin_success + rejoin_calm_after))
    × IsRushed ks (rejoin k s).0

-- The streak counts the successes.
abbrev Counts : Guest → Type 0
Counts s = (s.rejoin_streak ≡ 0) ⊎ (s.last_rejoin_success ≢ 0)

streak_next :
    (now : Time) (s : Guest)
    → Counts s
    → (s.last_rejoin_success ≡ 0) ⊎ (now ≤ s.last_rejoin_success + rejoin_calm_after)
    → next_streak now s ≡ suc s.rejoin_streak
unfolding next_streak
streak_next now s c g = ground (arith, c, g)

rejoins_over :
    (ks : List RejoinRun) (s : Guest) (j : ℕ)
    → (s.state.conn ≡ idle) × (is_returning s ≡ true)
    → j ≡ max_rejoin_streak
    → IsRushed ks s
    → (j + suc (length ks) ≤ suc max_rejoin_streak)
      × (j + suc (length ks) ≡ suc max_rejoin_streak
          → ((rejoins ks s).state.conn ≡ idle) × (is_returning (rejoins ks s) ≡ true))
unfolding rejoins
rejoins_over [] s j o e r = (omega (arith, e), λ f. o)
rejoins_over (k ∷ ks) s j o e (d, h, z, g, r) =
    absurd (ground (arith, d, outside_not_due k.now s (o.0)))

rejoins_from :
    (ks : List RejoinRun) (s : Guest)
    → Counts s
    → s.rejoin_streak ≤ max_rejoin_streak
    → IsRushed ks s
    → (s.rejoin_streak + length ks ≤ suc max_rejoin_streak)
      × (s.rejoin_streak + length ks ≡ suc max_rejoin_streak
          → ((rejoins ks s).state.conn ≡ idle) × (is_returning (rejoins ks s) ≡ true))
unfolding rejoins
rejoins_from [] s c l r = (omega (arith, l), λ e. absurd (omega (arith, l, e)))
rejoins_from (k ∷ ks) s c l (d, j, z, g, r) =
    elim (Bool-cases (leb max_rejoin_streak s.rejoin_streak)) [
      | inl f ↦
          rejoins_over ks (rejoin k s).0 s.rejoin_streak (rejoin_full k s d f)
            (ground (arith, f, l)) r
      | inr f ↦
          let same = rejoin-asked k s d f j in
          let n = streak_next k.now s c g in
          let r' : IsRushed ks (asked k s) = rw same at r in
          let (a, b) = rejoins_from ks (asked k s) (inr z) (ground (arith, n, f)) r' in
          let left = λ (x : Guest).
            ((rejoins ks x).state.conn ≡ idle) × (is_returning (rejoins ks x) ≡ true) in
          (omega (arith, a, n), λ e. subst left (sym same) (b (omega (arith, e, n))))
    ]

-- A room that does not hold is given up: of attempts that are all due, succeed, and come within
-- fifteen minutes of each other, there are at most nine after a calm start, and the ninth leaves the
-- room, with the guest on its way back to it.
pub rejoins-IsRushed :
    (ks : List RejoinRun) (s : Guest)
    → s.rejoin_streak ≡ 0
    → IsRushed ks s
    → (length ks ≤ 9)
      × (length ks ≡ 9 → ((rejoins ks s).state.conn ≡ idle) × (is_returning (rejoins ks s) ≡ true))
rejoins-IsRushed ks s z r =
    let (a, b) = rejoins_from ks s (inl z) (omega (arith, z)) r in
    (omega (arith, z, a), λ e. b (omega (arith, z, e)))

next_rejoin_wait_bound :
    (b : Option ℕ)
    → IsByte b
    → (rejoin_interval ≤ next_rejoin_wait b)
      × (next_rejoin_wait b ≤ rejoin_interval + rejoin_jitter)
unfolding next_rejoin_wait
next_rejoin_wait_bound none h = (omega arith, omega arith)
next_rejoin_wait_bound (some b) h = (omega arith, omega (arith, h))

waits_early : (t : Time) (s : Guest) → t < s.last_rejoin + s.rejoin_wait → rejoin_due t s ≡ false
unfolding rejoin_due
waits_early t s q = ground (arith, q)

pub waits_late :
    (t : Time) (s : Guest)
    → in_room s.state.conn ≡ true
    → is_host s.state.role ≡ false
    → is_empty s.state.room.invite_id ≡ false
    → is_empty s.nick ≡ false
    → lacks_host t s ≡ true
    → s.last_rejoin + s.rejoin_wait ≤ t
    → rejoin_due t s ≡ true
unfolding rejoin_due
waits_late t s i h e n l q = rw i (rw h (rw e (rw n (rw l (ground (arith, q))))))

-- After an attempt that fails, which a guest with less than a full streak makes, none is due for
-- thirty seconds, and from a minute on one is, if the guest is still in the room as a guest, with
-- its code and its name, and lacks the host; the attempt leaves the lobby and answers an error.
pub rejoin_failed :
    (k : RejoinRun) (s : Guest)
    → IsByte k.byte
    → rejoin_due k.now s ≡ true
    → leb max_rejoin_streak s.rejoin_streak ≡ false
    → k.has_joined ≡ false
    → let (s', calls, fine) = rejoin k s in
      (fine ≡ false)
      × (calls ≡ leaves_lobby ∷ [])
      × (s'.rejoin_streak ≡ s.rejoin_streak)
      × ((t : Time) → t < k.now + rejoin_interval → rejoin_due t s' ≡ false)
      × ((t : Time)
          → k.now + (rejoin_interval + rejoin_jitter) ≤ t
          → in_room s'.state.conn ≡ true
          → is_host s'.state.role ≡ false
          → is_empty s'.state.room.invite_id ≡ false
          → lacks_host t s' ≡ true
          → rejoin_due t s' ≡ true)
unfolding rejoin
rejoin_failed k s b d f j =
    let (low, high) = next_rejoin_wait_bound k.byte b in
    let (i, h, e, n) = due_inside k.now s d in
    let s' = after_exchange k (sealed k s) in
    rw d (
      rw f (
        rw j (
          refl,
          refl,
          refl,
          λ t q. waits_early t s' (omega (arith, low, q)),
          λ t q i' h' e' l. waits_late t s' i' h' e' n l (omega (arith, high, q)),
        )))
