-- ===== src/Limits/Budget.antt =====
-- A reference for the limiter that counts one address alone, what it lets through, and the delay
-- of the logins (registry/http.go).
use kanpachi.Base.{
  ℕ, suc, ◌+◌, ◌-◌, ◌*◌, ◌≤◌, Bool, true, false, ◌≡◌, refl, List, [], ◌∷◌, Option, none, some,
  arith, ltb, leb, if◌then◌else◌, Bool-cases, inl, inr, ap, ◌∙◌,
}
use kanpachi.Net.{Time}
use kanpachi.Limits.{
  Window, is_over, throttle_wait, failed, after_logins, throttle_step, max_throttle,
}

-- The window of one address after a request, and its answer.
unfoldable pub permits_one : ℕ → ℕ → Option Window → Time → Option Window × Bool
permits_one cap span none now = (some (record { count = 1; since = now }), true)
permits_one cap span (some w) now =
    if is_over span now w
    then (some (record { count = 1; since = now }), true)
    else (some (record w { count = suc w.count }), leb (suc w.count) cap)

unfoldable pub permits_alone : ℕ → ℕ → Option Window → List Time → List Bool
permits_alone cap span o [] = []
permits_alone cap span o (t ∷ ts) =
    let (o', b) = permits_one cap span o t in b ∷ permits_alone cap span o' ts

-- How many were let through.
abbrev pub count_true : List Bool → ℕ
count_true [] = 0
count_true (b ∷ bs) = let rest = count_true bs in if b then suc rest else rest

-- What is left of a window.
abbrev left_of : ℕ → Option Window → ℕ
left_of cap none = cap
left_of cap (some w) = cap - w.count

-- Times between `from` and `until`, in order.
abbrev pub AreWithin : Time → Time → List Time → Type 0
AreWithin from until [] = Unit
AreWithin from until (t ∷ ts) = (from ≤ t) × (t ≤ until) × AreWithin t until ts

-- Within one window, no more than what is left of it passes.
in_window :
    (cap span : ℕ) (w : Window) (from until : Time) (ts : List Time)
    → AreWithin from until ts
    → until ≤ w.since + span
    → count_true (permits_alone cap span (some w) ts) ≤ cap - w.count
unfolding permits_alone permits_one
in_window cap span w from until [] h u = omega arith
in_window cap span w from until (t ∷ ts) (a, b, h) u =
    let i = in_window cap span (record w { count = suc w.count }) t until ts h u in
    let n : ltb (w.since + span) t ≡ false = ground (arith, b, u) in rw n (ground (arith, i))

-- From any state, an address gets through what is left of its window and one more at most, within
-- a time as long as a window.
permits_alone_bound :
    (cap span : ℕ) (o : Option Window) (from until : Time) (ts : List Time)
    → 1 ≤ cap
    → AreWithin from until ts
    → until ≤ from + span
    → count_true (permits_alone cap span o ts) ≤ left_of cap o + cap
unfolding permits_alone permits_one
permits_alone_bound cap span o from until [] c h u = omega arith
permits_alone_bound cap span none from until (t ∷ ts) c (a, b, h) u =
    let i =
      in_window cap span (record { count = 1; since = t }) t until ts h (omega (arith, a, u)) in
    ground (arith, i)
permits_alone_bound cap span (some w) from until (t ∷ ts) c (a, b, h) u =
    elim (Bool-cases (ltb (w.since + span) t)) [
      | inl n ↦
          let i =
            in_window cap span (record { count = 1; since = t }) t until ts h
              (omega (arith, a, u)) in
          rw n (ground (arith, i))
      | inr n ↦
          let i =
            permits_alone_bound cap span (some (record w { count = suc w.count })) t until ts c h
              (omega (arith, a, u)) in
          rw n (ground (arith, i))
    ]

left_of_bound : (cap : ℕ) (o : Option Window) → left_of cap o ≤ cap
left_of_bound cap none = omega arith
left_of_bound cap (some w) = omega arith

pub permits_alone_twice :
    (cap span : ℕ) (o : Option Window) (from until : Time) (ts : List Time)
    → 1 ≤ cap
    → AreWithin from until ts
    → until ≤ from + span
    → count_true (permits_alone cap span o ts) ≤ 2 * cap
permits_alone_twice cap span o from until ts c h u =
    omega (arith, permits_alone_bound cap span o from until ts c h u, left_of_bound cap o)

pub AreWithin-earlier :
    (from now until : Time) (ts : List Time)
    → from ≤ now
    → AreWithin now until ts
    → AreWithin from until ts
AreWithin-earlier from now until [] b h = tt
AreWithin-earlier from now until (t ∷ ts) b (p, q, h) = (omega (arith, b, p), q, h)

-- The failures in a row, without a cap.
abbrev pub row_of : List Bool → ℕ → ℕ
row_of [] n = n
row_of (b ∷ bs) n = row_of bs (if b then 0 else suc n)

capped : ℕ → ℕ
capped n = if ltb n 20 then n else 20

failed-capped : (n : ℕ) → failed (capped n) ≡ capped (suc n)
unfolding failed capped
failed-capped n = ground arith

after_logins-capped : (bs : List Bool) (n : ℕ) → after_logins bs (capped n) ≡ capped (row_of bs n)
unfolding after_logins failed capped
after_logins-capped [] n = refl
after_logins-capped (true ∷ bs) n = after_logins-capped bs 0
after_logins-capped (false ∷ bs) n =
    ap (after_logins bs) (failed-capped n) ∙ after_logins-capped bs (suc n)

-- The delay after any logins is a tenth of a second for each failure since the last success, and two
-- seconds at most: the cap on the counter does not show.
pub throttle_wait-after_logins :
    (bs : List Bool)
    → (throttle_wait (after_logins bs 0) ≡ (
        if ltb (row_of bs 0 * throttle_step) max_throttle
        then row_of bs 0 * throttle_step
        else max_throttle))
      × (after_logins bs 0 ≤ 20)
unfolding throttle_wait capped
throttle_wait-after_logins bs =
    let e = after_logins-capped bs 0 in (ground (arith, e), ground (arith, e))
