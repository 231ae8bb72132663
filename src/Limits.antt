-- ===== src/Limits.antt =====
-- The limits on requests of the registry (registry/http.go): the counter per address with a fixed
-- window, and the growing delay of the failed logins. The lock makes each function atomic.
pub mod Budget
pub mod Isolation
use kanpachi.Base.{
  ℕ, zero, suc, ◌+◌, ◌-◌, ◌*◌, ◌/◌, ◌^◌, Bool, true, false, List, [], ◌∷◌, Option, none, some, ltb,
  leb, nat_beq, if◌then◌else◌, text_eq, Text, length, lookup, store, purge,
}
use kanpachi.Net.{Time}

-- `ventana`
pub record Window : Type 0 where
  pub count : ℕ
  pub since : Time

-- `limiter`, whose map is `visto`.
pub record Limiter : Type 0 where
  pub seen : List (Text × Window)
  pub cap : ℕ
  pub span : ℕ

-- `newLimiter`
abbrev pub new_limiter : ℕ → ℕ → Limiter
new_limiter cap span = record { seen = []; cap = cap; span = span }

-- `ahora.Sub(v.desde) > l.duracion`
abbrev pub is_over : ℕ → Time → Window → Bool
is_over span now w = ltb (w.since + span) now

-- A new window; above 4,096 addresses, those whose window is over go first.
unfoldable pub open_window : Text → Time → Limiter → Limiter
open_window ip now l =
    let kept = if ltb 4096 (length l.seen) then purge (is_over l.span now) l.seen else l.seen in
    record l { seen = store ip (record { count = 1; since = now }) kept }

unfoldable pub counted : Text → Window → Limiter → Limiter × Bool
counted ip w l = (
  record l { seen = store ip (record w { count = suc w.count }) l.seen },
  leb (suc w.count) l.cap,
)

unfoldable pub permits_from : Option Window → Text → Time → Limiter → Limiter × Bool
permits_from none ip now l = (open_window ip now l, true)
permits_from (some w) ip now l =
    if is_over l.span now w then (open_window ip now l, true) else counted ip w l

-- `permite`
unfoldable pub permits : Text → Time → Limiter → Limiter × Bool
permits ip now l = permits_from (lookup ip l.seen) ip now l

-- The answers to requests from addresses, in the order in which the lock lets them through.
unfoldable pub permits_all : List (Text × Time) → Limiter → Limiter × List Bool
permits_all [] l = (l, [])
permits_all ((ip, now) ∷ rs) l =
    let (l', b) = permits ip now l in let (l'', bs) = permits_all rs l' in (l'', b ∷ bs)

-- `timing.ThrottleStep` and `timing.MaxThrottle`
abbrev pub throttle_step : ℕ
throttle_step = 100 * 10 ^ 6

abbrev pub max_throttle : ℕ
max_throttle = 2 * 10 ^ 9

-- The delay of `wait`, on the field `failures`.
unfoldable pub throttle_wait : ℕ → ℕ
throttle_wait failures =
    let wait = failures * throttle_step in if ltb max_throttle wait then max_throttle else wait

-- `failed` and `succeeded`
unfoldable pub failed : ℕ → ℕ
failed failures = if ltb failures (max_throttle / throttle_step) then suc failures else failures

abbrev pub succeeded : ℕ → ℕ
succeeded failures = 0

-- The failures after logins with these outcomes.
unfoldable pub after_logins : List Bool → ℕ → ℕ
after_logins [] failures = failures
after_logins (b ∷ bs) failures = after_logins bs (if b then succeeded failures else failed failures)
