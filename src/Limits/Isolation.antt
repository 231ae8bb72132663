-- ===== src/Limits/Isolation.antt =====
-- The limiter keeps the addresses apart, with its one map and its purge (registry/http.go): each
-- address is answered as by a counter of its own.
use kanpachi.Base.{
  ℕ, ◌+◌, ◌*◌, ◌≤◌, Bool, true, false, ◌≡◌, refl, List, [], ◌∷◌, Option, none, some, arith, ltb,
  if◌then◌else◌, ◌==◌, text_eq, Text, length, lookup, purge, lookup-store_same, lookup-store_other,
  lookup-purge, IsMap, store-IsMap, purge-IsMap, unless, Bool-cases, Option-cases, inl, inr, ◌⊎◌,
  ap, sym, All, subst, ◌∙◌,
}
use kanpachi.Net.{Time}
use kanpachi.Limits.{
  Window, Limiter, new_limiter, is_over, open_window, counted, permits_from, permits, permits_all,
}
use kanpachi.Limits.Budget.{
  permits_one, permits_alone, AreWithin, AreWithin-earlier, count_true, permits_alone_twice,
}

-- The times of the requests of one address, and the answers to them.
abbrev pub times_of : Text → List (Text × Time) → List Time
times_of ip [] = []
times_of ip ((other, now) ∷ rs) =
    let rest = times_of ip rs in if other == ip then now ∷ rest else rest

abbrev pub answers_of : Text → List (Text × Time) → List Bool → List Bool
answers_of ip [] bs = []
answers_of ip (r ∷ rs) [] = []
answers_of ip ((other, now) ∷ rs) (b ∷ bs) =
    let rest = answers_of ip rs bs in if other == ip then b ∷ rest else rest

-- The clock does not go back.
abbrev pub IsForward : Time → List (Text × Time) → Type 0
IsForward from [] = Unit
IsForward from ((ip, now) ∷ rs) = (from ≤ now) × IsForward now rs

kept-IsMap :
    (now : Time) (l : Limiter)
    → IsMap l.seen
    → IsMap (if ltb 4096 (length l.seen) then purge (is_over l.span now) l.seen else l.seen)
kept-IsMap now l m = elim (Bool-cases (ltb 4096 (length l.seen))) [
  | inl e ↦ rw e (purge-IsMap (is_over l.span now) l.seen m)
  | inr e ↦ rw e m
]

permits-IsMap :
    (ip : Text) (now : Time) (l : Limiter) → IsMap l.seen → IsMap (permits ip now l).0.seen
unfolding permits permits_from open_window counted
permits-IsMap ip now l m = elim (Option-cases (lookup ip l.seen)) [
  | inl e ↦ rw (e, permits) (store-IsMap ip _ _ (kept-IsMap now l m))
  | inr (w, e) ↦ elim (Bool-cases (is_over l.span now w)) [
    | inl o ↦ rw (e, permits) (rw o (store-IsMap ip _ _ (kept-IsMap now l m)))
    | inr o ↦ rw (e, permits) (rw o (store-IsMap ip _ l.seen m))
  ]
]

permits_same :
    (ip : Text) (now : Time) (l : Limiter)
    → ((permits ip now l).0.cap ≡ l.cap) × ((permits ip now l).0.span ≡ l.span)
unfolding permits permits_from open_window counted
permits_same ip now l = elim (Option-cases (lookup ip l.seen)) [
  | inl e ↦ (ground (arith, e), ground (arith, e))
  | inr (w, e) ↦ (ground (arith, e), ground (arith, e))
]

-- A request is answered, and counted, as by the counter of its address.
permits_own :
    (ip : Text) (now : Time) (l : Limiter)
    → (lookup ip (permits ip now l).0.seen ≡ (permits_one l.cap l.span (lookup ip l.seen) now).0)
      × ((permits ip now l).1 ≡ (permits_one l.cap l.span (lookup ip l.seen) now).1)
unfolding permits permits_from open_window counted permits_one
permits_own ip now l = elim (Option-cases (lookup ip l.seen)) [
  | inl e ↦ (rw (e, permits) (lookup-store_same ip _ _), ground (arith, e))
  | inr (w, e) ↦ (
    elim (Bool-cases (is_over l.span now w)) [
      | inl o ↦ rw (e, permits) (rw o (lookup-store_same ip _ _))
      | inr o ↦ rw (e, permits) (rw o (lookup-store_same ip _ _))
    ],
    ground (arith, e),
  )
]

-- What is stored for an address: what its own counter has, or nothing where that window is over.
Same : ℕ → Option Window → Option Window → Time → Type 0
Same span stored own now =
    (stored ≡ own) ⊎ ((stored ≡ none) × (w : Window) × (own ≡ some w) × (is_over span now w ≡ true))

Same-later :
    (span : ℕ) (stored own : Option Window) (now later : Time)
    → now ≤ later
    → Same span stored own now
    → Same span stored own later
unfolding Same
Same-later span stored own now later h (inl e) = inl e
Same-later span stored own now later h (inr (e, w, f, o)) = inr (e, w, f, ground (arith, o, h))

Same-unless :
    (span : ℕ) (stored own : Option Window) (now : Time)
    → Same span stored own now
    → Same span (unless (is_over span now) stored) own now
unfolding Same
Same-unless span none own now h = h
Same-unless span (some w) own now (inr (e, v, f, o)) = cc
Same-unless span (some w) own now (inl e) = elim (Bool-cases (is_over span now w)) [
  | inl o ↦ rw o (inr (refl, w, sym e, o))
  | inr o ↦ rw o (inl e)
]

-- A window that is over and none are counted alike.
permits_one-Same :
    (cap span : ℕ) (stored own : Option Window) (now : Time)
    → Same span stored own now
    → permits_one cap span stored now ≡ permits_one cap span own now
unfolding Same permits_one
permits_one-Same cap span stored own now (inl e) = rw e refl
permits_one-Same cap span stored own now (inr (e, w, f, o)) = rw (e, f, o) refl

open_window_other :
    (ip other : Text) (own : Option Window) (now : Time) (l : Limiter)
    → (other == ip) ≡ false
    → IsMap l.seen
    → Same l.span (lookup ip l.seen) own now
    → Same l.span (lookup ip (open_window other now l).seen) own now
unfolding open_window
open_window_other ip other own now l d m h = elim (Bool-cases (ltb 4096 (length l.seen))) [
  | inl e ↦
      rw
        (
          e,
          lookup-store_other other ip _ (purge (is_over l.span now) l.seen) d,
          lookup-purge (is_over l.span now) ip l.seen m,
        )
        (Same-unless l.span (lookup ip l.seen) own now h)
  | inr e ↦ rw (e, lookup-store_other other ip _ l.seen d) h
]

-- A request from one address leaves what is stored for another one the same.
permits_other :
    (ip other : Text) (own : Option Window) (now : Time) (l : Limiter)
    → (other == ip) ≡ false
    → IsMap l.seen
    → Same l.span (lookup ip l.seen) own now
    → Same l.span (lookup ip (permits other now l).0.seen) own now
unfolding permits permits_from counted
permits_other ip other own now l d m h = elim (Option-cases (lookup other l.seen)) [
  | inl e ↦ rw (e, permits) (open_window_other ip other own now l d m h)
  | inr (w, e) ↦ elim (Bool-cases (is_over l.span now w)) [
    | inl o ↦ rw (e, permits) (rw o (open_window_other ip other own now l d m h))
    | inr o ↦ rw (e, permits) (rw o (rw (lookup-store_other other ip _ l.seen d) h))
  ]
]

answers_Same :
    (ip : Text) (rs : List (Text × Time)) (from : Time) (l : Limiter) (own : Option Window)
    → IsMap l.seen
    → IsForward from rs
    → Same l.span (lookup ip l.seen) own from
    → answers_of ip rs (permits_all rs l).1 ≡ permits_alone l.cap l.span own (times_of ip rs)
unfolding permits_all permits_alone Same
answers_Same ip [] from l own m f h = refl
answers_Same ip ((other, now) ∷ rs) from l own m (b, f) h =
    let l' = (permits other now l).0 in
    let (c, s) = permits_same other now l in
    let g = Same-later l.span (lookup ip l.seen) own from now b h in
    elim (Bool-cases (other == ip)) [
      | inl q ↦
          let r = (text_eq.equal_iff other ip).0 q in
          let (k, t) = permits_own other now l in
          let p =
            permits_one-Same l.cap l.span (lookup other l.seen) own now
              (subst (λ x. Same l.span (lookup x l.seen) own now) (sym r) g) in
          let stored =
            subst (λ x. lookup x l'.seen ≡ (permits_one l.cap l.span own now).0) r
              (k ∙ ap (λ x. x.0) p) in
          let i =
            answers_Same ip rs now l' (permits_one l.cap l.span own now).0
              (permits-IsMap other now l m) f (inl stored) in
          ground (arith, q, i, c, s, t ∙ ap (λ x. x.1) p)
      | inr q ↦
          let i =
            answers_Same ip rs now l' own (permits-IsMap other now l m) f
              (rw s (permits_other ip other own now l q m g)) in
          ground (arith, q, i, c, s)
    ]

-- Whatever addresses the requests come from, each address is answered as by a limiter of its own
-- that sees its requests alone, from a new limiter and a clock that does not go back.
pub permits_all_lem :
    (cap span : ℕ) (ip : Text) (from : Time) (rs : List (Text × Time))
    → IsForward from rs
    → answers_of ip rs (permits_all rs (new_limiter cap span)).1
      ≡ permits_alone cap span none (times_of ip rs)
unfolding Same lookup
permits_all_lem cap span ip from rs f =
    answers_Same ip rs from (new_limiter cap span) none tt f (inl refl)

times_of-AreWithin :
    (ip : Text) (from until : Time) (rs : List (Text × Time))
    → IsForward from rs
    → All (λ r. r.1 ≤ until) rs
    → AreWithin from until (times_of ip rs)
times_of-AreWithin ip from until [] f u = tt
times_of-AreWithin ip from until ((other, now) ∷ rs) (b, f) (a, u) =
    elim (Bool-cases (other == ip)) [
      | inl q ↦ rw q (b, a, times_of-AreWithin ip now until rs f u)
      | inr q ↦ rw q (AreWithin-earlier from now until _ b (times_of-AreWithin ip now until rs f u))
    ]

-- In a time as long as a window no address gets through more than twice its cap, whatever went
-- before and whatever other addresses send, while the clock does not go back, with a cap of at
-- least one and no address twice in the map.
pub permits_all_bound :
    (ip : Text) (from until : Time) (rs : List (Text × Time)) (l : Limiter)
    → 1 ≤ l.cap
    → IsMap l.seen
    → IsForward from rs
    → All (λ r. r.1 ≤ until) rs
    → until ≤ from + l.span
    → count_true (answers_of ip rs (permits_all rs l).1) ≤ 2 * l.cap
unfolding Same
permits_all_bound ip from until rs l c m f u b =
    rw (answers_Same ip rs from l (lookup ip l.seen) m f (inl refl)) (
      permits_alone_twice l.cap l.span (lookup ip l.seen) from until (times_of ip rs) c
        (times_of-AreWithin ip from until rs f u) b)
