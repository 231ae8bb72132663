-- ===== src/Canary/Rounds.antt =====
-- What a round of the canary can be made to say (core/domain/canary.go).
use kanpachi.Base.{
  true, false, ◌≡◌, ◌≢◌, ◌↔◌, refl, List, [], ◌∷◌, ◌++◌, none, some, arith, nat_beq, ◌==◌, any,
  any-append, any_empty, is_empty, Bool-cases, Option-cases, inl, inr, All, All-append, ◌⊎◌,
}
use kanpachi.Net.{Addr, addr_eq}
use kanpachi.Canary.{
  CanaryCheck, CanaryReport, CanaryAnswer, CanaryAsked, asked_name, answered_from, record_report,
  record_all, reported_reach, reported_measured, verdict, needs_attention, clears_alarm, reach,
  measured,
}

-- Every answer is of somebody who was asked, and nobody answers twice.
abbrev pub AnswersOnce : List CanaryAnswer → Type 0
AnswersOnce [] = Unit
AnswersOnce (a ∷ l) = (any (λ b. b.from == a.from) l ≡ false) × AnswersOnce l

abbrev pub IsAsked : List CanaryAsked → CanaryAnswer → Type 0
IsAsked asked a = any (λ q. q.at == a.from) asked ≡ true

-- What a round keeps: the port, who was asked, what the host itself saw, and answers of asked members
-- only, one from each.
pub record IsSound (c : CanaryCheck) : Type 0 where
  pub from_asked : All (IsAsked c.asked) c.answers
  pub once : AnswersOnce c.answers

find-any :
    (at : Addr) (asked : List CanaryAsked) (q : CanaryAsked)
    → asked_name at asked ≡ some q
    → any (λ q. q.at == at) asked ≡ true
find-any at [] q h = cc
find-any at (x ∷ xs) q h = ground (arith, find-any at xs q)

find-absent :
    (at : Addr) (asked : List CanaryAsked)
    → asked_name at asked ≡ none
    → any (λ q. q.at == at) asked ≡ false
find-absent at [] h = refl
find-absent at (x ∷ xs) h = ground (arith, find-absent at xs)

measured-reach :
    (l : List CanaryAnswer) → any reach l ≡ true → (any measured l ≡ true) × (is_empty l ≡ false)
measured-reach [] h = cc
measured-reach (a ∷ l) h = (ground (arith, measured-reach l), refl)

append-AnswersOnce :
    (l : List CanaryAnswer) (a : CanaryAnswer)
    → answered_from a.from l ≡ false
    → AnswersOnce l
    → AnswersOnce (l ++ a ∷ [])
append-AnswersOnce [] a n h = (refl, tt)
append-AnswersOnce (b ∷ bs) a n (h, hs) = (
  ground (
    arith,
    any-append (λ x. x.from == b.from) bs (a ∷ []),
    h,
    n,
    addr_eq.equal_iff a.from b.from,
    addr_eq.equal_iff b.from a.from,
  ),
  append-AnswersOnce bs a (ground (arith, n)) hs,
)

record_report-IsSound :
    (c : CanaryCheck) (r : CanaryReport) → IsSound c → IsSound (record_report c r).0
unfolding record_report
record_report-IsSound c r s = elim (Bool-cases (nat_beq r.port c.port)) [
  | inr e ↦ rw (e, record_report) s
  | inl e ↦ elim (Option-cases (asked_name r.from c.asked)) [
    | inl f ↦ rw (e, record_report) (rw f s)
    | inr (q, f) ↦ elim (Bool-cases (answered_from r.from c.answers)) [
      | inl g ↦ rw (e, record_report) (rw f (rw g s))
      | inr g ↦
          let a : CanaryAnswer = record {
            from = r.from;
            name = q.name;
            tcp = r.tcp;
            udp = r.udp;
          } in
          rw (e, record_report)
            (rw f (
              rw g (record {
                from_asked =
                    All-append (IsAsked c.asked) c.answers (a ∷ []) s.from_asked
                      (find-any r.from c.asked q f, tt);
                once = append-AnswersOnce c.answers a g s.once;
              })))
    ]
  ]
]

-- Whoever reports, and whatever: a round holds answers of asked members only, and one from each.
pub record_all-IsSound :
    (c : CanaryCheck) (rs : List CanaryReport) → IsSound c → IsSound (record_all c rs)
unfolding record_all
record_all-IsSound c [] s = s
record_all-IsSound c (r ∷ rs) s =
    record_all-IsSound (record_report c r).0 rs (record_report-IsSound c r s)

-- A report counts exactly if it names the round's port, comes from an address that was asked, and is
-- the first from there; one that does not count changes nothing.
pub record_report_lem :
    (c : CanaryCheck) (r : CanaryReport)
    → (((record_report c r).1 ≡ true) ↔ (
        (r.port ≡ c.port)
        × (any (λ q. q.at == r.from) c.asked ≡ true)
        × (answered_from r.from c.answers ≡ false)))
      × ((record_report c r).1 ≡ false → (record_report c r).0 ≡ c)
unfolding record_report
record_report_lem c r = elim (Option-cases (asked_name r.from c.asked)) [
  | inl f ↦
      let g = find-absent r.from c.asked f in
      ((λ h. ground (arith, f, g), λ h. ground (arith, f, g)), λ h. ground (arith, f))
  | inr (q, f) ↦
      let g = find-any r.from c.asked q f in
      (
        (λ h. (ground (arith, f), g, ground (arith, f)), λ h. ground (arith, f)),
        λ h. ground (arith, f),
      )
]

same_facts :
    (c : CanaryCheck) (r : CanaryReport)
    → let c' = (record_report c r).0 in
      (c'.touched ≡ c.touched)
      × (c'.measured_at ≡ c.measured_at)
      × (reported_reach c ≡ true → reported_reach c' ≡ true)
unfolding record_report
same_facts c r = (
  ground arith,
  ground arith,
  λ h. elim (Option-cases (asked_name r.from c.asked)) [
    | inl f ↦ ground (arith, f)
    | inr (q, f) ↦ ground (
      arith,
      f,
      any-append reach c.answers
          (record { from = r.from; name = q.name; tcp = r.tcp; udp = r.udp } ∷ []),
    )
  ],
)

-- A check clears the alarm exactly if it was measured, the host saw nothing itself, some answer
-- measured something and none reached; it needs attention exactly if it was measured and the host saw
-- a packet or an answer reached. The two exclude one another.
pub alarm_lem :
    (c : CanaryCheck)
    → ((clears_alarm c ≡ true) ↔ (
        (c.measured_at ≢ 0)
        × (c.touched ≡ false)
        × (reported_measured c ≡ true)
        × (reported_reach c ≡ false)))
      × ((needs_attention c ≡ true)
          ↔ ((c.measured_at ≢ 0) × ((c.touched ≡ true) ⊎ (reported_reach c ≡ true))))
unfolding clears_alarm needs_attention verdict
alarm_lem c =
    let m = measured-reach c.answers in
    (
      (
        λ h. (ground arith, ground arith, ground arith, ground arith),
        λ h. ground (arith, any_empty measured c.answers),
      ),
      (λ h. (ground arith, ground arith), λ h. ground (arith, m)),
    )

both_exclude : (c : CanaryCheck) → needs_attention c ≡ true → clears_alarm c ≡ false
unfolding needs_attention clears_alarm
both_exclude c h = ground arith

attention_step :
    (c : CanaryCheck) (r : CanaryReport)
    → needs_attention c ≡ true
    → needs_attention (record_report c r).0 ≡ true
attention_step c r h =
    let (t, m, k) = same_facts c r in
    let (z, w) = (alarm_lem c).1.0 h in
    (alarm_lem (record_report c r).0).1.1 (
      λ e. z (ground (arith, m, e)),
      elim w [ inl x ↦ inl (ground (arith, t, x)) | inr x ↦ inr (k x) ],
    )

-- An alarm that stands is not talked away: whatever is reported after it, it needs attention still,
-- and the check does not clear it.
pub record_all-needs_attention :
    (c : CanaryCheck) (rs : List CanaryReport)
    → needs_attention c ≡ true
    → (needs_attention (record_all c rs) ≡ true) × (clears_alarm (record_all c rs) ≡ false)
unfolding record_all
record_all-needs_attention c [] h = (h, both_exclude c h)
record_all-needs_attention c (r ∷ rs) h =
    record_all-needs_attention (record_report c r).0 rs (attention_step c r h)
