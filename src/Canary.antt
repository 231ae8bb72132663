-- ===== src/Canary.antt =====
-- The canary: a member dials a port of the host and reports whether the gate held
-- (core/domain/canary.go).
pub mod Rounds
use kanpachi.Base.{
  ℕ, Bool, true, false, not, ◌&&◌, ◌||◌, List, [], ◌∷◌, ◌++◌, Option, none, some, nat_beq,
  if◌then◌else◌, ◌==◌, text_eq, Eq, any, all, is_empty, find, contains,
}
use kanpachi.Net.{Time, is_zero, Addr, is_valid, addr_eq}
use kanpachi.Members.{Nickname}
use kanpachi.Probe.{ProbeOutcome, answered, refused, silent, failed, reached}

-- `CanaryNonce`, sixteen bytes.
pub record CanaryRequest : Type 0 where
  pub host : Addr
  pub port : ℕ
  pub nonce : List ℕ

pub data CanaryError : Type 0 where
  no_host port_zero nonce_zero : CanaryError

-- `CanaryRequest.Valid`; `none` is the nil error.
unfoldable pub validate : CanaryRequest → Option CanaryError
validate r =
    if not (is_valid r.host)
    then some no_host
    else if nat_beq r.port 0
    then some port_zero
    else if all (λ b. nat_beq b 0) r.nonce
    then some nonce_zero
    else none

pub record CanaryReport : Type 0 where
  pub from : Addr
  pub port : ℕ
  pub tcp : ProbeOutcome
  pub udp : ProbeOutcome

pub data CanaryVerdict : Type 0 where
  blind leaking clean unconfirmed mismatch : CanaryVerdict

pub record CanaryAsked : Type 0 where
  pub at : Addr
  pub name : Nickname

pub record CanaryAnswer : Type 0 where
  pub from : Addr
  pub name : Nickname
  pub tcp : ProbeOutcome
  pub udp : ProbeOutcome

-- `Reach`
abbrev pub reach : CanaryAnswer → Bool
reach a = reached a.tcp || reached a.udp

abbrev pub is_failed : ProbeOutcome → Bool
is_failed failed = true
is_failed answered = false
is_failed refused = false
is_failed silent = false

-- `Measured`
abbrev pub measured : CanaryAnswer → Bool
measured a = not (is_failed a.tcp) || not (is_failed a.udp)

pub record CanaryCheck : Type 0 where
  pub measured_at : Time
  pub port : ℕ
  pub asked : List CanaryAsked
  pub touched : Bool
  pub answers : List CanaryAnswer

abbrev pub no_check : CanaryCheck
no_check = record { measured_at = 0; port = 0; asked = []; touched = false; answers = [] }

-- `askedName`
abbrev pub asked_name : Addr → List CanaryAsked → Option CanaryAsked
asked_name at asked = find (λ q. q.at == at) asked

abbrev pub answered_from : Addr → List CanaryAnswer → Bool
answered_from at answers = any (λ a. a.from == at) answers

-- `Record`
unfoldable pub record_report : CanaryCheck → CanaryReport → CanaryCheck × Bool
record_report c r =
    if not (nat_beq r.port c.port) then (c, false) else elim (asked_name r.from c.asked) [
      | none ↦ (c, false)
      | some q ↦ if answered_from r.from c.answers then (c, false) else (
        record c {
          answers =
              c.answers ++ record { from = r.from; name = q.name; tcp = r.tcp; udp = r.udp } ∷ [];
        },
        true,
      )
    ]

-- `AllAnswered`
unfoldable pub all_answered : CanaryCheck → Bool
all_answered c = if is_empty c.asked then false else all (λ q. answered_from q.at c.answers) c.asked

-- `ReportedReach`
abbrev pub reported_reach : CanaryCheck → Bool
reported_reach c = any reach c.answers

-- `ReportedMeasured`
abbrev pub reported_measured : CanaryCheck → Bool
reported_measured c = any measured c.answers

-- `Verdict`
unfoldable pub verdict : CanaryCheck → CanaryVerdict
verdict c =
    if is_zero c.measured_at
    then blind
    else if c.touched
    then leaking
    else if is_empty c.answers
    then unconfirmed
    else if not (reported_measured c)
    then unconfirmed
    else if reported_reach c
    then mismatch
    else clean

abbrev pub is_alarming : CanaryVerdict → Bool
is_alarming leaking = true
is_alarming mismatch = true
is_alarming _ = false

-- `NeedsAttention`
unfoldable pub needs_attention : CanaryCheck → Bool
needs_attention c = is_alarming (verdict c)

abbrev pub is_clean : CanaryVerdict → Bool
is_clean clean = true
is_clean _ = false

-- `ClearsAlarm`
unfoldable pub clears_alarm : CanaryCheck → Bool
clears_alarm c = is_clean (verdict c)

-- A round: the reports in the order in which they arrive.
unfoldable pub record_all : CanaryCheck → List CanaryReport → CanaryCheck
record_all c [] = c
record_all c (r ∷ rs) = record_all (record_report c r).0 rs
