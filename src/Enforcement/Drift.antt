-- ===== src/Enforcement/Drift.antt =====
-- What a difference says (core/domain/enforcement.go).
use kanpachi.Base.{
  Bool, true, false, not, ◌&&◌, ◌||◌, ◌≡◌, refl, List, [], ◌∷◌, none, some, arith, ◌==◌, text_eq,
  text_order, Text, lookup, store, keys, contains, any, any-sort, itself, lookup-store,
  contains-keys-store, Option-cases, inl, inr, IsSorted, sort-IsSorted,
}
use kanpachi.Policy.{FirewallRule, RuleSet}
use kanpachi.Enforcement.{
  AppliedRule, Enforcement, is_firewall, is_on, applied_names, missing_names, wanted_names,
  extra_names, diff,
}

-- A firewall rule of that name stands; it stands and is enabled.
abbrev pub stands : Text → AppliedRule → Bool
stands n r = is_firewall r.layer && r.name == n

abbrev pub works : Text → AppliedRule → Bool
works n r = is_firewall r.layer && r.enabled && r.name == n

abbrev pub is_wanted : Text → FirewallRule → Bool
is_wanted n r = r.name == n

lookup-applied :
    (n : Text) (rs : List AppliedRule) (m : List (Text × Bool))
    → is_on (lookup n (applied_names rs m)) ≡ (is_on (lookup n m) || any (works n) rs)
unfolding applied_names
lookup-applied n [] m = ground arith
lookup-applied n (r ∷ rs) m = elim (Option-cases (lookup r.name m)) [
  | inl e ↦ ground (
    arith,
    e,
    lookup-applied n rs m,
    lookup-applied n rs (store r.name true m),
    lookup-applied n rs (store r.name false m),
    lookup-store r.name n true m,
    lookup-store r.name n false m,
    text_eq.equal_iff r.name n,
  )
  | inr (b, e) ↦ ground (
    arith,
    e,
    lookup-applied n rs m,
    lookup-applied n rs (store r.name true m),
    lookup-store r.name n true m,
  )
]

lookup-nil : (n : Text) → lookup {V = Bool} n [] ≡ none
unfolding lookup
lookup-nil n = refl

lookup-keys :
    (n : Text) (m : List (Text × Bool)) (b : Bool)
    → lookup n m ≡ some b
    → contains n (keys m) ≡ true
unfolding lookup
lookup-keys n [] b h = cc
lookup-keys n ((k, v) ∷ m) b h = ground (arith, lookup-keys n m b)

keys-applied :
    (n : Text) (rs : List AppliedRule) (m : List (Text × Bool))
    → contains n (keys (applied_names rs m)) ≡ (contains n (keys m) || any (stands n) rs)
unfolding applied_names
keys-applied n [] m = ground arith
keys-applied n (r ∷ rs) m = elim (Option-cases (lookup r.name m)) [
  | inl e ↦ ground (
    arith,
    e,
    keys-applied n rs m,
    keys-applied n rs (store r.name true m),
    keys-applied n rs (store r.name false m),
    contains-keys-store r.name n true m,
    contains-keys-store r.name n false m,
  )
  | inr (b, e) ↦ ground (
    arith,
    e,
    keys-applied n rs m,
    keys-applied n rs (store r.name true m),
    contains-keys-store r.name n true m,
    lookup-keys r.name m b e,
    text_eq.equal_iff r.name n,
  )
]

contains-missing :
    (n : Text) (rs : List FirewallRule) (m : List (Text × Bool))
    → contains n (missing_names rs m) ≡ (any (is_wanted n) rs && not (is_on (lookup n m)))
unfolding missing_names
contains-missing n [] m = ground arith
contains-missing n (r ∷ rs) m = ground (arith, contains-missing n rs m, text_eq.equal_iff r.name n)

contains-wanted :
    (n : Text) (rs : List FirewallRule) → contains n (wanted_names rs) ≡ any (is_wanted n) rs
contains-wanted n [] = refl
contains-wanted n (r ∷ rs) = ground (arith, contains-wanted n rs)

contains-extra :
    (n : Text) (ns wanted : List Text)
    → contains n (extra_names ns wanted) ≡ (contains n ns && not (contains n wanted))
unfolding extra_names
contains-extra n [] wanted = ground arith
contains-extra n (k ∷ ns) wanted = ground (arith, contains-extra n ns wanted, text_eq.equal_iff k n)

-- The difference names as missing the rules that are wanted and do not stand enabled in the firewall,
-- and as extra those that stand there, enabled or not, and are not wanted; both lists are sorted.
pub diff_lem :
    (e : Enforcement) (desired : RuleSet) (want_gate : Bool)
    → let d = diff e desired want_gate in
      ((n : Text)
        → contains n d.missing ≡ (any (is_wanted n) desired.rules && not (any (works n) e.rules)))
      × ((n : Text)
          → contains n d.extra ≡ (any (stands n) e.rules && not (any (is_wanted n) desired.rules)))
      × IsSorted itself d.missing
      × IsSorted itself d.extra
unfolding diff
diff_lem e desired want_gate =
    let applied = applied_names e.rules [] in
    (
      λ n. ground (
        arith,
        any-sort itself (λ x. x == n) (missing_names desired.rules applied),
        contains-missing n desired.rules applied,
        lookup-applied n e.rules [],
        lookup-nil n,
      ),
      λ n. ground (
        arith,
        any-sort itself (λ x. x == n) (extra_names (keys applied) (wanted_names desired.rules)),
        contains-extra n (keys applied) (wanted_names desired.rules),
        contains-wanted n desired.rules,
        keys-applied n e.rules [],
      ),
      sort-IsSorted itself (missing_names desired.rules applied),
      sort-IsSorted itself (extra_names (keys applied) (wanted_names desired.rules)),
    )
