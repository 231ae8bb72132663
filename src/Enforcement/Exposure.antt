-- ===== src/Enforcement/Exposure.antt =====
-- What the report of open ports shows (core/domain/exposurereport.go).
use kanpachi.Base.{
  Bool, true, false, ◌≡◌, ◌≢◌, ◌∙◌, refl, ap, List, [], ◌∷◌, arith, text_eq, text_order, any,
  any-sort, length, length-sort, IsSorted, sort-IsSorted, map, All, All-map,
}
use kanpachi.Net.{Time, is_zero}
use kanpachi.Policy.{FirewallRule, RuleSet, is_control}
use kanpachi.Enforcement.{
  Enforcement, ExposedPort, diff, exposed, port_name, is_blind, blind_exposure, new_exposure_report,
}
use kanpachi.Enforcement.Drift.{is_wanted, works, diff_lem}

-- How a wanted rule is to be shown: open exactly if a firewall rule of its name stands enabled.
abbrev pub shown : Enforcement → FirewallRule → ExposedPort
shown e r = record {
  name = r.name;
  proto = r.proto;
  from = r.from;
  to = r.to;
  members = r.remote;
  nets = r.nets;
  is_applied = any (works r.name) e.rules;
  control = is_control r;
}

wanted_self : (rs : List FirewallRule) → All (λ r. any (is_wanted r.name) rs ≡ true) rs
wanted_self [] = tt
wanted_self (r ∷ rs) = (
  ground (arith, text_eq.equal_iff r.name r.name),
  All-map (λ x. any (is_wanted x.name) rs ≡ true) (λ x. any (is_wanted x.name) (r ∷ rs) ≡ true)
      (λ x h. ground (arith, h)) rs (wanted_self rs),
)

map-All :
    (f g : FirewallRule → ExposedPort) (rs : List FirewallRule)
    → All (λ r. f r ≡ g r) rs
    → map f rs ≡ map g rs
map-All f g [] h = refl
map-All f g (r ∷ rs) (h, hs) = cc (h, map-All f g rs hs)

length-map :
    (f : FirewallRule → ExposedPort) (rs : List FirewallRule) → length (map f rs) ≡ length rs
length-map f [] = refl
length-map f (r ∷ rs) = ground (arith, length-map f rs)

is_zero_not : {t : Time} → t ≢ 0 → is_zero t ≡ false
is_zero_not z = ground arith

exposed-shown :
    (e : Enforcement) (desired : RuleSet) (want_gate : Bool)
    → map (exposed (diff e desired want_gate).missing) desired.rules ≡ map (shown e) desired.rules
exposed-shown e desired want_gate =
    map-All (exposed (diff e desired want_gate).missing) (shown e) desired.rules (
      All-map (λ r. any (is_wanted r.name) desired.rules ≡ true)
        (λ r. exposed (diff e desired want_gate).missing r ≡ shown e r)
        (λ r h.
          ap (λ b. record (shown e r) { is_applied = b })
            (ground (arith, h, (diff_lem e desired want_gate).0 r.name)))
        desired.rules (wanted_self desired.rules))

-- A measured report lists the wanted rules, each once, in the order of their names, and shows one as
-- open exactly if an enabled firewall rule of its name stands; without a measurement the report is
-- blind.
pub new_exposure_report_lem :
    (desired : RuleSet) (e : Enforcement) (want_gate : Bool) (at : Time)
    → let r = new_exposure_report desired e want_gate at in
      (is_blind r ≡ is_zero at)
      × (at ≡ 0 → r ≡ blind_exposure)
      × (at ≢ 0
          → IsSorted port_name r.ports
            × (length r.ports ≡ length desired.rules)
            × ((p : ExposedPort → Bool) → any p r.ports ≡ any p (map (shown e) desired.rules)))
unfolding new_exposure_report
new_exposure_report_lem desired e want_gate at =
    let l = map (exposed (diff e desired want_gate).missing) desired.rules in
    (
      ground arith,
      λ z. ground arith,
      λ z. rw (is_zero_not z) (
        sort-IsSorted port_name l,
        length-sort port_name l
            ∙ length-map (exposed (diff e desired want_gate).missing) desired.rules,
        λ p. any-sort port_name p l ∙ ap (any p) (exposed-shown e desired want_gate),
      ),
    )
