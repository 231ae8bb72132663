-- ===== src/Examples/EnforcementRuns.antt =====
-- A firewall with one rule on, one switched off and one that nobody asked for.
use kanpachi.Base.{
  ℕ, true, false, not, ◌&&◌, ◌≡◌, [], ◌∷◌, Text, codes, contains, any, IsSorted, itself, text_order,
  text_eq,
}
use kanpachi.Net.{v4, Time}
use kanpachi.Ports.{proto_tcp}
use kanpachi.Policy.{FirewallRule, RuleSet, host, rule_for}
use kanpachi.Enforcement.{firewall_rules, gate_present, Enforcement, diff}
use kanpachi.Enforcement.Drift.{is_wanted, works, stands, diff_lem}

abbrev rule_at : Text → ℕ → FirewallRule
rule_at name port =
    record (rule_for (codes "doom") host (v4 1) (v4 2 ∷ [])
      (record { proto = proto_tcp; from = port; to = port }) proto_tcp) { name = name }

abbrev when : Time
when = 7

abbrev wanted : RuleSet
wanted = record { rules = rule_at (codes "b") 5029 ∷ rule_at (codes "a") 5030 ∷ [] }

abbrev found : Enforcement
found = record {
  rules =
      record { name = codes "b"; layer = firewall_rules; enabled = true }
      ∷ record { name = codes "a"; layer = firewall_rules; enabled = false }
      ∷ record { name = codes "c"; layer = firewall_rules; enabled = true }
      ∷ [];
  gate = gate_present;
}

diff_example :
    let d = diff found wanted true in
    ((n : Text)
      → contains n d.missing ≡ (any (is_wanted n) wanted.rules && not (any (works n) found.rules)))
    × ((n : Text)
        → contains n d.extra ≡ (any (stands n) found.rules && not (any (is_wanted n) wanted.rules)))
    × IsSorted itself d.missing
    × IsSorted itself d.extra
diff_example = diff_lem found wanted true
