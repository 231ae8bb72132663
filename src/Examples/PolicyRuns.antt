-- ===== src/Examples/PolicyRuns.antt =====
-- The firewall policy on a small game and three machines.
use kanpachi.Base.{◌≡◌, refl, [], ◌∷◌, codes, ok, err, All, sort, insert, text_order, ◌+◌, ◌*◌}
use kanpachi.Net.{Addr, v4, addr_eq}
use kanpachi.Ports.{proto_both, proto_tcp, proto_udp, hits_forbidden}
use kanpachi.Profile.{GameProfile, no_game}
use kanpachi.Policy.{
  host, RuleSet, rule_forbidden_port, build_rule_set, normalize_members, collect_members, rules_of,
  rule_name, rule_for,
}
use kanpachi.Policy.Safety.{IsSafe, build_rule_set-IsSafe}

abbrev ana : Addr
ana = v4 0x64400002

abbrev beto : Addr
beto = v4 0x64400003

abbrev me : Addr
me = v4 0x64400001

abbrev star : GameProfile
star = record no_game {
  id = codes "doom";
  name = codes "Doom";
  host_ports = record { proto = proto_both; from = 5029; to = 5030 } ∷ [];
}

abbrev greedy : GameProfile
greedy = record no_game {
  id = codes "bad";
  host_ports = record { proto = proto_tcp; from = 440; to = 450 } ∷ [];
}

abbrev star_rules : RuleSet
star_rules = record {
  rules =
      rule_for (codes "doom") host me (ana ∷ beto ∷ [])
        (record { proto = proto_both; from = 5029; to = 5030 }) proto_tcp
      ∷ rule_for (codes "doom") host me (ana ∷ beto ∷ [])
          (record { proto = proto_both; from = 5029; to = 5030 }) proto_udp
      ∷ [];
}

star_opens : build_rule_set star host me (beto ∷ me ∷ ana ∷ beto ∷ []) ≡ ok star_rules
unfolding build_rule_set normalize_members collect_members sort insert rules_of hits_forbidden
    rule_name
star_opens = refl

greedy_refused :
    build_rule_set greedy host me (ana ∷ []) ≡ err (rule_forbidden_port 445 (codes "bad"))
unfolding build_rule_set normalize_members collect_members sort insert rules_of hits_forbidden
    rule_name
greedy_refused = refl

build_rule_set-IsSafe_example : All (IsSafe me (beto ∷ me ∷ ana ∷ beto ∷ [])) star_rules.rules
build_rule_set-IsSafe_example =
    build_rule_set-IsSafe star host me (beto ∷ me ∷ ana ∷ beto ∷ []) star_rules star_opens

abbrev door : Addr
door = v4 (198 * 16777216 + 19 * 65536 + 7 * 256 + 1)
