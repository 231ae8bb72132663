-- ===== src/Examples/ProfileRuns.antt =====
-- A profile that is accepted, and two that are not.
use kanpachi.Base.{ℕ, ◌&&◌, ◌≡◌, refl, [], ◌∷◌, codes, ok, err, any, leb, sort, insert, text_order}
use kanpachi.Net.{v4, addr_order}
use kanpachi.Ports.{proto_both, proto_tcp, hits_forbidden}
use kanpachi.Profile.{GameProfile, no_game, mine, direct_ip}
use kanpachi.Policy.{
  host, RuleSet, build_rule_set, allows, role_ports, normalize_members, collect_members,
}
use kanpachi.Validation.{
  new_game_profile, validate, check_ranges, is_valid_profile_id, bad_id, port_forbidden,
}
use kanpachi.Validation.Accepted.{build_rule_set-new_game_profile}

abbrev doom : GameProfile
doom = record no_game {
  id = codes "doom-2";
  name = codes "Doom II";
  origin = mine;
  host_ports = record { proto = proto_both; from = 5029; to = 5030 } ∷ [];
  connect = record { kind = direct_ip; text_es = [] };
}

doom_accepted : new_game_profile doom ≡ ok doom
unfolding validate check_ranges is_valid_profile_id hits_forbidden
doom_accepted = refl

shouting_refused : new_game_profile (record doom { id = codes "DOOM" }) ≡ err bad_id
unfolding validate is_valid_profile_id
shouting_refused = refl

greedy_refused :
    new_game_profile
      (record doom { client_ports = record { proto = proto_tcp; from = 3000; to = 4000 } ∷ [] })
    ≡ err (port_forbidden 3389)
unfolding validate check_ranges is_valid_profile_id hits_forbidden
greedy_refused = refl

build_rule_set-new_game_profile_example :
    (rs : RuleSet) × (build_rule_set doom host (v4 1) (v4 1 ∷ v4 2 ∷ []) ≡ ok rs)
    × ((port : ℕ)
        → allows rs port ≡ any (λ r. leb r.from port && leb port r.to) (role_ports doom host))
unfolding normalize_members collect_members sort insert
build_rule_set-new_game_profile_example =
    build_rule_set-new_game_profile doom doom host (v4 1) (v4 1 ∷ v4 2 ∷ []) doom_accepted refl refl
