-- ===== src/Examples/CatalogRuns.antt =====
-- One game in three layers, and another.
use kanpachi.Base.{
  ◌+◌, ◌≡◌, Bool, refl, List, [], ◌∷◌, Text, codes, some, lookup, store, IsSorted, sort, insert,
  text_eq,
}
use kanpachi.Profile.{GameProfile, no_game, builtin, mine, imported, precedence}
use kanpachi.Catalog.{key_order, sort_key, build_catalog, layer_loop, find_profile}
use kanpachi.Catalog.Layers.{count, build_catalog_lem}

abbrev named : Text → Text → GameProfile
named id name = record no_game { id = id; name = name }

abbrev shipped : GameProfile
shipped = record (named (codes "doom") (codes "Doom")) { origin = builtin }

abbrev own : GameProfile
own = record (named (codes "doom") (codes "Doom a mi manera")) { origin = mine }

abbrev received : GameProfile
received = record (named (codes "doom") (codes "Doom de otro")) { origin = imported }

abbrev other : GameProfile
other = record (named (codes "age") (codes "Age")) { origin = builtin }

abbrev all_games : List GameProfile
all_games = shipped ∷ own ∷ received ∷ other ∷ []

-- Names in the tests are compared as they stand.
abbrev as_is : Text → Text
as_is t = t

own_found : find_profile (build_catalog as_is all_games []) (codes "doom") ≡ some own
unfolding find_profile build_catalog layer_loop lookup store sort insert precedence
own_found = refl

build_catalog_example :
    let c = build_catalog as_is all_games [] in
    ((q : GameProfile → Bool) → count q c.profiles + count q c.shadowed ≡ count q all_games)
    × IsSorted (sort_key as_is) c.profiles
    × IsSorted (sort_key as_is) c.shadowed
    × (c.rejected ≡ [])
build_catalog_example = build_catalog_lem as_is all_games []
