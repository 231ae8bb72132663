-- ===== src/Catalog.antt =====
-- The catalog of games in its three layers (core/domain/catalog.go). `lower` is `strings.ToLower`,
-- on the tables of Unicode. The map `best` is ranged over and then sorted.
pub mod Layers
use kanpachi.Base.{
  ℕ, Bool, true, false, ◌&&◌, ◌||◌, not, ◌≡◌, List, [], ◌∷◌, ◌++◌, Option, none, some, ltb,
  if◌then◌else◌, ◌==◌, Text, text_eq, text_order, text_beq, text_beq_iff, text_less, text_irrefl,
  text_trans, text_connected, Order, arith, lookup, store, sort, find, is_empty,
}
use kanpachi.Profile.{Origin, precedence, origin_is_unset, builtin, mine, imported, GameProfile}

-- The order of `sortProfiles` on the keys it compares: by the first text, then by the second.
abbrev pub key_less : Text × Text → Text × Text → Bool
key_less (a, b) (c, d) = if not (text_beq a c) then text_less a c else text_less b d

pub key_irrefl : (x : Text × Text) → key_less x x ≡ false
key_irrefl (a, b) = ground (arith, text_beq_iff a a, text_irrefl b)

pub key_trans :
    (x y z : Text × Text) → key_less x y ≡ true → key_less y z ≡ true → key_less x z ≡ true
key_trans (a, b) (c, d) (f, g) h k = ground (
  arith,
  h,
  k,
  text_beq_iff a c,
  text_beq_iff c f,
  text_beq_iff a f,
  text_trans a c f,
  text_trans b d g,
  text_irrefl a,
  text_trans a c a,
)

pub key_connected : (x y : Text × Text) → key_less x y ≡ false → key_less y x ≡ false → x ≡ y
key_connected (a, b) (c, d) h k =
    ground (arith, h, k, text_beq_iff a c, text_beq_iff c a, text_connected a c, text_connected b d)

instance abbrev pub key_order : Order (Text × Text)
key_order = record {
  less = key_less;
  less_irrefl = key_irrefl;
  less_trans = key_trans;
  less_connected = key_connected;
}

pub record RejectedProfile : Type 0 where
  pub id : Text
  pub name : Text
  pub origin : Origin
  pub reason : Text
  pub raw : List ℕ

pub record Catalog : Type 0 where
  pub profiles : List GameProfile
  pub rejected : List RejectedProfile
  pub shadowed : List GameProfile

-- The map `best`, by ID.
abbrev pub Best : Type 0
Best = List (Text × GameProfile)

-- The loop of `BuildCatalog` over the profiles.
unfoldable pub layer_loop : List GameProfile → Best → List GameProfile → Best × List GameProfile
layer_loop [] best shadowed = (best, shadowed)
layer_loop (p ∷ ps) best shadowed =
    let next = layer_loop ps (store p.id p best) in
    elim (lookup p.id best) [
      | none ↦ next shadowed
      | some prev ↦
          if ltb (precedence prev.origin) (precedence p.origin)
          then next (shadowed ++ prev ∷ [])
          else layer_loop ps best (shadowed ++ p ∷ [])
    ]

-- The values of a map.
abbrev pub values : Best → List GameProfile
values [] = []
values ((k, p) ∷ m) = p ∷ values m

module _ (lower : Text → Text) where
  abbrev pub sort_key : GameProfile → Text × Text
  sort_key p = (lower p.name, p.id)

  -- `sortProfiles`
  abbrev pub sort_profiles : List GameProfile → List GameProfile
  sort_profiles ps = sort sort_key ps

  -- `BuildCatalog`
  unfoldable pub build_catalog : List GameProfile → List RejectedProfile → Catalog
  build_catalog profiles rejected =
      let (best, shadowed) = layer_loop profiles [] [] in
      record {
        profiles = sort_profiles (values best);
        rejected = rejected;
        shadowed = sort_profiles shadowed;
      }

-- `Catalog.Find`
unfoldable pub find_profile : Catalog → Text → Option GameProfile
find_profile c id = find (λ p. p.id == id) c.profiles
