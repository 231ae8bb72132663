-- ===== src/Reach.antt =====
-- Whether the game listens where the room reaches it (core/domain/gamehealth.go, and `Listener` and
-- `listensEverywhere` of core/domain/discovery.go).
pub mod Health
use kanpachi.Base.{
  ℕ, Bool, true, false, not, ◌&&◌, ◌||◌, List, [], ◌∷◌, ◌++◌, Option, none, some, nat_beq, ltb,
  if◌then◌else◌, ◌==◌, text_eq, Text, codes, trim_space, any, contains, is_empty,
}
use kanpachi.Net.{Addr, no_addr, is_valid, addr_eq}
use kanpachi.Ports.{Proto, proto_both, proto_beq, PortRange}

pub data GameHealth : Type 0 where
  unknown listening silent elsewhere : GameHealth

pub record GameReach : Type 0 where
  pub health : GameHealth
  pub where_at : Addr

pub record Listener : Type 0 where
  pub proto : Proto
  pub port : ℕ
  pub address : Text
  pub pid : ℕ

-- `listensEverywhere`
unfoldable pub listens_everywhere : Text → Bool
listens_everywhere addr =
    contains (trim_space addr) (codes "0.0.0.0" ∷ codes "*" ∷ codes "::" ∷ codes "[::]" ∷ [] ∷ [])

-- `matchesAny`
unfoldable pub matches_any : Listener → List PortRange → Bool
matches_any l ports =
    any
      (λ r.
        not (ltb l.port r.from || ltb r.to l.port)
        && (proto_beq r.proto proto_both || proto_beq l.proto r.proto))
      ports

abbrev pub reach_nowhere : GameHealth → GameReach
reach_nowhere h = record { health = h; where_at = no_addr }

-- The switch at the end of `GameReachOf`.
abbrev pub conclude : List Addr → GameReach
conclude [] = reach_nowhere silent
conclude (a ∷ []) = record { health = elsewhere; where_at = a }
conclude (a ∷ b ∷ rest) = reach_nowhere elsewhere

-- `parse` is `netip.ParseAddr`.
module _ (parse : Text → Option Addr) where
  -- The loop of `GameReachOf`; `others` is its slice `otras`.
  unfoldable pub reach_loop : List PortRange → Addr → List Listener → List Addr → GameReach
  reach_loop ports room [] others = conclude others
  reach_loop ports room (l ∷ ls) others =
      let skip = reach_loop ports room ls others in
      elim (nat_beq l.port 0 || not (matches_any l ports)) [
        | true ↦ skip
        | false ↦ elim (listens_everywhere l.address) [
          | true ↦ reach_nowhere listening
          | false ↦ elim (parse (trim_space l.address)) [
            | none ↦ skip
            | some a ↦ elim (is_valid room && a == room) [
              | true ↦ reach_nowhere listening
              | false ↦
                  reach_loop ports room ls (if contains a others then others else others ++ a ∷ [])
            ]
          ]
        ]
      ]

  -- `GameReachOf`
  unfoldable pub game_reach_of : List PortRange → List Listener → Addr → GameReach
  game_reach_of ports listeners room =
      if is_empty ports then reach_nowhere unknown else reach_loop ports room listeners []
