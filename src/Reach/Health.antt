-- ===== src/Reach/Health.antt =====
-- What the health of a game says of its listeners (core/domain/gamehealth.go).
use kanpachi.Base.{
  Bool, true, false, not, ◌&&◌, ◌||◌, ◌≡◌, ◌↔◌, refl, List, [], ◌∷◌, ◌++◌, Option, none, some,
  arith, nat_beq, if◌then◌else◌, ◌==◌, Text, trim_space, any, contains, is_empty, Option-cases, inl,
  inr,
}
use kanpachi.Net.{Addr, is_valid, addr_eq}
use kanpachi.Ports.{PortRange}
use kanpachi.Reach.{
  GameHealth, unknown, listening, silent, Listener, listens_everywhere, matches_any, conclude,
  reach_loop, game_reach_of,
}

module _ (parse : Text → Option Addr) (ports : List PortRange) (room : Addr) where
  -- The listener is on a port of the game.
  abbrev pub is_on_port : Listener → Bool
  is_on_port l = not (nat_beq l.port 0) && matches_any l ports

  abbrev pub is_room : Option Addr → Bool
  is_room none = false
  is_room (some a) = is_valid room && a == room

  -- The listener answers at the address of the room.
  abbrev pub answers_room : Listener → Bool
  answers_room l =
      is_on_port l && (listens_everywhere l.address || is_room (parse (trim_space l.address)))

  abbrev pub is_parsed : Option Addr → Bool
  is_parsed none = false
  is_parsed (some a) = true

  -- The listener is on a port of the game, at an address that can be read.
  abbrev pub is_located : Listener → Bool
  is_located l =
      is_on_port l && (listens_everywhere l.address || is_parsed (parse (trim_space l.address)))

  abbrev is_listening : GameHealth → Bool
  is_listening listening = true
  is_listening _ = false

  abbrev is_silent : GameHealth → Bool
  is_silent silent = true
  is_silent _ = false

  abbrev is_unknown : GameHealth → Bool
  is_unknown unknown = true
  is_unknown _ = false

  abbrev added : Addr → List Addr → List Addr
  added a others = if contains a others then others else others ++ a ∷ []

  conclude-known : (others : List Addr) → is_unknown (conclude others).health ≡ false
  conclude-known [] = refl
  conclude-known (a ∷ []) = refl
  conclude-known (a ∷ b ∷ rest) = refl

  loop-known :
      (ls : List Listener) (others : List Addr)
      → is_unknown (reach_loop parse ports room ls others).health ≡ false
  unfolding reach_loop
  loop-known [] others = conclude-known others
  loop-known (l ∷ ls) others = elim (Option-cases (parse (trim_space l.address))) [
    | inl e ↦ ground (arith, e, loop-known ls others)
    | inr (a, e) ↦ ground (arith, e, loop-known ls others, loop-known ls (added a others))
  ]

  conclude_lem :
      (others : List Addr)
      → (is_listening (conclude others).health ≡ false)
        × (is_silent (conclude others).health ≡ is_empty others)
  conclude_lem [] = (refl, refl)
  conclude_lem (a ∷ []) = (refl, refl)
  conclude_lem (a ∷ b ∷ rest) = (refl, refl)

  is_empty-added : (a : Addr) (others : List Addr) → is_empty (added a others) ≡ false
  is_empty-added a [] = refl
  is_empty-added a (b ∷ others) = ground arith

  loop_lem :
      (ls : List Listener) (others : List Addr)
      → (is_listening (reach_loop parse ports room ls others).health ≡ any answers_room ls)
        × (is_silent (reach_loop parse ports room ls others).health
            ≡ (is_empty others && not (any is_located ls)))
  unfolding reach_loop
  loop_lem [] others = ((conclude_lem others).0, ground (arith, (conclude_lem others).1))
  loop_lem (l ∷ ls) others = elim (Option-cases (parse (trim_space l.address))) [
    | inl e ↦ (ground (arith, e, loop_lem ls others), ground (arith, e, loop_lem ls others))
    | inr (a, e) ↦
        let i = loop_lem ls others in
        let j = loop_lem ls (added a others) in
        (ground (arith, e, i, j), ground (arith, e, i, j, is_empty-added a others))
  ]

  -- A game is listening exactly if some listener on one of its ports answers at the room's address or
  -- everywhere; silent exactly if it has ports and no listener on one of them is at an address that
  -- can be read; unknown exactly if it has no ports.
  pub game_reach_of_lem :
      (ls : List Listener)
      → let h = (game_reach_of parse ports ls room).health in
        ((h ≡ listening) ↔ ((is_empty ports ≡ false) × (any answers_room ls ≡ true)))
        × ((h ≡ silent) ↔ ((is_empty ports ≡ false) × (any is_located ls ≡ false)))
        × ((h ≡ unknown) ↔ (is_empty ports ≡ true))
  unfolding game_reach_of
  game_reach_of_lem ls =
      let i = loop_lem ls [] in
      (
        (λ h. (ground arith, ground (arith, i)), λ h. ground (arith, i)),
        (λ h. (ground arith, ground (arith, i)), λ h. ground (arith, i)),
        (λ h. ground (arith, loop-known ls []), λ h. ground arith),
      )
