-- ===== src/Examples/RegistryRuns.antt =====
-- The registry: a room is issued, another key tries to take it, its owner withdraws it and returns.
use kanpachi.Base.{
  ℕ, ◌+◌, ◌≤◌, Bool, true, false, ◌≡◌, refl, List, [], ◌∷◌, some, arith, Text, codes, lookup, store,
  purge, ok, err, length, text_eq,
}
use kanpachi.Registry.{
  Room, Rooms, room_ttl, Round, Request, issue_for, publish_at, retire_at, sweep_at, issue, publish,
  look_up, serve, serve_all, insert_room, issue_rounds, is_taken, publish_locked, pinned,
  max_card_bytes,
}
use kanpachi.Registry.Ownership.{IsOwned, serve_all-IsOwned}
use kanpachi.Registry.Visibility.{look_up-IsSigned}

-- A signature check for the tests: the signature repeats the key.
abbrev check : List ℕ → List ℕ → List ℕ → Bool
check key card sig = text_eq.equal key sig

abbrev name_of : Text → Text
name_of id = codes "net-"

abbrev first : ℕ → Round
first i = record {
  new_id = some (codes "A7K2M9QX");
  is_cancelled = false;
  checked = 5;
  swept = 5;
  pinned_at = 5;
}

abbrev ana_key : List ℕ
ana_key = 1 ∷ []

abbrev beto_key : List ℕ
beto_key = 2 ∷ []

abbrev ana_room : Room
ana_room = record {
  host_key = ana_key;
  card = 9 ∷ [];
  sig = ana_key;
  rendezvous_name = codes "net-";
  pin_until = 5 + room_ttl;
  closed_at = 0;
}

abbrev one_room : Rooms
one_room = (codes "A7K2M9QX", ana_room) ∷ []

first_issued :
    issue check name_of first ana_key (9 ∷ []) ana_key [] ≡ (one_room, ok (codes "A7K2M9QX"))
unfolding issue issue_rounds is_taken insert_room lookup store purge
first_issued = refl

publish_stranger :
    (publish check name_of 6 6 (codes "A7K2M9QX") beto_key [] beto_key one_room).1 ≡ err pinned
unfolding publish publish_locked lookup store purge
publish_stranger = refl

abbrev attack : List Request
attack =
    publish_at 6 6 (codes "A7K2M9QX") beto_key [] beto_key
    ∷ retire_at 7 7 (codes "A7K2M9QX") beto_key
    ∷ issue_for first beto_key [] beto_key
    ∷ sweep_at 8
    ∷ []

serve_all-IsOwned_example :
    IsOwned (codes "A7K2M9QX") ana_key (codes "net-") 8 (serve_all check name_of attack one_room)
unfolding lookup
serve_all-IsOwned_example =
    serve_all-IsOwned check name_of (codes "A7K2M9QX") ana_key (codes "net-") 8 attack one_room
      ((omega arith, omega arith), (omega arith, (λ i. omega arith, (omega arith, tt))))
      (record {
        is_map = (refl, tt);
        room = ana_room;
        found = refl;
        key_same = refl;
        name_same = refl;
        lasts = omega arith;
      })

look_up-IsSigned_example :
    (check ana_key (9 ∷ []) ana_key ≡ true) × (length {A = ℕ} (9 ∷ []) ≤ max_card_bytes)
unfolding serve_all serve issue issue_rounds is_taken insert_room lookup store purge look_up
look_up-IsSigned_example =
    look_up-IsSigned check name_of (issue_for first ana_key (9 ∷ []) ana_key ∷ [])
      (codes "A7K2M9QX") ana_room (tt, tt) refl
