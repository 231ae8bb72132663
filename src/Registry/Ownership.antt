-- ===== src/Registry/Ownership.antt =====
-- Who owns an invite ID, over every sequence of requests (registry/store.go).
use kanpachi.Base.{
  ℕ, zero, suc, ◌+◌, ◌≤◌, Bool, ◌≡◌, List, [], ◌∷◌, some, arith, ltb, ◌==◌, text_eq, Text, length,
  lookup, store, purge, lookup-store, lookup-purge, IsMap, store-IsMap, purge-IsMap, Bool-cases,
  Option-cases, inl, inr, All,
}
use kanpachi.Net.{Time}
use kanpachi.Registry.{
  Room, Rooms, room_ttl, is_expired, is_taken, insert_room, publish_locked, publish, retire, sweep,
  Round, issue_rounds, issue, Request, issue_for, publish_at, retire_at, sweep_at, serve, serve_all,
  max_card_bytes,
}

-- The key and the rendezvous name under an invite ID.
pub record IsOwned (id : Text) (key : List ℕ) (name : Text) (until : Time) (m : Rooms)
    : Type 0 where
  pub is_map : IsMap m
  pub room : Room
  pub found : lookup id m ≡ some room
  pub key_same : room.host_key ≡ key
  pub name_same : room.rendezvous_name ≡ name
  pub lasts : until ≤ room.pin_until

module _ (id : Text) (key : List ℕ) (name : Text) (until : Time) where
  abbrev Owned : Rooms → Type 0
  Owned = IsOwned id key name until

  kept : (now : Time) (m : Rooms) → now ≤ until → Owned m → Owned (purge (is_expired now) m)
  kept now m w o = record {
    is_map = purge-IsMap (is_expired now) m o.is_map;
    room = o.room;
    found = ground (arith, lookup-purge (is_expired now) id m o.is_map, o.found, o.lasts);
    key_same = o.key_same;
    name_same = o.name_same;
    lasts = o.lasts;
  }

  store-IsOwned :
      (other : Text) (r : Room) (m : Rooms)
      → Owned m
      → (other ≡ id → (r.host_key ≡ key) × (r.rendezvous_name ≡ name) × (until ≤ r.pin_until))
      → Owned (store other r m)
  store-IsOwned other r m o same = elim (Bool-cases (other == id)) [
    | inl q ↦
        let (k, n, p) = same ((text_eq.equal_iff other id).0 q) in
        record {
          is_map = store-IsMap other r m o.is_map;
          room = r;
          found = ground (arith, lookup-store other id r m, q);
          key_same = k;
          name_same = n;
          lasts = p;
        }
    | inr q ↦ record {
      is_map = store-IsMap other r m o.is_map;
      room = o.room;
      found = ground (arith, lookup-store other id r m, q, o.found);
      key_same = o.key_same;
      name_same = o.name_same;
      lasts = o.lasts;
    }
  ]

  insert_room-IsOwned :
      (swept at : Time) (other : Text) (host_key card sig : List ℕ) (network : Text) (m : Rooms)
      → swept ≤ until
      → Owned m
      → Owned (insert_room swept at other host_key card sig network m).0
  unfolding insert_room
  insert_room-IsOwned swept at other host_key card sig network m w o =
      let k = kept swept m w o in
      elim (Option-cases (lookup other (purge (is_expired swept) m))) [
        | inr (r, f) ↦ rw (f, insert_room) k
        | inl f ↦
            rw (f, insert_room)
              (store-IsOwned other _ (purge (is_expired swept) m) k
                (λ e. ground (arith, k.found, f)))
      ]

  publish_locked-IsOwned :
      (swept at : Time) (other : Text) (host_key card sig : List ℕ) (m : Rooms)
      → swept ≤ until
      → until ≤ at + room_ttl
      → Owned m
      → Owned (publish_locked swept at other host_key card sig m).0
  unfolding publish_locked
  publish_locked-IsOwned swept at other host_key card sig m w u o =
      let k = kept swept m w o in
      elim (Option-cases (lookup other (purge (is_expired swept) m))) [
        | inl f ↦ rw (f, publish_locked) k
        | inr (r, f) ↦ elim (Bool-cases (r.host_key == host_key)) [
          | inr g ↦ rw (f, publish_locked) (rw g k)
          | inl g ↦
              rw (f, publish_locked)
                (rw g (
                  store-IsOwned other _ (purge (is_expired swept) m) k (λ e.
                    let s : r ≡ k.room = ground (arith, k.found, f) in
                    (rw s k.key_same, rw s k.name_same, u))))
        ]
      ]

  retire-IsOwned :
      (swept at : Time) (other : Text) (host_key : List ℕ) (m : Rooms)
      → swept ≤ until
      → Owned m
      → Owned (retire swept at other host_key m).0
  unfolding retire
  retire-IsOwned swept at other host_key m w o =
      let k = kept swept m w o in
      elim (Option-cases (lookup other (purge (is_expired swept) m))) [
        | inl f ↦ rw (f, retire) k
        | inr (r, f) ↦ elim (Bool-cases (r.host_key == host_key)) [
          | inr g ↦ rw (f, retire) (rw g k)
          | inl g ↦
              rw (f, retire)
                (rw g (
                  store-IsOwned other _ (purge (is_expired swept) m) k (λ e.
                    let s : r ≡ k.room = ground (arith, k.found, f) in
                    (rw s k.key_same, rw s k.name_same, rw s k.lasts))))
        ]
      ]

  module _ (verify : List ℕ → List ℕ → List ℕ → Bool) (network : Text → Text) where
    issue_rounds-IsOwned :
        (left : ℕ) (round : ℕ → Round) (host_key card sig : List ℕ) (m : Rooms)
        → ((i : ℕ) → (round i).swept ≤ until)
        → Owned m
        → Owned (issue_rounds verify network left round host_key card sig m).0
    unfolding issue_rounds
    issue_rounds-IsOwned zero round host_key card sig m w o = o
    issue_rounds-IsOwned (suc left) round host_key card sig m w o =
        elim (Option-cases (round left).new_id) [
          | inl e ↦ rw (e, issue_rounds) o
          | inr (other, e) ↦
              rw (e, issue_rounds)
                (elim (Bool-cases (is_taken (round left).checked other m)) [
                  | inl t ↦ rw t (issue_rounds-IsOwned left round host_key card sig m w o)
                  | inr t ↦
                      let i =
                        insert_room-IsOwned (round left).swept (round left).pinned_at other host_key
                          card sig (network other) m (w left) o in
                      rw t (elim (Bool-cases (round left).is_cancelled) [
                        | inl c ↦ rw c o
                        | inr c ↦
                            rw c
                              (elim (Bool-cases
                                (insert_room (round left).swept (round left).pinned_at other
                                  host_key card sig (network other) m).1) [
                                    | inl d ↦ rw d i
                                    | inr d ↦
                                        rw d
                                          (issue_rounds-IsOwned left round host_key card sig _ w i)
                                  ])
                      ])
                ])
        ]

    issue-IsOwned :
        (round : ℕ → Round) (host_key card sig : List ℕ) (m : Rooms)
        → ((i : ℕ) → (round i).swept ≤ until)
        → Owned m
        → Owned (issue verify network round host_key card sig m).0
    unfolding issue
    issue-IsOwned round host_key card sig m w o =
        elim (Bool-cases (ltb max_card_bytes (length card))) [
          | inl e ↦ rw e o
          | inr e ↦ rw e (elim (Bool-cases (verify host_key card sig)) [
            | inr f ↦ rw f o
            | inl f ↦ rw f (issue_rounds-IsOwned 8 round host_key card sig m w o)
          ])
        ]

    publish-IsOwned :
        (swept at : Time) (other : Text) (host_key card sig : List ℕ) (m : Rooms)
        → swept ≤ until
        → until ≤ at + room_ttl
        → Owned m
        → Owned (publish verify network swept at other host_key card sig m).0
    unfolding publish
    publish-IsOwned swept at other host_key card sig m w u o =
        elim (Bool-cases (ltb max_card_bytes (length card))) [
          | inl e ↦ rw e o
          | inr e ↦ rw e (elim (Bool-cases (verify host_key card sig)) [
            | inr f ↦ rw f o
            | inl f ↦ rw f (publish_locked-IsOwned swept at other host_key card sig m w u o)
          ])
        ]

-- The readings of the clock in a request are not after `until`, and a publication pins at least as
-- long.
abbrev pub InTime : Time → Request → Type 0
InTime until (issue_for round host_key card sig) = (i : ℕ) → (round i).swept ≤ until
InTime until (publish_at swept at id host_key card sig) = (swept ≤ until) × (until ≤ at + room_ttl)
InTime until (retire_at swept at id host_key) = swept ≤ until
InTime until (sweep_at now) = now ≤ until

module _ (verify : List ℕ → List ℕ → List ℕ → Bool) (network : Text → Text) where
  pub serve-IsOwned :
      (id : Text) (key : List ℕ) (name : Text) (until : Time) (q : Request) (m : Rooms)
      → InTime until q
      → IsOwned id key name until m
      → IsOwned id key name until (serve verify network q m)
  unfolding serve sweep
  serve-IsOwned id key name until (issue_for round host_key card sig) m w o =
      issue-IsOwned id key name until verify network round host_key card sig m w o
  serve-IsOwned id key name until (publish_at swept at other host_key card sig) m (w, u) o =
      publish-IsOwned id key name until verify network swept at other host_key card sig m w u o
  serve-IsOwned id key name until (retire_at swept at other host_key) m w o =
      retire-IsOwned id key name until swept at other host_key m w o
  serve-IsOwned id key name until (sweep_at now) m w o = kept id key name until now m w o

  -- Until the pin of a room runs out, no sequence of requests, by whatever keys, takes its invite ID
  -- from the key that holds it, or changes its rendezvous name.
  pub serve_all-IsOwned :
      (id : Text) (key : List ℕ) (name : Text) (until : Time) (qs : List Request) (m : Rooms)
      → All (InTime until) qs
      → IsOwned id key name until m
      → IsOwned id key name until (serve_all verify network qs m)
  unfolding serve_all
  serve_all-IsOwned id key name until [] m w o = o
  serve_all-IsOwned id key name until (q ∷ qs) m (w, ws) o =
      serve_all-IsOwned id key name until qs (serve verify network q m) ws
        (serve-IsOwned id key name until q m w o)
