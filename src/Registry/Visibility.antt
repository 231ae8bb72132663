-- ===== src/Registry/Visibility.antt =====
-- What a lookup shows after the requests (registry/store.go).
use kanpachi.Base.{
  ℕ, zero, suc, ◌+◌, ◌≤◌, Bool, true, ◌≡◌, ◌≢◌, List, [], ◌∷◌, some, arith, ltb, ◌==◌, text_eq,
  Text, length, lookup, purge, lookup-store, lookup-purge, IsMap, ok, err, Bool-cases, Option-cases,
  inl, inr, All, AllValues, AllValues-store, AllValues-purge, AllValues-lookup, eq_refl, subst,
}
use kanpachi.Net.{Time}
use kanpachi.Registry.{
  Room, Rooms, room_ttl, is_expired, is_taken, insert_room, publish_locked, publish, retire, sweep,
  Round, issue_rounds, issue, Request, issue_for, publish_at, retire_at, sweep_at, serve, serve_all,
  max_card_bytes, look_up, not_found,
}

-- The clock of a withdrawal is not at the zero instant, which the field `ClosedAt` keeps for open
-- rooms.
abbrev pub IsDated : Request → Type 0
IsDated (retire_at swept at id host_key) = at ≢ 0
IsDated _ = Unit

module _ (verify : List ℕ → List ℕ → List ℕ → Bool) (network : Text → Text) where
  -- An open room has a card within the limit, signed by the key that owns it.
  pub record IsSigned (r : Room) : Type 0 where
    pub signed : r.closed_at ≡ 0 → verify r.host_key r.card r.sig ≡ true
    pub small : length r.card ≤ max_card_bytes

  abbrev AllSigned : Rooms → Type 0
  AllSigned = AllValues IsSigned

  abbrev Acceptable : List ℕ → List ℕ → List ℕ → Type 0
  Acceptable key card sig = (verify key card sig ≡ true) × (length card ≤ max_card_bytes)

  insert_room-AllSigned :
      (swept at : Time) (id : Text) (host_key card sig : List ℕ) (name : Text) (m : Rooms)
      → Acceptable host_key card sig
      → AllSigned m
      → AllSigned (insert_room swept at id host_key card sig name m).0
  unfolding insert_room
  insert_room-AllSigned swept at id host_key card sig name m (v, l) h =
      let k = AllValues-purge IsSigned (is_expired swept) m h in
      elim (Option-cases (lookup id (purge (is_expired swept) m))) [
        | inr (r, f) ↦ rw (f, insert_room) k
        | inl f ↦
            rw (f, insert_room)
              (AllValues-store IsSigned id _ (purge (is_expired swept) m)
                (record { signed = λ e. v; small = l }) k)
      ]

  publish_locked-AllSigned :
      (swept at : Time) (id : Text) (host_key card sig : List ℕ) (m : Rooms)
      → Acceptable host_key card sig
      → AllSigned m
      → AllSigned (publish_locked swept at id host_key card sig m).0
  unfolding publish_locked
  publish_locked-AllSigned swept at id host_key card sig m (v, l) h =
      let k = AllValues-purge IsSigned (is_expired swept) m h in
      elim (Option-cases (lookup id (purge (is_expired swept) m))) [
        | inl f ↦ rw (f, publish_locked) k
        | inr (r, f) ↦ elim (Bool-cases (r.host_key == host_key)) [
          | inr g ↦ rw (f, publish_locked) (rw g k)
          | inl g ↦
              rw (f, publish_locked)
                (rw g (
                  AllValues-store IsSigned id _ (purge (is_expired swept) m)
                    (record {
                      signed = λ e. rw ((text_eq.equal_iff r.host_key host_key).0 g) v;
                      small = l;
                    })
                    k))
        ]
      ]

  retire-AllSigned :
      (swept at : Time) (id : Text) (host_key : List ℕ) (m : Rooms)
      → at ≢ 0
      → AllSigned m
      → AllSigned (retire swept at id host_key m).0
  unfolding retire
  retire-AllSigned swept at id host_key m d h =
      let k = AllValues-purge IsSigned (is_expired swept) m h in
      elim (Option-cases (lookup id (purge (is_expired swept) m))) [
        | inl f ↦ rw (f, retire) k
        | inr (r, f) ↦ elim (Bool-cases (r.host_key == host_key)) [
          | inr g ↦ rw (f, retire) (rw g k)
          | inl g ↦
              rw (f, retire)
                (rw g (
                  AllValues-store IsSigned id _ (purge (is_expired swept) m)
                    (record { signed = λ e. absurd (d e); small = omega arith }) k))
        ]
      ]

  issue_rounds-AllSigned :
      (left : ℕ) (round : ℕ → Round) (host_key card sig : List ℕ) (m : Rooms)
      → Acceptable host_key card sig
      → AllSigned m
      → AllSigned (issue_rounds verify network left round host_key card sig m).0
  unfolding issue_rounds
  issue_rounds-AllSigned zero round host_key card sig m a h = h
  issue_rounds-AllSigned (suc left) round host_key card sig m a h =
      elim (Option-cases (round left).new_id) [
        | inl e ↦ rw (e, issue_rounds) h
        | inr (other, e) ↦
            rw (e, issue_rounds)
              (elim (Bool-cases (is_taken (round left).checked other m)) [
                | inl t ↦ rw t (issue_rounds-AllSigned left round host_key card sig m a h)
                | inr t ↦
                    let i =
                      insert_room-AllSigned (round left).swept (round left).pinned_at other host_key
                        card sig (network other) m a h in
                    rw t (elim (Bool-cases (round left).is_cancelled) [
                      | inl c ↦ rw c h
                      | inr c ↦
                          rw c
                            (elim (Bool-cases
                              (insert_room (round left).swept (round left).pinned_at other host_key
                                card sig (network other) m).1) [
                                  | inl d ↦ rw d i
                                  | inr d ↦
                                      rw d
                                        (issue_rounds-AllSigned left round host_key card sig _ a i)
                                ])
                    ])
              ])
      ]

  issue-AllSigned :
      (round : ℕ → Round) (host_key card sig : List ℕ) (m : Rooms)
      → AllSigned m
      → AllSigned (issue verify network round host_key card sig m).0
  unfolding issue
  issue-AllSigned round host_key card sig m h =
      elim (Bool-cases (ltb max_card_bytes (length card))) [
        | inl e ↦ rw e h
        | inr e ↦ rw e (elim (Bool-cases (verify host_key card sig)) [
          | inr f ↦ rw f h
          | inl f ↦ rw f (issue_rounds-AllSigned 8 round host_key card sig m (f, ground arith) h)
        ])
      ]

  publish-AllSigned :
      (swept at : Time) (id : Text) (host_key card sig : List ℕ) (m : Rooms)
      → AllSigned m
      → AllSigned (publish verify network swept at id host_key card sig m).0
  unfolding publish
  publish-AllSigned swept at id host_key card sig m h =
      elim (Bool-cases (ltb max_card_bytes (length card))) [
        | inl e ↦ rw e h
        | inr e ↦ rw e (elim (Bool-cases (verify host_key card sig)) [
          | inr f ↦ rw f h
          | inl f ↦
              rw f (publish_locked-AllSigned swept at id host_key card sig m (f, ground arith) h)
        ])
      ]

  serve-AllSigned :
      (q : Request) (m : Rooms) → IsDated q → AllSigned m → AllSigned (serve verify network q m)
  unfolding serve sweep
  serve-AllSigned (issue_for round host_key card sig) m d h =
      issue-AllSigned round host_key card sig m h
  serve-AllSigned (publish_at swept at id host_key card sig) m d h =
      publish-AllSigned swept at id host_key card sig m h
  serve-AllSigned (retire_at swept at id host_key) m d h =
      retire-AllSigned swept at id host_key m d h
  serve-AllSigned (sweep_at now) m d h = AllValues-purge IsSigned (is_expired now) m h

  serve_all-AllSigned :
      (qs : List Request) (m : Rooms)
      → All IsDated qs
      → AllSigned m
      → AllSigned (serve_all verify network qs m)
  unfolding serve_all
  serve_all-AllSigned [] m d h = h
  serve_all-AllSigned (q ∷ qs) m (d, ds) h =
      serve_all-AllSigned qs (serve verify network q m) ds (serve-AllSigned q m d h)

  -- After any requests to an empty store, of which no withdrawal reads the clock at the zero instant,
  -- what a lookup shows is a card of at most 512 bytes that is signed by the key that the room is
  -- pinned to.
  pub look_up-IsSigned :
      (qs : List Request) (id : Text) (r : Room)
      → All IsDated qs
      → look_up id (serve_all verify network qs []) ≡ ok r
      → (verify r.host_key r.card r.sig ≡ true) × (length r.card ≤ max_card_bytes)
  unfolding look_up
  look_up-IsSigned qs id r d h = elim (Option-cases (lookup id (serve_all verify network qs []))) [
    | inl f ↦ ground (arith, f)
    | inr (r', f) ↦
        let s = AllValues-lookup IsSigned id r' _ (serve_all-AllSigned qs [] d tt) f in
        let e : r' ≡ r = ground (arith, f) in
        let z : r'.closed_at ≡ 0 = ground (arith, f) in
        subst (λ x. (verify x.host_key x.card x.sig ≡ true) × (length x.card ≤ max_card_bytes)) e
          (s.signed z, s.small)
  ]

module _ (verify : List ℕ → List ℕ → List ℕ → Bool) (network : Text → Text) where
  -- A publication by a key that owns the reservation, of a small signed card, succeeds while the
  -- pin lasts, also after a withdrawal, and a lookup shows that card, under the same key and name.
  pub look_up-publish :
      (swept at : Time) (id : Text) (host_key card sig : List ℕ) (m : Rooms) (r : Room)
      → IsMap m
      → lookup id m ≡ some r
      → r.host_key ≡ host_key
      → swept ≤ r.pin_until
      → length card ≤ max_card_bytes
      → verify host_key card sig ≡ true
      → let (m', answer) = publish verify network swept at id host_key card sig m in
        (answer ≡ ok tt)
        × (look_up id m'
            ≡ ok (record r { card = card; sig = sig; pin_until = at + room_ttl; closed_at = 0 }))
  unfolding publish publish_locked look_up
  look_up-publish swept at id host_key card sig m r im f k p l v =
      let q = eq_refl host_key in
      let g = lookup-purge (is_expired swept) id m im in
      (
        ground (arith, f, k, p, l, v, g, q),
        ground (
          arith,
          f,
          k,
          p,
          l,
          v,
          g,
          q,
          eq_refl id,
          lookup-store id id
              (record r { card = card; sig = sig; pin_until = at + room_ttl; closed_at = 0 })
              (purge (is_expired swept) m),
        ),
      )

-- A withdrawal by the key that owns the reservation hides the room from every lookup and keeps
-- the reservation itself, its key and its pin.
pub look_up-retire :
    (swept at : Time) (id : Text) (host_key : List ℕ) (m : Rooms) (r : Room)
    → IsMap m
    → lookup id m ≡ some r
    → r.host_key ≡ host_key
    → swept ≤ r.pin_until
    → at ≢ 0
    → let (m', answer) = retire swept at id host_key m in
      (answer ≡ ok tt)
      × (look_up id m' ≡ err not_found)
      × (lookup id m' ≡ some (record r { card = []; sig = []; closed_at = at }))
unfolding retire look_up
look_up-retire swept at id host_key m r im f k p d =
    let q = eq_refl host_key in
    let g = lookup-purge (is_expired swept) id m im in
    let s =
      lookup-store id id (record r { card = []; sig = []; closed_at = at })
        (purge (is_expired swept) m) in
    (
      ground (arith, f, k, p, g, q),
      ground (arith, f, k, p, g, q, d, eq_refl id, s),
      ground (arith, f, k, p, g, q, d, eq_refl id, s),
    )
