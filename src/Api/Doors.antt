-- ===== src/Api/Doors.antt =====
-- What the token and the signature of a request open (registry/http.go).
use kanpachi.Base.{
  ℕ, true, false, ◌≡◌, ◌≢◌, refl, List, [], Option, none, some, arith, Result, ok, err, Text,
  Bool-cases, Option-cases, Result-cases, inl, inr, ◌⊎◌, ◌==◌, text_eq, purge, lookup,
  lookup-store_same,
}
use kanpachi.Net.{Time}
use kanpachi.InviteId.{parse_invite_id}
use kanpachi.Limits.{permits}
use kanpachi.SeedAuth.{allows}
use kanpachi.RoomClose.{stamp_at, clock_at, passes_close_time, room_close_message}
use kanpachi.Registry.{
  Rooms, StoreError, retire, look_up, is_expired, not_found, pinned, bad_sig, exhausted,
  card_too_big, no_id, cancelled,
}
use kanpachi.Api.{
  Server, Crypto, Reply, empties, refuses, is_rate_limited, is_unauthorized, no_sub, reauth,
  CloseBody, sized, bearer, limited_by, limited, guarded, with_rooms, reply_with, translate,
  close_signed, close_under, handle_close,
}
use kanpachi.Api.Routes.{
  Request, post_room, put_room, delete_room, get_room, post_token, post_refresh, other_route,
  handle,
}

-- The header of a request that mutates, and the reading of the clock that checks its token.
abbrev pub token_of : Request → Option (Text × Time)
token_of (post_room header now round body) = some (header, now)
token_of (put_room header now swept at path body) = some (header, now)
token_of (delete_room header now checked swept at path body) = some (header, now)
token_of _ = none

module _ (x : Crypto) where
  Refused : Server × Reply → Rooms → Type 0
  Refused (s', reply) rooms =
      (s'.rooms ≡ rooms)
      × ((reply ≡ refuses 401 is_unauthorized reauth)
          ⊎ (reply ≡ refuses 429 is_rate_limited no_sub))

  same_token :
      (s : Server) (header header' : Text) (now now' : Time)
      → ◌≡◌ {A = Option (Text × Time)} (some (header', now')) (some (header, now))
      → allows x.hmac x.encode x.decode s.auth (bearer header) now ≡ false
      → allows x.hmac x.encode x.decode s.auth (bearer header') now' ≡ false
  same_token s header header' now now' e h = cc

  limited-Refused :
      (ip header : Text) (seen now : Time) (handler : Server → Server × Reply) (s : Server)
      → allows x.hmac x.encode x.decode s.auth (bearer header) now ≡ false
      → Refused (limited ip seen (guarded x header now handler) s) s.rooms
  unfolding limited limited_by guarded Refused
  limited-Refused ip header seen now handler s h = elim (Bool-cases (permits ip seen s.limiter).1) [
    | inl e ↦ (ground (arith, e, h), inl (ground (arith, e, h)))
    | inr e ↦ (ground (arith, e), inr (ground (arith, e)))
  ]

  -- A request to open, publish or close a room whose token the credential does not allow leaves the
  -- rooms as they were, and is told to authenticate or that it came too often.
  pub handle-token_of :
      (ip header : Text) (seen now : Time) (r : Request) (s : Server)
      → token_of r ≡ some (header, now)
      → allows x.hmac x.encode x.decode s.auth (bearer header) now ≡ false
      → ((handle x ip seen r s).0.rooms ≡ s.rooms)
        × (((handle x ip seen r s).1 ≡ refuses 401 is_unauthorized reauth)
            ⊎ ((handle x ip seen r s).1 ≡ refuses 429 is_rate_limited no_sub))
  unfolding handle Refused
  handle-token_of ip header seen now (post_room header' now' round body) s e h =
      limited-Refused ip header' seen now' _ s (same_token s header header' now now' e h)
  handle-token_of ip header seen now (put_room header' now' swept at path body) s e h =
      limited-Refused ip header' seen now' _ s (same_token s header header' now now' e h)
  handle-token_of ip header seen now (delete_room header' now' checked swept at path body) s e h =
      limited-Refused ip header' seen now' _ s (same_token s header header' now now' e h)
  handle-token_of ip header seen now (get_room path) s e h = cc
  handle-token_of ip header seen now (post_token c body) s e h = cc
  handle-token_of ip header seen now (post_refresh c body) s e h = cc
  handle-token_of ip header seen now other_route s e h = cc

-- A withdrawal that succeeds hides the room.
look_up-retire_ok :
    (swept at : Time) (id : Text) (host_key : List ℕ) (m : Rooms)
    → at ≢ 0
    → (retire swept at id host_key m).1 ≡ ok tt
    → look_up id (retire swept at id host_key m).0 ≡ err not_found
unfolding retire look_up
look_up-retire_ok swept at id host_key m d h =
    elim (Option-cases (lookup id (purge (is_expired swept) m))) [
      | inl f ↦ absurd (ground (arith, f, h))
      | inr (r, f) ↦ elim (Bool-cases (r.host_key == host_key)) [
        | inr g ↦ absurd (ground (arith, f, g, h))
        | inl g ↦
            let kept = purge (is_expired swept) m in
            let l = lookup-store_same id (record r { card = []; sig = []; closed_at = at }) kept in
            ground (arith, f, g, d, l)
      ]
    ]

module _ (x : Crypto) where
  -- What a request to close that gets its 204 shows: a stamp that passes, and a signature over it and
  -- over the room of the path by the key of the body.
  abbrev pub IsSignedClose : Time → Text → List ℕ → CloseBody → Type 0
  IsSignedClose now id key c =
      (sig : List ℕ) × (x.decode c.host_key ≡ some key)
      × (x.decode c.sig ≡ some sig)
      × (passes_close_time (stamp_at c.ts) (clock_at now) ≡ true)
      × (x.verify key (room_close_message id c.ts) sig ≡ true)

  sized-some :
      (n : ℕ) (o : Option (List ℕ)) (bytes : List ℕ) → sized n o ≡ some bytes → o ≡ some bytes
  sized-some n none bytes h = h
  sized-some n (some b) bytes h = ground (arith, h)

  replied : (r : Result StoreError Unit) → reply_with (λ _. empties 204) r ≡ empties 204 → r ≡ ok tt
  unfolding reply_with translate
  replied (ok t) h = refl
  replied (err not_found) h = cc
  replied (err pinned) h = cc
  replied (err bad_sig) h = cc
  replied (err exhausted) h = cc
  replied (err card_too_big) h = cc
  replied (err no_id) h = cc
  replied (err cancelled) h = absurd (ground (arith, h))

  close_signed_lem :
      (now swept at : Time) (id : Text) (ts : ℕ) (k g : Option (List ℕ)) (s : Server)
      → at ≢ 0
      → (close_signed x now swept at id ts k g s).1 ≡ empties 204
      → (key : List ℕ) × (sig : List ℕ) × (k ≡ some key)
        × (g ≡ some sig)
        × (passes_close_time (stamp_at ts) (clock_at now) ≡ true)
        × (x.verify key (room_close_message id ts) sig ≡ true)
        × (look_up id (close_signed x now swept at id ts k g s).0.rooms ≡ err not_found)
  unfolding close_signed with_rooms
  close_signed_lem now swept at id ts none g s d h = cc
  close_signed_lem now swept at id ts (some key) none s d h = cc
  close_signed_lem now swept at id ts (some key) (some sig) s d h =
      elim (Bool-cases (passes_close_time (stamp_at ts) (clock_at now))) [
        | inr j ↦ absurd (ground (arith, j, h))
        | inl j ↦ elim (Bool-cases (x.verify key (room_close_message id ts) sig)) [
          | inr k ↦ absurd (ground (arith, j, k, h))
          | inl k ↦ (
            key,
            sig,
            refl,
            refl,
            j,
            k,
            rw (j, close_signed)
                (rw k (
                  look_up-retire_ok swept at id key s.rooms d
                    (replied (retire swept at id key s.rooms).1 (ground (arith, j, k, h))))),
          )
        ]
      ]

  -- A request to close a room gets its 204 only with a stamp that passes and a signature over it and
  -- over that room by the key of the body, and then no lookup shows the room; the clock is not at
  -- the zero instant.
  pub handle_close_lem :
      (now swept at : Time) (path : Text) (c : CloseBody) (s : Server)
      → at ≢ 0
      → (handle_close x now swept at path (some c) s).1 ≡ empties 204
      → (id : Text) × (parse_invite_id path ≡ ok id)
        × ((key : List ℕ) × IsSignedClose now id key c)
        × (look_up id (handle_close x now swept at path (some c) s).0.rooms ≡ err not_found)
  unfolding handle_close close_under
  handle_close_lem now swept at path c s d h = elim (Result-cases (parse_invite_id path)) [
    | inr (e, f) ↦ absurd (ground (arith, f, h))
    | inl (id, f) ↦
        let (key, sig, k, g, j, v, gone) =
          close_signed_lem now swept at id c.ts (sized 32 (x.decode c.host_key))
            (sized 64 (x.decode c.sig)) s d (ground (arith, f, h)) in
        (
          id,
          f,
          (
            key,
            (
              sig,
              sized-some 32 (x.decode c.host_key) key k,
              sized-some 64 (x.decode c.sig) sig g,
              j,
              v,
            ),
          ),
          rw (f, handle_close) gone,
        )
  ]
