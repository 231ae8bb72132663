-- ===== src/Api/Steps.antt =====
-- What a request to the API does to the store (registry/http.go): nothing, or the one operation
-- that it asks for, with a token where the seed is closed.
use kanpachi.Base.{
  ℕ, ◌≡◌, refl, List, [], ◌∷◌, Option, none, some, arith, Result, ok, err, Text, Bool-cases,
  Option-cases, inl, inr, ◌⊎◌, All,
}
use kanpachi.Net.{Time}
use kanpachi.InviteId.{InviteError, parse_invite_id}
use kanpachi.Limits.{Limiter, permits}
use kanpachi.SeedAuth.{
  allows, login, Tokens, AuthError, no_state_dir, open_seed, bad_credential, no_random,
  unreadable_file, unparsed_file, not_saved, not_removed, bad_file, bad_host, short_password,
  long_password,
}
use kanpachi.RoomClose.{stamp_at, clock_at, passes_close_time, room_close_message}
use kanpachi.Registry.{
  Rooms, StoreError, Round, issue, publish, retire, issue_for, publish_at, retire_at, serve,
}
use kanpachi.Registry.Ownership.{IsOwned, InTime, serve-IsOwned}
use kanpachi.Api.{
  Server, Crypto, Reply, PublishBody, CloseBody, Parts, decoded, sized, bearer, limited_by, limited,
  auth_limited, guarded, with_rooms, issue_parts, handle_issue, publish_parts, publish_under,
  handle_publish, close_signed, close_under, handle_close, show_under, handle_show,
}
use kanpachi.Api.Routes.{
  Request, post_room, put_room, delete_room, get_room, post_token, post_refresh, other_route, Login,
  Refresh, login_body, logged_in, handle_login, refresh_body, handle_refresh, handle,
}

module _ (x : Crypto) where
  -- The operation of the store that a request asks for, if its path and body are well formed.
  abbrev asked_issue : (ℕ → Round) → Option Parts → Option kanpachi.Registry.Request
  asked_issue round none = none
  asked_issue round (some p) = some (issue_for round p.key p.card p.signature)

  abbrev asked_publish :
      Time → Time → Result InviteError Text → Option Parts → Option kanpachi.Registry.Request
  asked_publish swept at (err e) p = none
  asked_publish swept at (ok id) none = none
  asked_publish swept at (ok id) (some p) = some (publish_at swept at id p.key p.card p.signature)

  abbrev asked_close :
      Time → Time → Result InviteError Text → Option (List ℕ) → Option kanpachi.Registry.Request
  asked_close swept at (err e) k = none
  asked_close swept at (ok id) none = none
  asked_close swept at (ok id) (some k) = some (retire_at swept at id k)

  abbrev pub asked : Request → Option kanpachi.Registry.Request
  asked (post_room header now round (some c)) = asked_issue round (decoded x c)
  asked (put_room header now swept at path (some c)) =
      asked_publish swept at (parse_invite_id path) (decoded x c)
  asked (delete_room header now checked swept at path (some c)) =
      asked_close swept at (parse_invite_id path) (sized 32 (x.decode c.host_key))
  asked _ = none

  -- The store is as before, or after the operation that was asked for.
  abbrev pub Effect : Option kanpachi.Registry.Request → Rooms → Rooms → Type 0
  Effect o m m' =
      (m' ≡ m)
      ⊎ ((q : kanpachi.Registry.Request) × (o ≡ some q) × (m' ≡ serve x.verify x.network q m))

  issue-Effect :
      (round : ℕ → Round) (p : Option Parts) (s : Server)
      → Effect (asked_issue round p) s.rooms (issue_parts x round p s).0.rooms
  unfolding issue_parts with_rooms serve
  issue-Effect round none s = inl refl
  issue-Effect round (some p) s = inr (_, refl, refl)

  publish-Effect :
      (swept at : Time) (r : Result InviteError Text) (c : PublishBody) (s : Server)
      → Effect
          (asked_publish swept at r (decoded x c))
          s.rooms
          (publish_under x swept at r (some c) s).0.rooms
  unfolding publish_under publish_parts with_rooms serve
  publish-Effect swept at (err e) c s = inl refl
  publish-Effect swept at (ok id) c s = elim (Option-cases (decoded x c)) [
    | inl e ↦ rw e (inl refl)
    | inr (p, e) ↦ rw e (inr (_, refl, refl))
  ]

  publish-none :
      (swept at : Time) (r : Result InviteError Text) (s : Server)
      → (publish_under x swept at r none s).0.rooms ≡ s.rooms
  unfolding publish_under
  publish-none swept at (ok id) s = refl
  publish-none swept at (err e) s = refl

  signed-Effect :
      (now swept at : Time) (id : Text) (ts : ℕ) (k g : Option (List ℕ)) (s : Server)
      → Effect
          (asked_close swept at (ok id) k)
          s.rooms
          (close_signed x now swept at id ts k g s).0.rooms
  unfolding close_signed with_rooms serve
  signed-Effect now swept at id ts none g s = inl refl
  signed-Effect now swept at id ts (some k) none s = inl refl
  signed-Effect now swept at id ts (some k) (some g) s =
      elim (Bool-cases (passes_close_time (stamp_at ts) (clock_at now))) [
        | inr e ↦ rw e (inl refl)
        | inl e ↦ rw e (elim (Bool-cases (x.verify k (room_close_message id ts) g)) [
          | inr f ↦ rw f (inl refl)
          | inl f ↦ rw f (inr (_, refl, refl))
        ])
      ]

  close-Effect :
      (now swept at : Time) (r : Result InviteError Text) (c : CloseBody) (s : Server)
      → Effect
          (asked_close swept at r (sized 32 (x.decode c.host_key)))
          s.rooms
          (close_under x now swept at r (some c) s).0.rooms
  unfolding close_under
  close-Effect now swept at (err e) c s = inl refl
  close-Effect now swept at (ok id) c s =
      signed-Effect now swept at id c.ts (sized 32 (x.decode c.host_key))
        (sized 64 (x.decode c.sig)) s

  close-none :
      (now swept at : Time) (r : Result InviteError Text) (s : Server)
      → (close_under x now swept at r none s).0.rooms ≡ s.rooms
  unfolding close_under
  close-none now swept at (ok id) s = refl
  close-none now swept at (err e) s = refl

  show-rooms : (r : Result InviteError Text) (s : Server) → (show_under x r s).0.rooms ≡ s.rooms
  unfolding show_under
  show-rooms (ok id) s = refl
  show-rooms (err e) s = refl

  -- What stands before a handler changes neither the rooms nor the credential.
  limited-Effect :
      (o : Option kanpachi.Registry.Request) (ip : Text) (now : Time)
      (handler : Server → Server × Reply) (s : Server)
      → ((l : Limiter) → Effect o s.rooms (handler (record s { limiter = l })).0.rooms)
      → Effect o s.rooms (limited ip now handler s).0.rooms
  unfolding limited limited_by
  limited-Effect o ip now handler s h = elim (Bool-cases (permits ip now s.limiter).1) [
    | inl e ↦ rw e (h (permits ip now s.limiter).0)
    | inr e ↦ rw e (inl refl)
  ]

  guarded-Effect :
      (o : Option kanpachi.Registry.Request) (header : Text) (now : Time)
      (handler : Server → Server × Reply) (s : Server)
      → Effect o s.rooms (handler s).0.rooms
      → Effect o s.rooms (guarded x header now handler s).0.rooms
  unfolding guarded
  guarded-Effect o header now handler s h =
      elim (Bool-cases (allows x.hmac x.encode x.decode s.auth (bearer header) now)) [
        | inl e ↦ rw e h
        | inr e ↦ rw e (inl refl)
      ]

  auth_limited-rooms :
      (ip : Text) (now : Time) (handler : Server → Server × Reply) (s : Server)
      → ((s' : Server) → (handler s').0.rooms ≡ s'.rooms)
      → (auth_limited ip now handler s).0.rooms ≡ s.rooms
  unfolding auth_limited limited_by
  auth_limited-rooms ip now handler s h = elim (Bool-cases (permits ip now s.auth_limiter).1) [
    | inl e ↦ rw e (h (record s { auth_limiter = (permits ip now s.auth_limiter).0 }))
    | inr e ↦ rw e refl
  ]

  logged_in-rooms : (r : Result AuthError Tokens) (s : Server) → (logged_in r s).0.rooms ≡ s.rooms
  unfolding logged_in
  logged_in-rooms (ok t) s = refl
  logged_in-rooms (err no_state_dir) s = refl
  logged_in-rooms (err open_seed) s = refl
  logged_in-rooms (err bad_credential) s = refl
  logged_in-rooms (err no_random) s = refl
  logged_in-rooms (err unreadable_file) s = refl
  logged_in-rooms (err unparsed_file) s = refl
  logged_in-rooms (err not_saved) s = refl
  logged_in-rooms (err not_removed) s = refl
  logged_in-rooms (err short_password) s = refl
  logged_in-rooms (err long_password) s = refl
  logged_in-rooms (err (bad_file f)) s = refl
  logged_in-rooms (err (bad_host f)) s = refl

  login-rooms :
      (c : Login) (body : Option Text) (s : Server) → (handle_login x c body s).0.rooms ≡ s.rooms
  unfolding handle_login login_body
  login-rooms c none s = ground arith
  login-rooms c (some proof) s = ground (
    arith,
    logged_in-rooms
        (login x.hmac x.encode x.decode x.argon c.auth_then proof c.at1 c.random1 c.at2 c.random2)
        s,
  )

  refresh-rooms :
      (c : Refresh) (body : Option Text) (s : Server)
      → (handle_refresh x c body s).0.rooms ≡ s.rooms
  unfolding handle_refresh refresh_body
  refresh-rooms c none s = ground arith
  refresh-rooms c (some token) s = ground arith

  -- Every request to the API leaves the store as it was, or does to it the one operation that its
  -- path and body ask for.
  pub handle-Effect :
      (ip : Text) (seen : Time) (r : Request) (s : Server)
      → Effect (asked r) s.rooms (handle x ip seen r s).0.rooms
  unfolding handle handle_issue handle_publish handle_close handle_show
  handle-Effect ip seen (post_room header now round none) s =
      limited-Effect none ip seen _ s (λ l. guarded-Effect none header now _ _ (inl refl))
  handle-Effect ip seen (post_room header now round (some c)) s =
      limited-Effect _ ip seen _ s
        (λ l. guarded-Effect _ header now _ _ (issue-Effect round (decoded x c) _))
  handle-Effect ip seen (put_room header now swept at path none) s =
      limited-Effect none ip seen _ s (λ l.
        guarded-Effect none header now _ _ (inl (publish-none swept at (parse_invite_id path) _)))
  handle-Effect ip seen (put_room header now swept at path (some c)) s =
      limited-Effect _ ip seen _ s
        (λ l. guarded-Effect _ header now _ _ (publish-Effect swept at (parse_invite_id path) c _))
  handle-Effect ip seen (delete_room header now checked swept at path none) s =
      limited-Effect none ip seen _ s (λ l.
        guarded-Effect none header now _ _
          (inl (close-none checked swept at (parse_invite_id path) _)))
  handle-Effect ip seen (delete_room header now checked swept at path (some c)) s =
      limited-Effect _ ip seen _ s (λ l.
        guarded-Effect _ header now _ _ (close-Effect checked swept at (parse_invite_id path) c _))
  handle-Effect ip seen (get_room path) s =
      limited-Effect none ip seen _ s (λ l. inl (show-rooms (parse_invite_id path) _))
  handle-Effect ip seen (post_token c body) s =
      inl (auth_limited-rooms ip seen (handle_login x c body) s (login-rooms c body))
  handle-Effect ip seen (post_refresh c body) s =
      inl (auth_limited-rooms ip seen (handle_refresh x c body) s (refresh-rooms c body))
  handle-Effect ip seen other_route s = inl refl

module _ (x : Crypto) where
  -- The state after requests from addresses, each with its reading of the clock for the limit.
  unfoldable pub handle_all : List (Text × Time × Request) → Server → Server
  handle_all [] s = s
  handle_all ((ip, seen, r) ∷ rs) s = handle_all rs (handle x ip seen r s).0

  -- What a request asks of the store is in time.
  abbrev pub AsksInTime : Time → Text × Time × Request → Type 0
  AsksInTime until (ip, seen, r) =
      (q : kanpachi.Registry.Request) → asked x r ≡ some q → InTime until q

  -- Until the pin of a room runs out, no sequence of requests to the API takes its invite ID from
  -- the key that holds it, or changes its rendezvous name, if what the requests ask of the store is
  -- in time.
  pub handle_all-IsOwned :
      (id : Text) (key : List ℕ) (name : Text) (until : Time) (rs : List (Text × Time × Request))
      (s : Server)
      → All (AsksInTime until) rs
      → IsOwned id key name until s.rooms
      → IsOwned id key name until (handle_all rs s).rooms
  unfolding handle_all
  handle_all-IsOwned id key name until [] s w o = o
  handle_all-IsOwned id key name until ((ip, seen, r) ∷ rs) s (w, ws) o =
      handle_all-IsOwned id key name until rs (handle x ip seen r s).0 ws
        (elim (handle-Effect x ip seen r s) [
          | inl e ↦ rw e o
          | inr (q, a, e) ↦
              rw e (serve-IsOwned x.verify x.network id key name until q s.rooms (w q a) o)
        ])
