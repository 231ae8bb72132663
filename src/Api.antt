-- ===== src/Api.antt =====
-- The HTTP door of the registry (registry/http.go): the routes, the limits and the token in front
-- of them, and what each handler does to the store. A request carries what `encoding/json` makes of
-- its body, `none` where it refuses it, and what the handler meets: the address, the readings of
-- the clock, the random bytes, whether the client hangs up. base64url, the ciphers and the counter
-- of members are parameters. The page, `/healthz` and the headers are left out.
pub mod Routes
pub mod Steps
pub mod Doors
use kanpachi.Base.{
  ℕ, zero, suc, ◌+◌, Bool, true, false, not, ◌&&◌, ◌||◌, List, [], ◌∷◌, Option, none, some, ltb,
  nat_beq, if◌then◌else◌, Result, ok, err, Text, codes, length, size, drop, is_empty,
}
use kanpachi.Net.{Time}
use kanpachi.InviteId.{InviteError, parse_invite_id}
use kanpachi.RoomCode.{has_scheme}
use kanpachi.RoomClose.{stamp_at, clock_at, passes_close_time, room_close_message}
use kanpachi.Limits.{Limiter, permits, throttle_wait, failed, succeeded}
use kanpachi.SeedAuth.{Auth, AuthError, Tokens, allows, refresh_access, login, is_closed, open_seed}
use kanpachi.Registry.{
  Room, Rooms, StoreError, not_found, pinned, bad_sig, exhausted, card_too_big, no_id, cancelled,
  Round, issue, publish, retire, look_up,
}

-- The wire codes, `CodeBadRequest` and those after it, and the sub-codes.
pub data Code : Type 0 where
  is_bad_request is_not_found is_pinned is_bad_sig is_card_too_big is_exhausted : Code
  is_rate_limited is_unauthorized is_unavailable is_seed_open : Code

pub data Sub : Type 0 where
  no_sub reauth password : Sub

-- `vista`
pub record View : Type 0 where
  pub card : Text
  pub host_key : Text
  pub sig : Option Text
  pub members : Option ℕ

pub data Body : Type 0 where
  issued : Text → Body
  shown : View → Body
  minted : Tokens → Body
  renewed : Text → Body

-- An answer with a body, one without, a refusal, and none at all.
pub data Reply : Type 0 where
  answers : ℕ → Body → Reply
  empties : ℕ → Reply
  refuses : ℕ → Code → Sub → Reply
  silent : Reply

-- The state that the handlers share: that of `Store`, the two limiters, `Auth` and `throttle`.
pub record Server : Type 0 where
  pub rooms : Rooms
  pub limiter : Limiter
  pub auth_limiter : Limiter
  pub auth : Auth
  pub failures : ℕ

-- `cuerpoPublicar` and `cuerpoCerrar`; `ts` is the 64 bits of the number.
pub record PublishBody : Type 0 where
  pub host_key : Text
  pub card : Text
  pub sig : Text

pub record CloseBody : Type 0 where
  pub host_key : Text
  pub sig : Text
  pub ts : ℕ

-- `traducir`
unfoldable pub translate : StoreError → Reply
translate not_found = refuses 404 is_not_found no_sub
translate pinned = refuses 403 is_pinned no_sub
translate bad_sig = refuses 403 is_bad_sig no_sub
translate card_too_big = refuses 413 is_card_too_big no_sub
translate exhausted = refuses 503 is_exhausted no_sub
translate cancelled = empties 499
translate no_id = refuses 503 is_unavailable no_sub

abbrev pub bad_request : Reply
bad_request = refuses 400 is_bad_request no_sub

-- `bearer`, on the header; a prefix that folds to `Bearer ` is seven bytes of ASCII.
unfoldable pub bearer : Text → Text
bearer header = if has_scheme (codes "bearer ") header then drop 7 header else []

-- The three parts of a published card.
pub record Parts : Type 0 where
  pub key : List ℕ
  pub card : List ℕ
  pub signature : List ℕ

-- The ed25519 sizes of a key and of a signature.
abbrev pub sized : ℕ → Option (List ℕ) → Option (List ℕ)
sized n none = none
sized n (some bytes) = if nat_beq (length bytes) n then some bytes else none

unfoldable pub parts_of : Option (List ℕ) → Option (List ℕ) → Option (List ℕ) → Option Parts
parts_of none card sig = none
parts_of (some k) none sig = none
parts_of (some k) (some c) none = none
parts_of (some k) (some c) (some s) = some (record { key = k; card = c; signature = s })

-- An answer of the store, with what the handler makes of its value.
unfoldable pub reply_with : {A : Type 0} → (A → Reply) → Result StoreError A → Reply
reply_with f (ok a) = f a
reply_with f (err e) = translate e

-- `limitado` and `authLimited` on one of the limiters.
unfoldable pub limited_by :
    Limiter × Bool
    → (Limiter → Server → Server)
    → (Server → Server × Reply)
    → Server
    → Server × Reply
limited_by (l, b) put handler s =
    if b then handler (put l s) else (put l s, refuses 429 is_rate_limited no_sub)

unfoldable pub limited : Text → Time → (Server → Server × Reply) → Server → Server × Reply
limited ip now handler s =
    limited_by (permits ip now s.limiter) (λ l s'. record s' { limiter = l }) handler s

unfoldable pub auth_limited : Text → Time → (Server → Server × Reply) → Server → Server × Reply
auth_limited ip now handler s =
    limited_by (permits ip now s.auth_limiter) (λ l s'. record s' { auth_limiter = l }) handler s

-- The store after one of its operations.
unfoldable pub with_rooms :
    {A : Type 0} → (A → Reply) → Server → Rooms × Result StoreError A → Server × Reply
with_rooms f s (m, r) = (record s { rooms = m }, reply_with f r)

-- What the code outside the repository gives: base64url, ed25519, HMAC, Argon2id, the rendezvous
-- name of an invite ID, and the count of the members of a room.
pub record Crypto : Type 0 where
  pub encode : List ℕ → Text
  pub decode : Text → Option (List ℕ)
  pub verify : List ℕ → List ℕ → List ℕ → Bool
  pub hmac : List ℕ → List ℕ → List ℕ
  pub argon : Text → List ℕ → ℕ → ℕ → ℕ → List ℕ
  pub network : Text → Text
  pub members : Text → Option ℕ

module _ (x : Crypto) where
  -- `decodificar`
  unfoldable pub decoded : PublishBody → Option Parts
  decoded c =
      parts_of (sized 32 (x.decode c.host_key)) (x.decode c.card) (sized 64 (x.decode c.sig))

  -- `guarded`
  unfoldable pub guarded : Text → Time → (Server → Server × Reply) → Server → Server × Reply
  guarded header now handler s =
      if not (allows x.hmac x.encode x.decode s.auth (bearer header) now)
      then (s, refuses 401 is_unauthorized reauth)
      else handler s

  unfoldable pub issue_parts : (ℕ → Round) → Option Parts → Server → Server × Reply
  issue_parts round none s = (s, bad_request)
  issue_parts round (some p) s =
      with_rooms (λ id. answers 201 (issued id)) s
        (issue x.verify x.network round p.key p.card p.signature s.rooms)

  -- `emitir`
  unfoldable pub handle_issue : (ℕ → Round) → Option PublishBody → Server → Server × Reply
  handle_issue round none s = (s, bad_request)
  handle_issue round (some c) s = issue_parts round (decoded c) s

  unfoldable pub publish_parts : Time → Time → Text → Option Parts → Server → Server × Reply
  publish_parts swept at id none s = (s, bad_request)
  publish_parts swept at id (some p) s =
      with_rooms (λ _. empties 204) s
        (publish x.verify x.network swept at id p.key p.card p.signature s.rooms)

  unfoldable pub publish_under :
      Time → Time → Result InviteError Text → Option PublishBody → Server → Server × Reply
  publish_under swept at (err e) body s = (s, bad_request)
  publish_under swept at (ok id) none s = (s, bad_request)
  publish_under swept at (ok id) (some c) s = publish_parts swept at id (decoded c) s

  -- `publicar`
  unfoldable pub handle_publish : Time → Time → Text → Option PublishBody → Server → Server × Reply
  handle_publish swept at path body s = publish_under swept at (parse_invite_id path) body s

  unfoldable pub close_signed :
      Time → Time → Time → Text → ℕ → Option (List ℕ) → Option (List ℕ) → Server → Server × Reply
  close_signed now swept at id ts none sig s = (s, bad_request)
  close_signed now swept at id ts (some key) none s = (s, bad_request)
  close_signed now swept at id ts (some key) (some sig) s =
      if not (passes_close_time (stamp_at ts) (clock_at now))
      then (s, bad_request)
      else if not (x.verify key (room_close_message id ts) sig)
      then (s, refuses 403 is_bad_sig no_sub)
      else with_rooms (λ _. empties 204) s (retire swept at id key s.rooms)

  unfoldable pub close_under :
      Time → Time → Time → Result InviteError Text → Option CloseBody → Server → Server × Reply
  close_under now swept at (err e) body s = (s, bad_request)
  close_under now swept at (ok id) none s = (s, bad_request)
  close_under now swept at (ok id) (some c) s =
      close_signed now swept at id c.ts (sized 32 (x.decode c.host_key)) (sized 64 (x.decode c.sig))
        s

  -- `cerrar`
  unfoldable pub handle_close :
      Time → Time → Time → Text → Option CloseBody → Server → Server × Reply
  handle_close now swept at path body s = close_under now swept at (parse_invite_id path) body s

  -- `vista`
  unfoldable pub view_of : Room → View
  view_of r = record {
    card = x.encode r.card;
    host_key = x.encode r.host_key;
    sig = if is_empty r.sig then none else some (x.encode r.sig);
    members = x.members r.rendezvous_name;
  }

  unfoldable pub show_under : Result InviteError Text → Server → Server × Reply
  show_under (err e) s = (s, bad_request)
  show_under (ok id) s = (s, reply_with (λ r. answers 200 (shown (view_of r))) (look_up id s.rooms))

  -- `resolver`
  unfoldable pub handle_show : Text → Server → Server × Reply
  handle_show path s = show_under (parse_invite_id path) s
