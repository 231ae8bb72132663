-- ===== src/Api/Routes.antt =====
-- The handlers of the credential, and the routes with what stands before each of them
-- (registry/http.go).
use kanpachi.Base.{
  ℕ, Bool, not, ◌&&◌, List, Option, none, some, nat_beq, if◌then◌else◌, Result, ok, err, Text,
}
use kanpachi.Net.{Time}
use kanpachi.Limits.{throttle_wait, failed, succeeded}
use kanpachi.SeedAuth.{Auth, AuthError, Tokens, refresh_access, login, is_closed, open_seed}
use kanpachi.Registry.{Round}
use kanpachi.Api.{
  Server, Crypto, Reply, answers, refuses, silent, is_not_found, is_seed_open, is_unauthorized,
  no_sub, password, minted, renewed, bad_request, PublishBody, CloseBody, limited, auth_limited,
  guarded, handle_issue, handle_publish, handle_close, handle_show,
}

-- What a login meets: whether the client hangs up in the delay or in the queue to derive, the
-- credential when the derivation runs, the readings of the clock and the random bytes of `mint`.
pub record Login : Type 0 where
  pub hangs_up_waiting : Bool
  pub hangs_up_queued : Bool
  pub auth_then : Auth
  pub at1 : Time
  pub random1 : Option (List ℕ)
  pub at2 : Time
  pub random2 : Option (List ℕ)

-- What a refresh meets.
pub record Refresh : Type 0 where
  pub auth_then : Auth
  pub now : Time
  pub at : Time
  pub random : Option (List ℕ)

abbrev pub seed_is_open : Reply
seed_is_open = refuses 409 is_seed_open no_sub

abbrev pub needs_password : Reply
needs_password = refuses 401 is_unauthorized password

-- The end of `login`.
unfoldable pub logged_in : Result AuthError Tokens → Server → Server × Reply
logged_in (ok t) s = (record s { failures = succeeded s.failures }, answers 200 (minted t))
logged_in (err open_seed) s = (s, seed_is_open)
logged_in (err e) s = (record s { failures = failed s.failures }, needs_password)

unfoldable pub refreshed : Result AuthError Text → Reply
refreshed (ok token) = answers 200 (renewed token)
refreshed (err e) = needs_password

-- A request: its address, the reading of the clock for the limit, and what its handler meets. The
-- header is that of `Authorization`, with the reading of the clock that checks its token.
pub data Request : Type 0 where
  post_room : Text → Time → (ℕ → Round) → Option PublishBody → Request
  put_room : Text → Time → Time → Time → Text → Option PublishBody → Request
  delete_room : Text → Time → Time → Time → Time → Text → Option CloseBody → Request
  get_room : Text → Request
  post_token : Login → Option Text → Request
  post_refresh : Refresh → Option Text → Request
  other_route : Request

module _ (x : Crypto) where
  unfoldable pub login_body : Login → Option Text → Server → Server × Reply
  login_body c none s = (s, bad_request)
  login_body c (some proof) s =
      if not (nat_beq (throttle_wait s.failures) 0) && c.hangs_up_waiting
      then (s, silent)
      else if c.hangs_up_queued
      then (s, silent)
      else logged_in
          (login x.hmac x.encode x.decode x.argon c.auth_then proof c.at1 c.random1 c.at2 c.random2)
          s

  -- `login`
  unfoldable pub handle_login : Login → Option Text → Server → Server × Reply
  handle_login c body s = if not (is_closed s.auth) then (s, seed_is_open) else login_body c body s

  unfoldable pub refresh_body : Refresh → Option Text → Server → Server × Reply
  refresh_body c none s = (s, bad_request)
  refresh_body c (some token) s =
      (s, refreshed (refresh_access x.hmac x.encode x.decode c.auth_then token c.now c.at c.random))

  -- `refresh`
  unfoldable pub handle_refresh : Refresh → Option Text → Server → Server × Reply
  handle_refresh c body s =
      if not (is_closed s.auth) then (s, seed_is_open) else refresh_body c body s

  -- `Handler`, with `apiNoExiste` for the rest of the API.
  unfoldable pub handle : Text → Time → Request → Server → Server × Reply
  handle ip seen (post_room header now round body) s =
      limited ip seen (guarded x header now (handle_issue x round body)) s
  handle ip seen (put_room header now swept at path body) s =
      limited ip seen (guarded x header now (handle_publish x swept at path body)) s
  handle ip seen (delete_room header now checked swept at path body) s =
      limited ip seen (guarded x header now (handle_close x checked swept at path body)) s
  handle ip seen (get_room path) s = limited ip seen (handle_show x path) s
  handle ip seen (post_token c body) s = auth_limited ip seen (handle_login c body) s
  handle ip seen (post_refresh c body) s = auth_limited ip seen (handle_refresh c body) s
  handle ip seen other_route s = (s, refuses 404 is_not_found no_sub)
