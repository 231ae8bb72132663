-- ===== src/SeedAuth/Sessions.antt =====
-- The life of an operator's session and of the credential (registry/auth.go): what a login and a
-- refresh give, and what becomes of the credential when it is set and read again.
use kanpachi.Base.{
  ℕ, ◌+◌, ◌/◌, ◌^◌, ◌<◌, ◌≤◌, Bool, true, false, ◌&&◌, ◌≡◌, refl, is_ok, List, ◌++◌, Option, some,
  arith, ltb, nat_beq, ◌==◌, text_eq, ok, err, >>=-eq-ok, Text, length, size, Option-cases,
  Result-cases, inl, inr, ap, ◌∙◌,
}
use kanpachi.Net.{Time}
use kanpachi.SeedAuth.{
  Credential, AuthError, Auth, access, refresh, sign, verify, mint, allows, allows_by,
  refresh_access, refresh_by, login, login_by, derive, new_credential, set_credential, set_password,
  Tokens, token_body, mac, access_ttl, refresh_ttl, seed_auth_proof_len, reload, reload_from,
  reload_parsed, Stored, absent, unreadable, unparsed, parsed, open_auth, check_credential,
  is_closed, is_closed_by, bad_credential,
}
use kanpachi.SeedAuth.Verified.{in_range, verify-sign}

-- A file that cannot be read, parsed or used leaves the credential as it was, and a closed seed
-- opens on a reload only where the file is gone.
pub reload_lem :
    (file : Stored) (a : Auth)
    → ((e : AuthError) → (reload file a).1 ≡ err e → (reload file a).0 ≡ a)
      × (is_closed a ≡ true → is_closed (reload file a).0 ≡ false → file ≡ absent)
unfolding reload reload_from reload_parsed is_closed_by
reload_lem absent a = (λ e h. ground (arith, h), λ c o. refl)
reload_lem unreadable a = (λ e h. ground (arith, h), λ c o. absurd (ground (arith, c, o)))
reload_lem unparsed a = (λ e h. ground (arith, h), λ c o. absurd (ground (arith, c, o)))
reload_lem (parsed c) a = elim (Result-cases (check_credential c)) [
  | inl (t, q) ↦ (λ e h. absurd (ground (arith, q, h)), λ k o. absurd (ground (arith, q, k, o)))
  | inr (e', q) ↦ (λ e h. ground (arith, q, h), λ k o. absurd (ground (arith, q, k, o)))
]

module _ (hmac : List ℕ → List ℕ → List ℕ) (encode : List ℕ → Text)
    (decode : Text → Option (List ℕ)) where
  -- What a credential mints.
  mint-sign :
      (c : Credential) (at1 at2 : Time) (random1 random2 : Option (List ℕ)) (t : Tokens)
      → mint hmac encode decode c at1 random1 at2 random2 ≡ ok t
      → (sign hmac encode decode c access (at1 + access_ttl) random1 ≡ ok t.access_token)
        × (sign hmac encode decode c refresh (at2 + refresh_ttl) random2 ≡ ok t.refresh_token)
  unfolding mint
  mint-sign c at1 at2 random1 random2 t h =
      let (s, e, k) = >>=-eq-ok (sign hmac encode decode c access (at1 + access_ttl) random1) _ h in
      let (r, f, q) =
        >>=-eq-ok (sign hmac encode decode c refresh (at2 + refresh_ttl) random2) _ k in
      (ground (arith, e, q), ground (arith, f, q))

  refresh_by-verify :
      (c : Credential) (token : Text) (now at : Time) (random : List ℕ)
      → verify hmac encode decode c token refresh now ≡ true
      → (fresh : Text) × (refresh_by hmac encode decode (some c) token now at (some random)
          ≡ ok fresh)
        × (sign hmac encode decode c access (at + access_ttl) (some random) ≡ ok fresh)
  unfolding refresh_by sign
  refresh_by-verify c token now at random h =
      let body = token_body access (at + access_ttl) random in
      (encode (body ++ mac hmac encode decode c body), ground (arith, h), refl)

  module _ (argon : Text → List ℕ → ℕ → ℕ → ℕ → List ℕ) where
    -- A login succeeds with a proof of the right length and hash alone, and then mints.
    login-eq-ok :
        (a : Auth) (proof : Text) (at1 at2 : Time) (random1 random2 : Option (List ℕ)) (t : Tokens)
        → login hmac encode decode argon a proof at1 random1 at2 random2 ≡ ok t
        → (c : Credential) × (a.cred ≡ some c)
          × (size proof ≡ seed_auth_proof_len)
          × (derive hmac encode decode argon c proof ≡ c.hash)
          × (mint hmac encode decode c at1 random1 at2 random2 ≡ ok t)
    unfolding login_by
    login-eq-ok a proof at1 at2 random1 random2 t h = elim (Option-cases a.cred) [
      | inl e ↦ absurd (ground (arith, e, h))
      | inr (c, e) ↦ (
        c,
        e,
        ground (arith, e, h),
        (text_eq.equal_iff (derive hmac encode decode argon c proof) c.hash).0
            (ground (arith, e, h)),
        ground (arith, e, h),
      )
    ]

    module _ (decode-encode : (bytes : List ℕ) → decode (encode bytes) ≡ some bytes)
        (length-hmac : (key message : List ℕ) → length (hmac key message) ≡ 32) where
      -- The access token of a login lets its bearer mutate for the 15 minutes of `AccessTTL`, by
      -- the seconds of the clock, and its refresh token never does; for nonces of 16 bytes and
      -- instants in range, where base64url decodes what it encodes and a MAC has 32 bytes.
      pub allows-login :
          (a : Auth) (proof : Text) (at1 at2 now : Time) (nonce1 nonce2 : List ℕ) (t : Tokens)
          → length nonce1 ≡ 16
          → length nonce2 ≡ 16
          → now < in_range
          → at1 + access_ttl < in_range
          → at2 + refresh_ttl < in_range
          → login hmac encode decode argon a proof at1 (some nonce1) at2 (some nonce2) ≡ ok t
          → (allows hmac encode decode a t.access_token now
              ≡ ltb (now / 10 ^ 9) ((at1 + access_ttl) / 10 ^ 9))
            × (allows hmac encode decode a t.refresh_token now ≡ false)
      unfolding allows_by
      allows-login a proof at1 at2 now nonce1 nonce2 t l1 l2 b b1 b2 h =
          let (c, e, z, d, k) = login-eq-ok a proof at1 at2 (some nonce1) (some nonce2) t h in
          let (p, q) = mint-sign c at1 at2 (some nonce1) (some nonce2) t k in
          (
            rw e (
                verify-sign hmac encode decode decode-encode length-hmac c access access
                  (at1 + access_ttl) now nonce1 t.access_token l1 b b1 p),
            rw e (
                verify-sign hmac encode decode decode-encode length-hmac c refresh access
                  (at2 + refresh_ttl) now nonce2 t.refresh_token l2 b b2 q),
          )

      -- What a refresh token gave: an access token, for the time from the refresh.
      fresh_access :
          (a : Auth) (c : Credential) (fresh : Text) (at later : Time) (random : List ℕ)
          → a.cred ≡ some c
          → length random ≡ 16
          → later < in_range
          → at + access_ttl < in_range
          → sign hmac encode decode c access (at + access_ttl) (some random) ≡ ok fresh
          → (allows hmac encode decode a fresh later
              ≡ ltb (later / 10 ^ 9) ((at + access_ttl) / 10 ^ 9))
            × ((t : Time) (r : Option (List ℕ))
                → refresh_access hmac encode decode a fresh later t r ≡ err bad_credential)
      unfolding allows_by refresh_by
      fresh_access a c fresh at later random e l b b1 s =
          let v =
            verify-sign hmac encode decode decode-encode length-hmac c access access
              (at + access_ttl) later random fresh l b b1 s in
          let w =
            verify-sign hmac encode decode decode-encode length-hmac c access refresh
              (at + access_ttl) later random fresh l b b1 s in
          (rw e v, λ t r. ground (arith, e, w))

      -- The refresh token of a login gives a token for the 30 days of `RefreshTTL` from that login,
      -- by the seconds of the clock, and an error from then on. The token that it gives lets its
      -- bearer mutate for the 15 minutes of `AccessTTL` from the refresh, and neither it nor the
      -- access token of the login refreshes anything: the session does not slide. For nonces of 16
      -- bytes and instants in range, where base64url decodes what it encodes and a MAC has 32 bytes.
      pub refresh_access-login :
          (a : Auth) (proof : Text) (at1 at2 now at later : Time) (nonce1 nonce2 random : List ℕ)
          (t : Tokens)
          → length nonce1 ≡ 16
          → length nonce2 ≡ 16
          → length random ≡ 16
          → now < in_range
          → later < in_range
          → at + access_ttl < in_range
          → at1 + access_ttl < in_range
          → at2 + refresh_ttl < in_range
          → login hmac encode decode argon a proof at1 (some nonce1) at2 (some nonce2) ≡ ok t
          → (now / 10 ^ 9 < (at2 + refresh_ttl) / 10 ^ 9
              → (fresh : Text) × (refresh_access hmac encode decode a t.refresh_token now at
                    (some random)
                  ≡ ok fresh)
                × (allows hmac encode decode a fresh later
                    ≡ ltb (later / 10 ^ 9) ((at + access_ttl) / 10 ^ 9))
                × ((u : Time) (r : Option (List ℕ))
                    → refresh_access hmac encode decode a fresh later u r ≡ err bad_credential))
            × ((at2 + refresh_ttl) / 10 ^ 9 ≤ now / 10 ^ 9
                → refresh_access hmac encode decode a t.refresh_token now at (some random)
                  ≡ err bad_credential)
            × (refresh_access hmac encode decode a t.access_token now at (some random)
                ≡ err bad_credential)
      unfolding refresh_by sign
      refresh_access-login a proof at1 at2 now at later nonce1 nonce2 random t l1 l2 l3 b b3 b4 b1
            b2 h =
          let (c, e, z, d, k) = login-eq-ok a proof at1 at2 (some nonce1) (some nonce2) t h in
          let (p, q) = mint-sign c at1 at2 (some nonce1) (some nonce2) t k in
          let v =
            verify-sign hmac encode decode decode-encode length-hmac c refresh refresh
              (at2 + refresh_ttl) now nonce2 t.refresh_token l2 b b2 q in
          let w =
            verify-sign hmac encode decode decode-encode length-hmac c access refresh
              (at1 + access_ttl) now nonce1 t.access_token l1 b b1 p in
          (
            λ i.
                let (fresh, x, y) =
                  refresh_by-verify c t.refresh_token now at random (ground (arith, v, i)) in
                let (p', q') = fresh_access a c fresh at later random e l3 b3 b4 y in
                let by = λ (o : Option Credential).
                  refresh_by hmac encode decode o t.refresh_token now at (some random) in
                (fresh, ap by e ∙ x, p', q'),
            λ i. ground (arith, e, v, i),
            ground (arith, e, w),
          )

    -- A password that was set holds: a start on the written file gives the same credential, where
    -- the salt, the signing key and the hash have their lengths.
    pub set_password-open_auth :
        (proof : Text) (salt signing : List ℕ) (save : Bool) (a a' : Auth)
        → length salt ≡ 16
        → length signing ≡ 32
        → length (argon proof salt 3 65536 4) ≡ 32
        → set_password hmac encode decode argon (ok proof) (some salt) (some signing) save a
          ≡ (a', ok tt)
        → (c : Credential) × (a'.cred ≡ some c) × (open_auth true (parsed c) ≡ (a', ok tt))
    unfolding set_password set_credential new_credential open_auth reload reload_from reload_parsed
        check_credential
    set_password-open_auth proof salt signing save a a' l m n h =
        let c = new_credential hmac encode decode argon proof salt signing in
        (c, ground (arith, h), ground (arith, l, m, n, h))

    -- On a seed whose password was set, a login succeeds with a proof of 43 bytes that has the same
    -- hash, and with no other.
    pub login-set_password :
        (proof proof' : Text) (salt signing nonce1 nonce2 : List ℕ) (at1 at2 : Time) (save : Bool)
        (a a' : Auth)
        → set_password hmac encode decode argon (ok proof) (some salt) (some signing) save a
          ≡ (a', ok tt)
        → is_ok (login hmac encode decode argon a' proof' at1 (some nonce1) at2 (some nonce2))
          ≡ (nat_beq (size proof') 43 && argon proof' salt 3 65536 4 == argon proof salt 3 65536 4)
    unfolding set_password set_credential new_credential login_by derive mint sign
    login-set_password proof proof' salt signing nonce1 nonce2 at1 at2 save a a' h =
        ground (arith, h)
