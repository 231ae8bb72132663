-- ===== src/SeedAuth/Verified.antt =====
-- What a token is good for (registry/auth.go): the tokens of a login, what verifying one shows,
-- and what a new signing key does to them.
use kanpachi.Base.{
  ℕ, ◌*◌, ◌/◌, ◌^◌, ◌<◌, true, ◌&&◌, ◌≡◌, refl, List, ◌++◌, Option, some, arith, ltb, nat_beq, ◌==◌,
  text_eq, ok, Text, length, take, drop, big_endian, number_of, length-append, take-append,
  drop-append, length-big_endian, number_of-big_endian, append-take-drop, length-take, eq_refl,
  Option-cases, inl, inr, ap, sym, ◌∙◌,
}
use native.Mathlib.Nat.{mod-lt}
use kanpachi.Net.{Time}
use kanpachi.SeedAuth.{
  Credential, TokenKind, kind_byte, unix, signed_less, token_body, mac, sign, verify_parts,
  verify_raw, verify, first_byte,
}

-- An instant whose seconds fit the format: 64 bits, signed, from year 1 on.
abbrev pub in_range : ℕ
in_range = 2 ^ 63 * 10 ^ 9

-- Instants in range are compared by their seconds.
signed_less-unix :
    (now expires : Time)
    → now < in_range
    → expires < in_range
    → signed_less (unix now) (unix expires) ≡ ltb (now / 10 ^ 9) (expires / 10 ^ 9)
signed_less-unix now expires h k = ground arith

length-token_body :
    (k : TokenKind) (expires : Time) (nonce : List ℕ)
    → length nonce ≡ 16
    → length (token_body k expires nonce) ≡ 25
unfolding token_body
length-token_body k expires nonce h = omega (
  arith,
  length-append (big_endian 8 (unix expires)) nonce,
  length-big_endian 8 (unix expires),
  h,
)

expiry-token_body :
    (k : TokenKind) (expires : Time) (nonce : List ℕ)
    → number_of (take 8 (drop 1 (token_body k expires nonce))) ≡ unix expires
unfolding token_body
expiry-token_body k expires nonce =
    ap number_of
      (take-append 8 (big_endian 8 (unix expires)) nonce (length-big_endian 8 (unix expires)))
    ∙ number_of-big_endian 8 (unix expires) (omega (arith, mod-lt))

module _ (hmac : List ℕ → List ℕ → List ℕ) (encode : List ℕ → Text)
    (decode : Text → Option (List ℕ)) where
  verify_parts-mac :
      (c : Credential) (body : List ℕ) (k : TokenKind) (now : Time)
      → verify_parts hmac encode decode c body (mac hmac encode decode c body) k now ≡ (
          nat_beq (first_byte body) (kind_byte k)
          && signed_less (unix now) (number_of (take 8 (drop 1 body))))
  unfolding verify_parts
  verify_parts-mac c body k now = ground (arith, eq_refl (mac hmac encode decode c body))

  -- A token of 25 and 32 bytes is taken apart where it was put together.
  verify_raw-append :
      (c : Credential) (body tag : List ℕ) (k : TokenKind) (now : Time)
      → length body ≡ 25
      → length tag ≡ 32
      → verify_raw hmac encode decode c (some (body ++ tag)) k now
        ≡ verify_parts hmac encode decode c body tag k now
  unfolding verify_raw
  verify_raw-append c body tag k now h l =
      ground
        (arith, length-append body tag, h, l, take-append 25 body tag h, drop-append 25 body tag h)

  sign-eq :
      (c : Credential) (k : TokenKind) (expires : Time) (nonce : List ℕ) (token : Text)
      → sign hmac encode decode c k expires (some nonce) ≡ ok token
      → encode (token_body k expires nonce ++ mac hmac encode decode c (token_body k expires nonce))
        ≡ token
  unfolding sign
  sign-eq c k expires nonce token h = ground (arith, h)

  module _ (decode-encode : (bytes : List ℕ) → decode (encode bytes) ≡ some bytes)
      (length-hmac : (key message : List ℕ) → length (hmac key message) ≡ 32) where
    verify-parts :
        (c c' : Credential) (k k' : TokenKind) (expires now : Time) (nonce : List ℕ) (token : Text)
        → length nonce ≡ 16
        → sign hmac encode decode c k expires (some nonce) ≡ ok token
        → verify hmac encode decode c' token k' now
          ≡ verify_parts hmac encode decode c'
              (token_body k expires nonce)
              (mac hmac encode decode c (token_body k expires nonce))
              k'
              now
    unfolding verify mac
    verify-parts c c' k k' expires now nonce token n h =
        let body = token_body k expires nonce in
        let e = sign-eq c k expires nonce token h in
        rw (sym e) (
          rw (decode-encode (body ++ mac hmac encode decode c body)) (
            verify_raw-append c' body (mac hmac encode decode c body) k' now
              (length-token_body k expires nonce n) (length-hmac c.signing _)))

    -- A signed token verifies with the key that signed it exactly as the kind that it was signed
    -- for and while the seconds of the clock are before those of its expiry, for instants in range.
    pub verify-sign :
        (c : Credential) (k k' : TokenKind) (expires now : Time) (nonce : List ℕ) (token : Text)
        → length nonce ≡ 16
        → now < in_range
        → expires < in_range
        → sign hmac encode decode c k expires (some nonce) ≡ ok token
        → verify hmac encode decode c token k' now
          ≡ (nat_beq (kind_byte k) (kind_byte k') && ltb (now / 10 ^ 9) (expires / 10 ^ 9))
    unfolding token_body
    verify-sign c k k' expires now nonce token n a b h =
        let body = token_body k expires nonce in
        verify-parts c c k k' expires now nonce token n h
        ∙ verify_parts-mac c body k' now
        ∙ rw (expiry-token_body k expires nonce) (rw (signed_less-unix now expires a b) refl)

    -- A token that was signed with one key verifies with another one only if the two keys have the
    -- same MAC of its body; for a nonce of 16 bytes, where base64url decodes what it encodes and a
    -- MAC has 32 bytes.
    pub verify-other_key :
        (c c' : Credential) (k k' : TokenKind) (expires now : Time) (nonce : List ℕ) (token : Text)
        → length nonce ≡ 16
        → sign hmac encode decode c k expires (some nonce) ≡ ok token
        → verify hmac encode decode c' token k' now ≡ true
        → mac hmac encode decode c (token_body k expires nonce)
          ≡ mac hmac encode decode c' (token_body k expires nonce)
    unfolding verify_parts
    verify-other_key c c' k k' expires now nonce token n h v =
        let body = token_body k expires nonce in
        let p = sym (verify-parts c c' k k' expires now nonce token n h) ∙ v in
        (text_eq.equal_iff (mac hmac encode decode c body) (mac hmac encode decode c' body)).0
          (ground (arith, p))

  -- What verifies is a body of 25 bytes with its MAC under the signing key, of the kind that is
  -- asked for, and with an expiry after the clock.
  pub verify_sound :
      (c : Credential) (token : Text) (k : TokenKind) (now : Time)
      → verify hmac encode decode c token k now ≡ true
      → (body : List ℕ) × (decode token ≡ some (body ++ mac hmac encode decode c body))
        × (length body ≡ 25)
        × (first_byte body ≡ kind_byte k)
        × (signed_less (unix now) (number_of (take 8 (drop 1 body))) ≡ true)
  unfolding verify verify_raw verify_parts
  verify_sound c token k now h = elim (Option-cases (decode token)) [
    | inl e ↦ absurd (ground (arith, e, h))
    | inr (raw, e) ↦
        let body = take 25 raw in
        let l : length raw ≡ 57 = ground (arith, e, h) in
        let p : (drop 25 raw == mac hmac encode decode c body) ≡ true = ground (arith, e, h) in
        let m = (text_eq.equal_iff (drop 25 raw) (mac hmac encode decode c body)).0 p in
        (
          body,
          rw (sym m) (rw (append-take-drop 25 raw) e),
          length-take 25 raw (omega (arith, l)),
          ground (arith, e, h),
          ground (arith, e, h),
        )
  ]
