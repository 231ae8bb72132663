-- ===== src/SeedAuth.antt =====
-- The operator's credential of a seed and the tokens that it signs (registry/auth.go), with the
-- proof of the password (core/domain/seedauth.go). HMAC, SHA-256, Argon2id and base64url are
-- parameters; random bytes are arguments, `none` where their source fails. Each reading of the
-- clock is an argument. Parsing the credential's JSON and writing the file are left out: `Stored`
-- is what the file gives, and `save` is whether the write succeeded.
pub mod Verified
pub mod Sessions
use kanpachi.Base.{
  ℕ, zero, suc, ◌+◌, ◌-◌, ◌*◌, ◌/◌, ◌%◌, ◌^◌, Bool, true, false, not, ◌&&◌, ◌||◌, List, [], ◌∷◌,
  ◌++◌, Option, none, some, ltb, nat_beq, if◌then◌else◌, ◌==◌, text_eq, Result, ok, err, ◌>>=◌,
  Text, codes, length, size, take, drop, big_endian, number_of,
}
use kanpachi.Net.{Time}
use kanpachi.RoomCode.{RoomError, parse_seed_host}

-- `MinSeedPasswordLen`, `MaxSeedPasswordLen` and `SeedAuthProofLen`
abbrev pub min_seed_password_len : ℕ
min_seed_password_len = 4

abbrev pub max_seed_password_len : ℕ
max_seed_password_len = 128

abbrev pub seed_auth_proof_len : ℕ
seed_auth_proof_len = 43

-- `timing.AccessTTL` and `timing.RefreshTTL`, in nanoseconds.
abbrev pub access_ttl : ℕ
access_ttl = 15 * 60 * 10 ^ 9

abbrev pub refresh_ttl : ℕ
refresh_ttl = 30 * 24 * 3600 * 10 ^ 9

-- `storedCredential`
pub record Credential : Type 0 where
  pub version : ℕ
  pub salt : List ℕ
  pub hash : List ℕ
  pub signing : List ℕ
  pub time : ℕ
  pub memory : ℕ
  pub threads : ℕ

pub data CredentialError : Type 0 where
  other_version bad_salt bad_hash bad_signing no_parameters : CredentialError

pub data AuthError : Type 0 where
  no_state_dir open_seed bad_credential no_random unreadable_file unparsed_file not_saved
        not_removed :
      AuthError
  bad_file : CredentialError → AuthError
  bad_host : RoomError → AuthError
  short_password long_password : AuthError

-- `Auth`: whether there is a path, and the credential.
pub record Auth : Type 0 where
  pub has_path : Bool
  pub cred : Option Credential

-- `storedCredential.valid`
unfoldable pub check_credential : Credential → Result CredentialError (Unit {0})
check_credential c =
    if not (nat_beq c.version 1)
    then err other_version
    else if not (nat_beq (length c.salt) 16)
    then err bad_salt
    else if not (nat_beq (length c.hash) 32)
    then err bad_hash
    else if not (nat_beq (length c.signing) 32)
    then err bad_signing
    else if nat_beq c.time 0 || nat_beq c.memory 0 || nat_beq c.threads 0
    then err no_parameters
    else ok tt

-- What reading the file of the credential gives.
pub data Stored : Type 0 where
  absent unreadable unparsed : Stored
  parsed : Credential → Stored

unfoldable pub reload_parsed :
    Credential → Result CredentialError (Unit {0}) → Auth → Auth × Result AuthError (Unit {0})
reload_parsed c (err e) a = (a, err (bad_file e))
reload_parsed c (ok _) a = (record a { cred = some c }, ok tt)

unfoldable pub reload_from : Stored → Auth → Auth × Result AuthError (Unit {0})
reload_from absent a = (record a { cred = none }, ok tt)
reload_from unreadable a = (a, err unreadable_file)
reload_from unparsed a = (a, err unparsed_file)
reload_from (parsed c) a = reload_parsed c (check_credential c) a

-- `Auth.Reload`
unfoldable pub reload : Stored → Auth → Auth × Result AuthError (Unit {0})
reload file a = if a.has_path then reload_from file a else (a, ok tt)

-- `OpenAuth`
unfoldable pub open_auth : Bool → Stored → Auth × Result AuthError (Unit {0})
open_auth has_dir file = reload file (record { has_path = has_dir; cred = none })

unfoldable pub is_closed_by : Option Credential → Bool
is_closed_by none = false
is_closed_by (some c) = true

-- `Auth.Closed`
abbrev pub is_closed : Auth → Bool
is_closed a = is_closed_by a.cred

-- `Auth.Open`; `removed` is whether the file is gone after `os.Remove`.
unfoldable pub reopen : Bool → Auth → Auth × Result AuthError (Unit {0})
reopen removed a =
    if not a.has_path
    then (a, ok tt)
    else if removed
    then (record a { cred = none }, ok tt)
    else (a, err not_removed)

-- `ValidateSeedPassword`
unfoldable pub validate_seed_password : Text → Result AuthError (Unit {0})
validate_seed_password password =
    if ltb (length password) min_seed_password_len
    then err short_password
    else if ltb max_seed_password_len (length password)
    then err long_password
    else ok tt

unfoldable pub host_checked : Result RoomError Text → Result AuthError Text
host_checked (ok h) = ok h
host_checked (err e) = err (bad_host e)

-- `SeedAuthProof`; `sha` is SHA-256 and `encode` is base64url without padding.
unfoldable pub seed_auth_proof :
    (ℕ → ℕ) → (Text → List ℕ) → (List ℕ → Text) → Text → Text → Result AuthError Text
seed_auth_proof to_lower sha encode host password =
    host_checked (parse_seed_host to_lower host) >>= λ h. validate_seed_password password >>= λ _.
    ok (encode (sha (h ++ (0 ∷ codes "kanpachi/seed-auth/v1") ++ password)))

-- `tokenKind`, and its byte.
pub data TokenKind : Type 0 where
  access refresh : TokenKind

abbrev pub kind_byte : TokenKind → ℕ
kind_byte access = 1
kind_byte refresh = 2

-- `tokenBodyLen` and `tokenLen`
abbrev pub token_body_len : ℕ
token_body_len = 25

abbrev pub token_len : ℕ
token_len = 57

abbrev pub first_byte : List ℕ → ℕ
first_byte [] = 0
first_byte (b ∷ bytes) = b

-- `uint64(t.Unix())`: seconds from 1970 in 64 bits, also where `t` is before.
abbrev pub unix : Time → ℕ
unix t = (t / 10 ^ 9 + (2 ^ 64 - 62135596800)) % 2 ^ 64

-- `a < b` on the 64 bits of two signed numbers.
abbrev pub signed_less : ℕ → ℕ → Bool
signed_less a b = ltb ((a + 2 ^ 63) % 2 ^ 64) ((b + 2 ^ 63) % 2 ^ 64)

-- The body of a token: `kind(1) ‖ expiry(8) ‖ nonce(16)`.
unfoldable pub token_body : TokenKind → Time → List ℕ → List ℕ
token_body k expires nonce = kind_byte k ∷ (big_endian 8 (unix expires) ++ nonce)

-- `Tokens`, without the field `ExpiresIn`, which is the constant `AccessTTL`.
pub record Tokens : Type 0 where
  pub access_token : Text
  pub refresh_token : Text

-- `hmac key message` is HMAC-SHA256, `encode` and `decode` are those of base64url without padding.
module _ (hmac : List ℕ → List ℕ → List ℕ) (encode : List ℕ → Text)
    (decode : Text → Option (List ℕ)) where
  -- `storedCredential.mac`
  unfoldable pub mac : Credential → List ℕ → List ℕ
  mac c body = hmac c.signing (codes "kanpachi/seed-token/v1" ++ body)

  -- `storedCredential.sign`
  unfoldable pub sign : Credential → TokenKind → Time → Option (List ℕ) → Result AuthError Text
  sign c k expires none = err no_random
  sign c k expires (some nonce) =
      let body = token_body k expires nonce in ok (encode (body ++ mac c body))

  -- The checks of `verify` on the two parts of the token.
  unfoldable pub verify_parts : Credential → List ℕ → List ℕ → TokenKind → Time → Bool
  verify_parts c body tag k now =
      if not (tag == mac c body)
      then false
      else if not (nat_beq (first_byte body) (kind_byte k))
      then false
      else signed_less (unix now) (number_of (take 8 (drop 1 body)))

  unfoldable pub verify_raw : Credential → Option (List ℕ) → TokenKind → Time → Bool
  verify_raw c none k now = false
  verify_raw c (some raw) k now =
      if not (nat_beq (length raw) token_len)
      then false
      else verify_parts c (take token_body_len raw) (drop token_body_len raw) k now

  -- `storedCredential.verify`
  unfoldable pub verify : Credential → Text → TokenKind → Time → Bool
  verify c token k now = verify_raw c (decode token) k now

  -- `mint`, with its two readings of the clock and its two nonces.
  unfoldable pub mint :
      Credential → Time → Option (List ℕ) → Time → Option (List ℕ) → Result AuthError Tokens
  mint c at1 random1 at2 random2 = sign c access (at1 + access_ttl) random1 >>= λ a.
      sign c refresh (at2 + refresh_ttl) random2 >>= λ r.
      ok (record { access_token = a; refresh_token = r })

  unfoldable pub allows_by : Option Credential → Text → Time → Bool
  allows_by none token now = true
  allows_by (some c) token now = verify c token access now

  -- `Auth.Allows`
  abbrev pub allows : Auth → Text → Time → Bool
  allows a token now = allows_by a.cred token now

  unfoldable pub refresh_by :
      Option Credential → Text → Time → Time → Option (List ℕ) → Result AuthError Text
  refresh_by none token now at random = err open_seed
  refresh_by (some c) token now at random =
      if not (verify c token refresh now)
      then err bad_credential
      else sign c access (at + access_ttl) random

  -- `Auth.Refresh`: it reads the clock to verify and again to sign.
  abbrev pub refresh_access : Auth → Text → Time → Time → Option (List ℕ) → Result AuthError Text
  refresh_access a token now at random = refresh_by a.cred token now at random

  -- `argon proof salt time memory threads` is `argon2.IDKey` for 32 bytes.
  module _ (argon : Text → List ℕ → ℕ → ℕ → ℕ → List ℕ) where
    -- `derive`
    unfoldable pub derive : Credential → Text → List ℕ
    derive c proof = argon proof c.salt c.time c.memory c.threads

    unfoldable pub login_by :
        Option Credential
        → Text
        → Time
        → Option (List ℕ)
        → Time
        → Option (List ℕ)
        → Result AuthError Tokens
    login_by none proof at1 random1 at2 random2 = err open_seed
    login_by (some c) proof at1 random1 at2 random2 =
        if not (nat_beq (size proof) seed_auth_proof_len)
        then err bad_credential
        else if not (derive c proof == c.hash)
        then err bad_credential
        else mint c at1 random1 at2 random2

    -- `Auth.Login`
    abbrev pub login :
        Auth → Text → Time → Option (List ℕ) → Time → Option (List ℕ) → Result AuthError Tokens
    login a proof at1 random1 at2 random2 = login_by a.cred proof at1 random1 at2 random2

    -- The credential that `SetPassword` makes of a proof, a salt and a signing key.
    unfoldable pub new_credential : Text → List ℕ → List ℕ → Credential
    new_credential proof salt signing = record {
      version = 1;
      salt = salt;
      hash = argon proof salt 3 65536 4;
      signing = signing;
      time = 3;
      memory = 65536;
      threads = 4;
    }

    unfoldable pub set_credential :
        Result AuthError Text
        → Option (List ℕ)
        → Option (List ℕ)
        → Bool
        → Auth
        → Auth × Result AuthError (Unit {0})
    set_credential (err e) salt signing save a = (a, err e)
    set_credential (ok proof) none signing save a = (a, err no_random)
    set_credential (ok proof) (some salt) none save a = (a, err no_random)
    set_credential (ok proof) (some salt) (some signing) save a =
        if save
        then (record a { cred = some (new_credential proof salt signing) }, ok tt)
        else (a, err not_saved)

    -- `Auth.SetPassword`; `proof` is the answer of `SeedAuthProof`.
    unfoldable pub set_password :
        Result AuthError Text
        → Option (List ℕ)
        → Option (List ℕ)
        → Bool
        → Auth
        → Auth × Result AuthError (Unit {0})
    set_password proof salt signing save a =
        if a.has_path then set_credential proof salt signing save a else (a, err no_state_dir)
