-- ===== src/Examples/AuthRuns.antt =====
-- A closed seed, its tokens and its limits, with small stand-ins for the ciphers.
use kanpachi.Base.{
  ℕ, zero, suc, ◌+◌, ◌*◌, ◌/◌, ◌^◌, ◌≤◌, ◌<◌, ◌≡◌, refl, true, List, [], ◌∷◌, ◌++◌, Option, none,
  some, arith, text_eq, ok, err, Text, codes, length, ltb, big_endian, length-big_endian, number_of,
}
use kanpachi.Net.{Time}
use kanpachi.SeedAuth.{
  Credential, Auth, Tokens, access, refresh, token_body, access_ttl, refresh_ttl, mac, sign, verify,
  allows, refresh_access, login, set_password, new_credential, derive, login_by, mint,
  set_credential, verify_raw, verify_parts, bad_credential,
}
use kanpachi.SeedAuth.Sessions.{refresh_access-login}
use kanpachi.RoomClose.{passes_close_time, clock_at}
use kanpachi.RoomClose.Window.{passes_close_time_lem}
use kanpachi.Limits.{new_limiter, permits_all}
use kanpachi.Limits.Budget.{permits_alone, count_true}
use kanpachi.Limits.Isolation.{answers_of, permits_all_lem, permits_all_bound}

abbrev bytes_of : ℕ → ℕ → List ℕ
bytes_of zero b = []
bytes_of (suc n) b = b ∷ bytes_of n b

abbrev toy_hmac : List ℕ → List ℕ → List ℕ
toy_hmac key message = big_endian 32 (number_of key * 3 + number_of message)

abbrev plain : List ℕ → Text
plain bytes = bytes

abbrev read_plain : Text → Option (List ℕ)
read_plain t = some t

abbrev toy_argon : Text → List ℕ → ℕ → ℕ → ℕ → List ℕ
toy_argon proof salt time memory threads = big_endian 32 (number_of proof + number_of salt)

length-toy_hmac : (key message : List ℕ) → length (toy_hmac key message) ≡ 32
length-toy_hmac key message = length-big_endian 32 (number_of key * 3 + number_of message)

abbrev proof_text : Text
proof_text = bytes_of 43 b'x'

abbrev cred : Credential
cred = new_credential toy_hmac plain read_plain toy_argon proof_text (bytes_of 16 1) (bytes_of 32 2)

-- The first second of 2026.
abbrev start : Time
start = 63902908800 * 10 ^ 9

abbrev token : Text
token =
    token_body access (start + access_ttl) (bytes_of 16 9)
    ++ mac toy_hmac plain read_plain cred (token_body access (start + access_ttl) (bytes_of 16 9))

-- Two keys for which the stand-in gives the same MAC: the byte 0 adds nothing in front.
abbrev twin : Credential
twin = record cred { signing = 0 ∷ cred.signing }

twin_verifies : verify toy_hmac plain read_plain twin token access start ≡ true
unfolding verify verify_raw verify_parts mac token_body big_endian number_of new_credential
twin_verifies = refl

abbrev closed_seed : Auth
closed_seed = record { has_path = true; cred = some cred }

abbrev refresh_text : Text
refresh_text =
    token_body refresh (start + refresh_ttl) (bytes_of 16 8)
    ++ mac toy_hmac plain read_plain cred (token_body refresh (start + refresh_ttl) (bytes_of 16 8))

abbrev session : Tokens
session = record { access_token = token; refresh_token = refresh_text }

logged_in :
    login toy_hmac plain read_plain toy_argon closed_seed proof_text start
      (some (bytes_of 16 9))
      start
      (some (bytes_of 16 8))
    ≡ ok session
unfolding login_by derive mint sign new_credential big_endian number_of
logged_in = refl

refresh_access-login_example :
    (start / 10 ^ 9 < (start + refresh_ttl) / 10 ^ 9
      → (fresh : Text) × (refresh_access toy_hmac plain read_plain closed_seed refresh_text start
            start
            (some (bytes_of 16 7))
          ≡ ok fresh)
        × (allows toy_hmac plain read_plain closed_seed fresh start
            ≡ ltb (start / 10 ^ 9) ((start + access_ttl) / 10 ^ 9))
        × ((u : Time) (r : Option (List ℕ))
            → refresh_access toy_hmac plain read_plain closed_seed fresh start u r
              ≡ err bad_credential))
    × ((start + refresh_ttl) / 10 ^ 9 ≤ start / 10 ^ 9
        → refresh_access toy_hmac plain read_plain closed_seed refresh_text start start
            (some (bytes_of 16 7))
          ≡ err bad_credential)
    × (refresh_access toy_hmac plain read_plain closed_seed token start start (some (bytes_of 16 7))
        ≡ err bad_credential)
refresh_access-login_example =
    refresh_access-login toy_hmac plain read_plain toy_argon (λ bytes. refl) length-toy_hmac
      closed_seed proof_text start start start start start (bytes_of 16 9) (bytes_of 16 8)
      (bytes_of 16 7) session refl refl refl (omega arith) (omega arith) (omega arith) (omega arith)
      (omega arith) logged_in

was_set :
    set_password toy_hmac plain read_plain toy_argon
      (ok proof_text)
      (some (bytes_of 16 1))
      (some (bytes_of 32 2))
      true
      (record { has_path = true; cred = none })
    ≡ (closed_seed, ok tt)
unfolding set_password set_credential
was_set = refl

passes_close_time_example : passes_close_time (clock_at start + 2 ^ 63) (clock_at start) ≡ true
passes_close_time_example = passes_close_time_lem (clock_at start + 2 ^ 63) (clock_at start)

abbrev knocks : List (Text × Time)
knocks = (codes "a", 10) ∷ (codes "b", 11) ∷ (codes "a", 12) ∷ (codes "a", 13) ∷ []

permits_all_example :
    answers_of (codes "a") knocks (permits_all knocks (new_limiter 2 60)).1
    ≡ permits_alone 2 60 none (10 ∷ 12 ∷ 13 ∷ [])
permits_all_example =
    permits_all_lem 2 60 (codes "a") 10 knocks
      (omega arith, (omega arith, (omega arith, (omega arith, tt))))

permits_all_bound_example :
    count_true (answers_of (codes "a") knocks (permits_all knocks (new_limiter 2 60)).1) ≤ 2 * 2
permits_all_bound_example =
    permits_all_bound (codes "a") 10 70 knocks (new_limiter 2 60) (omega arith) tt
      (omega arith, (omega arith, (omega arith, (omega arith, tt))))
      (omega arith, (omega arith, (omega arith, (omega arith, tt)))) (omega arith)
