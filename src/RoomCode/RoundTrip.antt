-- ===== src/RoomCode/RoundTrip.antt =====
-- A code that was read and written again is read as itself (core/domain/room.go).
use kanpachi.Base.{
  ℕ, ◌≤◌, ◌>>=◌, true, false, ◌||◌, ◌≡◌, refl, ◌∷◌, ◌++◌, arith, ltb, nat_beq, ok, >>=-eq-ok, Text,
  size, is_space, is_empty, all, contains, nat_eq, trim_right, trim_space, all-append, any-append,
  any-all, all_weaken, Bool-cases, Result-cases, inl, inr, ap, ◌∙◌,
}
use kanpachi.InviteId.{parse_invite_id, print_invite_id}
use kanpachi.InviteId.RoundTrip.{IsId, size-symbols, parse_invite_id-print_invite_id}
use kanpachi.RoomCode.{
  Room, before, own_scheme, https_scheme, http_scheme, without_scheme, parts, with_invite, is_host,
  max_host_len, parse_seed_host, room_of, parse_room, invite_url,
}
use kanpachi.RoomCode.Hosts.{is_dotted, is_host-chars, parse_seed_host-again}
use kanpachi.RoomCode.Written.{
  is_id_char, is_url_char, group-chars, size-group, size-append, size-slash, trim_left-same,
  trim_right-same, before-none, before-append, after-append, no_scheme, char-is_url, append-pos,
  other_char,
}

-- The text of a code, from the parts that were read.
module _ (host id : Text) (hh : is_host host ≡ true) (hi : IsId id) where
  abbrev url : Text
  url = host ++ (b'/' ∷ print_invite_id id)

  id-chars : all is_id_char (print_invite_id id) ≡ true
  id-chars = group-chars 4 id (hi.1)

  url-chars : all is_url_char url ≡ true
  url-chars =
      let h =
        all_weaken is_dotted is_url_char (λ c e. ground (arith, e)) host (is_host-chars host hh) in
      let i =
        all_weaken is_id_char is_url_char (λ c e. ground (arith, e)) (print_invite_id id)
          id-chars in
      ground (arith, all-append is_url_char host (b'/' ∷ print_invite_id id), h, i)

  url-lacks : (c : ℕ) → is_url_char c ≡ false → contains c url ≡ false
  url-lacks c h =
      any-all is_url_char (λ d. nat_beq d c) (λ d e. other_char is_url_char c d h e) url url-chars

  host-lacks : (c : ℕ) → is_dotted c ≡ false → contains c host ≡ false
  host-lacks c h =
      any-all is_dotted (λ d. nat_beq d c) (λ d e. other_char is_dotted c d h e) host
        (is_host-chars host hh)

  url-trim : trim_space url ≡ url
  url-trim =
      let h = any-all is_url_char is_space (λ d e. (char-is_url d e).0) url url-chars in
      ap trim_right (trim_left-same url h) ∙ trim_right-same url h

  url-no_scheme : without_scheme url ≡ url
  unfolding without_scheme
  url-no_scheme =
      let h = url-lacks b':' refl in
      ground (
        arith,
        no_scheme own_scheme url refl h,
        no_scheme https_scheme url refl h,
        no_scheme http_scheme url refl h,
      )

  url-parts : parts url ≡ ok (print_invite_id id, host)
  unfolding parts
  url-parts =
      let n = host-lacks b'/' refl in
      let a = after-append b'/' host (print_invite_id id) n in
      let b = before-append b'/' host (print_invite_id id) n in
      let bad =
        any-all is_id_char (λ c. nat_beq c b'/' || nat_beq c b'?' || nat_beq c b'&')
          (λ d e. ground (arith, e)) (print_invite_id id) id-chars in
      let slash : contains b'/' url ≡ true =
        ground (arith, any-append (λ d. nat_beq d b'/') host (b'/' ∷ print_invite_id id)) in
      ground (arith, url-lacks b'@' refl, slash, a, b, bad)

  size-host : size host ≤ max_host_len
  unfolding is_host
  size-host = ground (arith, hh)

  size-url : size url ≤ 300
  size-url = omega (
    arith,
    size-append host (b'/' ∷ print_invite_id id),
    size-slash (print_invite_id id),
    size-group 4 id,
    size-symbols id (hi.1),
    hi.0,
    size-host,
  )

  url-pos : is_empty url ≡ false
  url-pos = append-pos host (print_invite_id id)

  host-pos : is_empty host ≡ false
  unfolding is_host
  host-pos = ground (arith, hh)

module _ (to_lower : ℕ → ℕ) where
  room_of-ok :
      (id_part host_part : Text) (r : Room)
      → room_of to_lower id_part host_part ≡ ok r
      → (parse_invite_id id_part ≡ ok r.invite_id)
        × (parse_seed_host to_lower host_part ≡ ok r.seed)
  unfolding room_of with_invite
  room_of-ok id_part host_part r h = elim (Result-cases (parse_invite_id id_part)) [
    | inr (e, f) ↦ absurd (ground (arith, f, h))
    | inl (id, f) ↦ elim (Bool-cases (is_empty host_part)) [
      | inl g ↦ absurd (ground (arith, f, g, h))
      | inr g ↦ elim (Result-cases (parse_seed_host to_lower host_part)) [
        | inr (e, k) ↦ absurd (ground (arith, f, g, k, h))
        | inl (seed, k) ↦ (ground (arith, f, g, k, h), ground (arith, f, g, k, h))
      ]
    ]
  ]

  pub parse_room-parts :
      (s : Text) (r : Room)
      → parse_room to_lower s ≡ ok r
      → (id_part : Text) × (host_part : Text) × (parse_invite_id id_part ≡ ok r.invite_id)
        × (parse_seed_host to_lower host_part ≡ ok r.seed)
  unfolding parse_room
  parse_room-parts s r h =
      let t = without_scheme (before b'#' (trim_space s)) in
      let g : (parts t >>= λ p. room_of to_lower p.0 p.1) ≡ ok r = ground (arith, h) in
      let (p, e, k) = >>=-eq-ok (parts t) (λ p. room_of to_lower p.0 p.1) g in
      let (a, b) = room_of-ok p.0 p.1 r k in (p.0, p.1, a, b)

  pub room_of-eq :
      (r : Room)
      → is_host r.seed ≡ true
      → parse_invite_id (print_invite_id r.invite_id) ≡ ok r.invite_id
      → parse_seed_host to_lower r.seed ≡ ok r.seed
      → room_of to_lower (print_invite_id r.invite_id) r.seed ≡ ok r
  unfolding room_of with_invite is_host
  room_of-eq r k j l =
      let n : is_empty r.seed ≡ false = ground (arith, k) in rw (j, room_of) (rw n (rw l refl))

  -- A text is read from its two parts.
  pub parse_room-eq :
      (s : Text) (id_part host_part : Text)
      → size s ≤ 300
      → trim_space s ≡ s
      → is_empty s ≡ false
      → before b'#' s ≡ s
      → without_scheme s ≡ s
      → parts s ≡ ok (id_part, host_part)
      → parse_room to_lower s ≡ room_of to_lower id_part host_part
  unfolding parse_room
  parse_room-eq s id_part host_part z t n b w p =
      let y : ltb 300 (size s) ≡ false = ground (arith, z) in rw (y, t, n, b, w, p) refl

  -- A code that was read is written as one that is read as the same room, with a `to_lower` that
  -- leaves the characters of hosts as they are.
  pub parse_room-invite_url :
      (s : Text) (r : Room)
      → ((c : ℕ) → is_dotted c ≡ true → to_lower c ≡ c)
      → parse_room to_lower s ≡ ok r
      → parse_room to_lower (invite_url r) ≡ ok r
  unfolding invite_url
  parse_room-invite_url s r f h =
      let (a, b, p, q) = parse_room-parts s r h in
      let (i, j) = parse_invite_id-print_invite_id a r.invite_id p in
      let (k, l) = parse_seed_host-again to_lower b r.seed f q in
      parse_room-eq (url r.seed r.invite_id k i) (print_invite_id r.invite_id) r.seed
        (size-url r.seed r.invite_id k i) (url-trim r.seed r.invite_id k i)
        (url-pos r.seed r.invite_id k i)
        (before-none b'#' (url r.seed r.invite_id k i) (url-lacks r.seed r.invite_id k i b'#' refl))
        (url-no_scheme r.seed r.invite_id k i) (url-parts r.seed r.invite_id k i)
      ∙ room_of-eq r k j l
