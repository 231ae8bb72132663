-- ===== src/RoomCode/Codes.antt =====
-- A code in the form `<ID>@<host>`, in which the saved rooms keep it, is read as its room
-- (core/domain/room.go and `roomFrom` of core/domain/hostedroom.go).
use kanpachi.Base.{
  ℕ, ◌+◌, ◌≤◌, Bool, true, false, ◌||◌, ◌≡◌, refl, [], ◌∷◌, ◌++◌, arith, nat_beq, ok, Text, size,
  is_space, is_empty, all, contains, nat_eq, trim_right, trim_space, all-append, any-append,
  any-all, all_weaken, ap, ◌∙◌,
}
use kanpachi.InviteId.{print_invite_id}
use kanpachi.InviteId.RoundTrip.{IsId, size-symbols, parse_invite_id-print_invite_id}
use kanpachi.RoomCode.{
  Room, own_scheme, https_scheme, http_scheme, without_scheme, parts, is_host, max_host_len,
  parse_room,
}
use kanpachi.RoomCode.Hosts.{is_dotted, is_host-chars, parse_seed_host-again}
use kanpachi.RoomCode.Written.{
  is_id_char, group-chars, size-group, size-append, trim_left-same, trim_right-same, before-none,
  before-append, after-append, no_scheme, other_char,
}
use kanpachi.RoomCode.RoundTrip.{parse_room-parts, parse_room-eq, room_of-eq}

-- The characters of such a code.
abbrev is_code_char : ℕ → Bool
is_code_char c = is_dotted c || nat_beq c b'@' || is_id_char c

abbrev pub code_of : Room → Text
code_of r = print_invite_id r.invite_id ++ (b'@' ∷ r.seed)

char-is_code : (c : ℕ) → is_code_char c ≡ true → is_space c ≡ false
char-is_code c h = ground arith

append_at-pos : (s t : Text) → is_empty (s ++ (b'@' ∷ t)) ≡ false
append_at-pos [] t = refl
append_at-pos (c ∷ s) t = refl

module _ (host id : Text) (hh : is_host host ≡ true) (hi : IsId id) where
  abbrev code : Text
  code = print_invite_id id ++ (b'@' ∷ host)

  id-chars : all is_id_char (print_invite_id id) ≡ true
  id-chars = group-chars 4 id (hi.1)

  code-chars : all is_code_char code ≡ true
  code-chars =
      let h =
        all_weaken is_dotted is_code_char (λ c e. ground (arith, e)) host (is_host-chars host hh) in
      let i =
        all_weaken is_id_char is_code_char (λ c e. ground (arith, e)) (print_invite_id id)
          id-chars in
      ground (arith, all-append is_code_char (print_invite_id id) (b'@' ∷ host), h, i)

  code-lacks : (c : ℕ) → is_code_char c ≡ false → contains c code ≡ false
  code-lacks c h =
      any-all is_code_char (λ d. nat_beq d c) (λ d e. other_char is_code_char c d h e) code
        code-chars

  host-lacks : (c : ℕ) → is_dotted c ≡ false → contains c host ≡ false
  host-lacks c h =
      any-all is_dotted (λ d. nat_beq d c) (λ d e. other_char is_dotted c d h e) host
        (is_host-chars host hh)

  id-lacks : (c : ℕ) → is_id_char c ≡ false → contains c (print_invite_id id) ≡ false
  id-lacks c h =
      any-all is_id_char (λ d. nat_beq d c) (λ d e. other_char is_id_char c d h e)
        (print_invite_id id) id-chars

  code-trim : trim_space code ≡ code
  code-trim =
      let h = any-all is_code_char is_space char-is_code code code-chars in
      ap trim_right (trim_left-same code h) ∙ trim_right-same code h

  code-no_scheme : without_scheme code ≡ code
  unfolding without_scheme
  code-no_scheme =
      let h = code-lacks b':' refl in
      ground (
        arith,
        no_scheme own_scheme code refl h,
        no_scheme https_scheme code refl h,
        no_scheme http_scheme code refl h,
      )

  host-pos : is_empty host ≡ false
  unfolding is_host
  host-pos = ground (arith, hh)

  code-parts : parts code ≡ ok (print_invite_id id, host)
  unfolding parts
  code-parts =
      let n = id-lacks b'@' refl in
      let a = after-append b'@' (print_invite_id id) host n in
      let b = before-append b'@' (print_invite_id id) host n in
      let at : contains b'@' code ≡ true =
        ground (arith, any-append (λ d. nat_beq d b'@') (print_invite_id id) (b'@' ∷ host)) in
      let slash = code-lacks b'/' refl in
      let one = host-lacks b'@' refl in rw at (rw slash (rw a (rw b (rw one (rw host-pos refl)))))

  size-host : size host ≤ max_host_len
  unfolding is_host
  size-host = ground (arith, hh)

  size-at : size (b'@' ∷ host) ≡ 1 + size host
  size-at = ground arith

  size-code : size code ≤ 300
  size-code = omega (
    arith,
    size-append (print_invite_id id) (b'@' ∷ host),
    size-at,
    size-group 4 id,
    size-symbols id (hi.1),
    hi.0,
    size-host,
  )

id-pos : (id : Text) → IsId id → is_empty id ≡ false
id-pos [] (n, a) = absurd (omega (arith, n))
id-pos (c ∷ s) i = refl

-- A code that was read is read as the same room from `<ID>@<host>`, with a `to_lower` that leaves the
-- characters of hosts as they are; neither of its parts is empty.
pub parse_room-code_of :
    (to_lower : ℕ → ℕ) (s : Text) (r : Room)
    → ((c : ℕ) → is_dotted c ≡ true → to_lower c ≡ c)
    → parse_room to_lower s ≡ ok r
    → (parse_room to_lower (code_of r) ≡ ok r)
      × (is_empty r.seed ≡ false)
      × (is_empty r.invite_id ≡ false)
parse_room-code_of to_lower s r f h =
    let (a, b, p, q) = parse_room-parts to_lower s r h in
    let (i, j) = parse_invite_id-print_invite_id a r.invite_id p in
    let (k, l) = parse_seed_host-again to_lower b r.seed f q in
    (
      parse_room-eq to_lower (code r.seed r.invite_id k i) (print_invite_id r.invite_id) r.seed
            (size-code r.seed r.invite_id k i) (code-trim r.seed r.invite_id k i)
            (append_at-pos (print_invite_id r.invite_id) r.seed)
            (before-none b'#' (code r.seed r.invite_id k i)
              (code-lacks r.seed r.invite_id k i b'#' refl))
            (code-no_scheme r.seed r.invite_id k i) (code-parts r.seed r.invite_id k i)
          ∙ room_of-eq to_lower r k j l,
      host-pos r.seed r.invite_id k i,
      id-pos r.invite_id i,
    )
