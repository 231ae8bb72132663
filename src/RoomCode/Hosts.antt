-- ===== src/RoomCode/Hosts.antt =====
-- A host that was read is read back as itself (core/domain/room.go).
use kanpachi.Base.{
  ℕ, Bool, true, false, not, ◌&&◌, ◌||◌, ◌≡◌, refl, List, [], ◌∷◌, arith, nat_beq, ok, Text,
  is_empty, all, nat_eq, map, Bool-cases, inl, inr, ap, sym, ◌∙◌, all_weaken,
}
use kanpachi.RoomCode.{
  trim_last, split, push, last_or, last_label, is_label, is_host_char, is_host, parse_seed_host,
}

-- The characters of a host.
abbrev pub is_dotted : ℕ → Bool
is_dotted c = is_host_char c || nat_beq c b'.'

push-all :
    (c : ℕ) (ps : List Text)
    → all (all is_host_char) (push c ps) ≡ true
    → (is_host_char c ≡ true) × (all (all is_host_char) ps ≡ true)
push-all c [] h = (ground (arith, h), refl)
push-all c (q ∷ qs) h = (ground (arith, h), ground (arith, h))

all-split : (s : Text) → all (all is_host_char) (split b'.' s) ≡ true → all is_dotted s ≡ true
unfolding split
all-split [] h = refl
all-split (d ∷ s) h = elim (Bool-cases (nat_beq d b'.')) [
  | inl e ↦ ground (arith, e, all-split s (ground (arith, e, h)))
  | inr e ↦
      let (a, b) = push-all d (split b'.' s) (ground (arith, e, h)) in
      ground (arith, a, all-split s b)
]

push-pos : (c : ℕ) (ps : List Text) → is_empty (push c ps) ≡ false
push-pos c [] = refl
push-pos c (p ∷ ps) = refl

split-pos : (c : ℕ) (s : Text) → is_empty (split c s) ≡ false
unfolding split
split-pos c [] = refl
split-pos c (d ∷ s) = elim (Bool-cases (nat_beq d c)) [
  | inl e ↦ ground (arith, e)
  | inr e ↦ ground (arith, e, push-pos d (split c s))
]

last_label-cons :
    (p : Text) (ps : List Text) → is_empty ps ≡ false → last_label (p ∷ ps) ≡ last_label ps
last_label-cons p [] h = cc
last_label-cons p (q ∷ qs) h = refl

-- A label in front is not the last one of several, and a character makes a last one longer.
last_label-push :
    (d : ℕ) (ps : List Text)
    → (single : (p : Text) → ps ≡ p ∷ [] → is_empty p ≡ false)
    → is_empty (last_label (push d ps))
      ≡ (is_empty ps || is_empty (last_label ps)) && not (is_empty ps)
last_label-push d [] h = refl
last_label-push d (p ∷ []) h = ground (arith, h p refl)
last_label-push d (p ∷ q ∷ ps) h = ground arith

single-push : (d : ℕ) (ps : List Text) (p : Text) → push d ps ≡ p ∷ [] → is_empty p ≡ false
single-push d [] p h = ground (arith, h)
single-push d (q ∷ qs) p h = ground (arith, h)

single-split : (c d : ℕ) (s p : Text) → split c (d ∷ s) ≡ p ∷ [] → is_empty p ≡ false
unfolding split
single-split c d s p h = elim (Bool-cases (nat_beq d c)) [
  | inl e ↦
      let n = split-pos c s in
      let z : split c s ≡ [] = ground (arith, e, h) in absurd (ground (arith, n, z))
  | inr e ↦ single-push d (split c s) p (ground (arith, e, h))
]

last_label-split :
    (c d : ℕ) (s : Text) → is_empty (last_label (split c (d ∷ s))) ≡ nat_beq (last_or d s) c
unfolding split
last_label-split c d [] = ground arith
last_label-split c d (e ∷ s) = elim (Bool-cases (nat_beq d c)) [
  | inl q ↦ rw q (
      ap is_empty (last_label-cons [] (split c (e ∷ s)) (split-pos c (e ∷ s)))
      ∙ last_label-split c e s)
  | inr q ↦
      let n = split-pos c (e ∷ s) in
      let i = last_label-split c e s in
      let j = last_label-push d (split c (e ∷ s)) (λ p h. single-split c e s p h) in
      rw q (j ∙ ground (arith, n, i))
]

trim-same : (c d : ℕ) (s : Text) → nat_beq (last_or d s) c ≡ false → trim_last c (d ∷ s) ≡ d ∷ s
unfolding trim_last
trim-same c d [] h = ground (arith, h)
trim-same c d (e ∷ s) h = ground (arith, trim-same c e s h)

last_label-all :
    (ps : List Text)
    → all is_label ps ≡ true
    → is_empty ps ≡ false
    → is_empty (last_label ps) ≡ false
last_label-all [] h n = cc
last_label-all ([] ∷ []) h n = cc
last_label-all ((c ∷ p) ∷ []) h n = refl
last_label-all (p ∷ q ∷ ps) h n = last_label-all (q ∷ ps) (ground (arith, h)) refl

label-chars : (p : Text) → is_label p ≡ true → all is_host_char p ≡ true
label-chars [] h = cc
label-chars (c ∷ p) h = ground (arith, h)

-- The text of a host has only its characters, and does not end in a dot.
pub is_host-chars : (h : Text) → is_host h ≡ true → all is_dotted h ≡ true
unfolding is_host
is_host-chars h k =
    all-split h
      (all_weaken is_label (all is_host_char) label-chars (split b'.' h) (ground (arith, k)))

trim-is_host : (h : Text) → is_host h ≡ true → trim_last b'.' h ≡ h
unfolding is_host trim_last
trim-is_host [] k = refl
trim-is_host (d ∷ s) k =
    let a : all is_label (split b'.' (d ∷ s)) ≡ true = ground (arith, k) in
    let l = last_label-all (split b'.' (d ∷ s)) a (split-pos b'.' (d ∷ s)) in
    trim-same b'.' d s (sym (last_label-split b'.' d s) ∙ l)

module _ (to_lower : ℕ → ℕ) where
  map-same :
      ((c : ℕ) → is_dotted c ≡ true → to_lower c ≡ c)
      → (s : Text) → all is_dotted s ≡ true
      → map to_lower s ≡ s
  map-same f [] h = refl
  map-same f (c ∷ s) h = ground (arith, f c (ground (arith, h)), map-same f s (ground (arith, h)))

  parsed-is_host : (s h : Text) → parse_seed_host to_lower s ≡ ok h → is_host h ≡ true
  unfolding parse_seed_host
  parsed-is_host s h k = ground (arith, k)

  -- What was read as a host is a host, and is read as itself, with a `to_lower` that leaves the
  -- characters of hosts as they are.
  pub parse_seed_host-again :
      (s h : Text)
      → ((c : ℕ) → is_dotted c ≡ true → to_lower c ≡ c)
      → parse_seed_host to_lower s ≡ ok h
      → (is_host h ≡ true) × (parse_seed_host to_lower h ≡ ok h)
  unfolding parse_seed_host
  parse_seed_host-again s h f k =
      let i = parsed-is_host s h k in
      let e = map-same f h (is_host-chars h i) in (i, ground (arith, trim-is_host h i, e, i))
