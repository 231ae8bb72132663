-- ===== src/KnownHosts/Book.antt =====
-- What the book keeps whatever is recorded in it (core/domain/knownhost.go).
use kanpachi.Base.{
  ℕ, zero, suc, ◌+◌, ◌≤◌, Bool, true, false, not, ◌≡◌, refl, List, [], ◌∷◌, ◌++◌, some, arith, ltb,
  nat_beq, if◌then◌else◌, Text, text_eq, is_empty, any, any-append, length, Bool-cases,
  Option-cases, inl, inr, ◌⊎◌,
}
use kanpachi.Net.{Time}
use kanpachi.KnownHosts.{
  KnownHost, public_key_size, key_equal, by_key, touch, oldest_seen, drop_seen, drop_oldest, evict,
  met, by_nick, without_nick, record_host, judge_host, known,
}
use kanpachi.KnownHosts.Keys.{
  has_key, IsKeyed, touch-IsKeyed, length-touch, has_key-filter, filter-IsKeyed, drop_seen-IsKeyed,
}

-- A book: keyed, of at most two hundred entries.
pub record IsBook (hosts : List KnownHost) : Type 0 where
  pub keyed : IsKeyed hosts
  pub small : length hosts ≤ 200

oldest-stands :
    (t : Time) (hs : List KnownHost)
    → (oldest_seen t hs ≡ t) ⊎ (any (λ h. nat_beq h.last_seen (oldest_seen t hs)) hs ≡ true)
unfolding oldest_seen
oldest-stands t [] = inl refl
oldest-stands t (h ∷ hs) = elim (oldest-stands (if ltb h.last_seen t then h.last_seen else t) hs) [
  | inr e ↦ inr (ground (arith, e))
  | inl e ↦ elim (Bool-cases (ltb h.last_seen t)) [
    | inl f ↦ inr (ground (arith, e, f))
    | inr f ↦ inl (ground (arith, e, f))
  ]
]

length-drop_seen :
    (t : Time) (hs : List KnownHost)
    → any (λ h. nat_beq h.last_seen t) hs ≡ true
    → 1 + length (drop_seen t hs) ≡ length hs
unfolding drop_seen
length-drop_seen t [] h = cc
length-drop_seen t (x ∷ hs) h = ground (arith, length-drop_seen t hs)

length-drop_oldest :
    (h : KnownHost) (hs : List KnownHost) → 1 + length (drop_oldest (h ∷ hs)) ≡ length (h ∷ hs)
length-drop_oldest h hs =
    length-drop_seen (oldest_seen h.last_seen hs) (h ∷ hs) (elim (oldest-stands h.last_seen hs) [
      | inl e ↦ ground (arith, e)
      | inr e ↦ ground (arith, e)
    ])

-- Fuel for each entry above the limit is enough.
evict-small :
    (fuel : ℕ) (hs : List KnownHost) → length hs ≤ fuel + 200 → length (evict fuel hs) ≤ 200
unfolding evict
evict-small zero hs h = h
evict-small (suc fuel) [] h = ground arith
evict-small (suc fuel) (x ∷ hs) h =
    let n = length-drop_oldest x hs in
    let i = evict-small fuel (drop_oldest (x ∷ hs)) (omega (arith, n, h)) in
    elim (Bool-cases (ltb 200 (length (x ∷ hs)))) [
      | inl e ↦ rw e i
      | inr e ↦ rw e (ground (arith, e))
    ]

drop_oldest-IsKeyed : (hs : List KnownHost) → IsKeyed hs → IsKeyed (drop_oldest hs)
drop_oldest-IsKeyed [] i = tt
drop_oldest-IsKeyed (h ∷ hs) i = drop_seen-IsKeyed (oldest_seen h.last_seen hs) (h ∷ hs) i

evict-IsKeyed : (fuel : ℕ) (hs : List KnownHost) → IsKeyed hs → IsKeyed (evict fuel hs)
unfolding evict
evict-IsKeyed zero hs i = i
evict-IsKeyed (suc fuel) hs i = elim (Bool-cases (ltb 200 (length hs))) [
  | inl e ↦ rw e (evict-IsKeyed fuel (drop_oldest hs) (drop_oldest-IsKeyed hs i))
  | inr e ↦ rw e i
]

long_key : (k : List ℕ) → length k ≡ 32 → is_empty k ≡ false
long_key [] h = absurd (omega (arith, h))
long_key (c ∷ k) h = refl

append-IsKeyed :
    (key : List ℕ) (nick : Text) (now : Time) (hs : List KnownHost)
    → length key ≡ public_key_size
    → has_key key hs ≡ false
    → IsKeyed hs
    → IsKeyed (hs ++ met key nick now ∷ [])
append-IsKeyed key nick now [] l n i = (l, refl, tt)
append-IsKeyed key nick now (h ∷ hs) l n (m, d, i) = (
  m,
  ground (
    arith,
    n,
    d,
    long_key h.key m,
    text_eq.equal_iff h.key key,
    text_eq.equal_iff key h.key,
    any-append (λ x. key_equal x.key h.key) hs (met key nick now ∷ []),
  ),
  append-IsKeyed key nick now hs l (ground (arith, n)) i,
)

module _ (same_nick : Text → Text → Bool) where
  without_nick-IsKeyed :
      (hs : List KnownHost) (nick : Text) → IsKeyed hs → IsKeyed (without_nick same_nick hs nick)
  without_nick-IsKeyed hs nick i = elim (Bool-cases (is_empty nick)) [
    | inl e ↦ rw e i
    | inr e ↦ elim (Option-cases (by_nick same_nick hs nick)) [
      | inl f ↦ rw e (rw f i)
      | inr (h, f) ↦ rw e (rw f (filter-IsKeyed (λ x. not (key_equal x.key h.key)) hs i))
    ]
  ]

  without_nick-has_key :
      (hs : List KnownHost) (nick : Text) (key : List ℕ)
      → has_key key hs ≡ false
      → has_key key (without_nick same_nick hs nick) ≡ false
  without_nick-has_key hs nick key n = elim (Bool-cases (is_empty nick)) [
    | inl e ↦ rw e n
    | inr e ↦ elim (Option-cases (by_nick same_nick hs nick)) [
      | inl f ↦ rw e (rw f n)
      | inr (h, f) ↦ rw e (rw f (has_key-filter (λ x. not (key_equal x.key h.key)) key hs n))
    ]
  ]

  -- Recording keeps the book a book: keys of the right size, none of them twice, and at most two
  -- hundred entries, the least recently seen going first.
  pub record_host-IsBook :
      (hs : List KnownHost) (key : List ℕ) (nick : Text) (now : Time)
      → IsBook hs
      → IsBook (record_host same_nick hs key nick now)
  unfolding record_host
  record_host-IsBook hs key nick now b = elim (Bool-cases (nat_beq (length key) public_key_size)) [
    | inr e ↦ rw (e, record_host) b
    | inl e ↦ elim (Bool-cases (has_key key hs)) [
      | inl f ↦
          rw (e, record_host)
            (rw f (record {
              keyed = touch-IsKeyed key nick now hs b.keyed;
              small = ground (arith, length-touch key nick now hs, b.small);
            }))
      | inr f ↦
          let kept = without_nick same_nick hs nick in
          let longer = kept ++ met key nick now ∷ [] in
          rw (e, record_host)
            (rw f (record {
              keyed = evict-IsKeyed (length longer) longer (
                  append-IsKeyed key nick now kept (ground (arith, e))
                    (without_nick-has_key hs nick key f) (without_nick-IsKeyed hs nick b.keyed));
              small = evict-small (length longer) longer (omega arith);
            }))
    ]
  ]

touch-by_key :
    (key : List ℕ) (nick : Text) (now : Time) (hs : List KnownHost)
    → is_empty nick ≡ false
    → has_key key hs ≡ true
    → (h : KnownHost) × (by_key (touch key nick now hs) key ≡ some h) × (h.nick ≡ nick)
unfolding touch
touch-by_key key nick now [] z k = cc
touch-by_key key nick now (h ∷ hs) z k = elim (Bool-cases (key_equal h.key key)) [
  | inl e ↦
      (record h { last_seen = now; rooms = h.rooms + 1; nick = nick }, ground (arith, e, z), refl)
  | inr e ↦
      let (found, f, same) = touch-by_key key nick now hs z (ground (arith, e, k)) in
      (found, ground (arith, e, f), same)
]

-- A host that is met again under a nickname is known by its key and that nickname from then on,
-- whatever it was called before, if a nickname counts as the same as itself.
pub judge_host-record_host :
    (same_nick : Text → Text → Bool) (hs : List KnownHost) (key : List ℕ) (nick : Text) (now : Time)
    → ((n : Text) → same_nick n n ≡ true)
    → length key ≡ public_key_size
    → is_empty nick ≡ false
    → has_key key hs ≡ true
    → (judge_host same_nick (record_host same_nick hs key nick now) key nick).0 ≡ known
unfolding judge_host record_host
judge_host-record_host same_nick hs key nick now refl_nick l z k =
    let (h, f, same) = touch-by_key key nick now hs z k in
    ground (arith, l, z, k, f, same, refl_nick nick)
