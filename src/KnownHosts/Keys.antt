-- ===== src/KnownHosts/Keys.antt =====
-- Keys that stand once, under the changes to a list of hosts (core/domain/knownhost.go).
use kanpachi.Base.{
  ℕ, Bool, false, ◌≡◌, refl, List, [], ◌∷◌, arith, nat_beq, Text, text_eq, filter, any, length,
  Bool-cases, inl, inr,
}
use kanpachi.Net.{Time}
use kanpachi.KnownHosts.{KnownHost, public_key_size, key_equal, touch, drop_seen}

-- An entry of the key stands in the book.
abbrev pub has_key : List ℕ → List KnownHost → Bool
has_key key hosts = any (λ h. key_equal h.key key) hosts

-- Keys have the size of a key, and none stands twice.
abbrev pub IsKeyed : List KnownHost → Type 0
IsKeyed [] = Unit
IsKeyed (h ∷ hs) = (length h.key ≡ public_key_size) × (has_key h.key hs ≡ false) × IsKeyed hs

pub has_key-touch :
    (k key : List ℕ) (nick : Text) (now : Time) (hs : List KnownHost)
    → has_key k (touch key nick now hs) ≡ has_key k hs
unfolding touch
has_key-touch k key nick now [] = refl
has_key-touch k key nick now (h ∷ hs) = ground (arith, has_key-touch k key nick now hs)

pub touch-IsKeyed :
    (key : List ℕ) (nick : Text) (now : Time) (hs : List KnownHost)
    → IsKeyed hs
    → IsKeyed (touch key nick now hs)
unfolding touch
touch-IsKeyed key nick now [] i = tt
touch-IsKeyed key nick now (h ∷ hs) (l, d, i) = elim (Bool-cases (key_equal h.key key)) [
  | inl e ↦ rw e (l, d, i)
  | inr e ↦
      rw e
        (l, ground (arith, has_key-touch h.key key nick now hs, d), touch-IsKeyed key nick now hs i)
]

pub length-touch :
    (key : List ℕ) (nick : Text) (now : Time) (hs : List KnownHost)
    → length (touch key nick now hs) ≡ length hs
unfolding touch
length-touch key nick now [] = refl
length-touch key nick now (h ∷ hs) = ground (arith, length-touch key nick now hs)

-- What a filter or a drop takes away brings no key back.
pub has_key-filter :
    (p : KnownHost → Bool) (k : List ℕ) (hs : List KnownHost)
    → has_key k hs ≡ false
    → has_key k (filter p hs) ≡ false
has_key-filter p k [] h = refl
has_key-filter p k (x ∷ hs) h = ground (arith, has_key-filter p k hs)

pub filter-IsKeyed :
    (p : KnownHost → Bool) (hs : List KnownHost) → IsKeyed hs → IsKeyed (filter p hs)
filter-IsKeyed p [] i = tt
filter-IsKeyed p (h ∷ hs) (l, d, i) = elim (Bool-cases (p h)) [
  | inl e ↦ rw e (l, has_key-filter p h.key hs d, filter-IsKeyed p hs i)
  | inr e ↦ rw e (filter-IsKeyed p hs i)
]

pub has_key-drop_seen :
    (t : Time) (k : List ℕ) (hs : List KnownHost)
    → has_key k hs ≡ false
    → has_key k (drop_seen t hs) ≡ false
unfolding drop_seen
has_key-drop_seen t k [] h = refl
has_key-drop_seen t k (x ∷ hs) h = ground (arith, has_key-drop_seen t k hs)

pub drop_seen-IsKeyed : (t : Time) (hs : List KnownHost) → IsKeyed hs → IsKeyed (drop_seen t hs)
unfolding drop_seen
drop_seen-IsKeyed t [] i = tt
drop_seen-IsKeyed t (h ∷ hs) (l, d, i) = elim (Bool-cases (nat_beq h.last_seen t)) [
  | inl e ↦ rw e i
  | inr e ↦ rw e (l, has_key-drop_seen t h.key hs d, drop_seen-IsKeyed t hs i)
]
