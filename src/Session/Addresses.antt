-- ===== src/Session/Addresses.antt =====
-- The address that a guest gets (core/usecase/issuecredential.go).
use kanpachi.Base.{
  ℕ, zero, suc, ◌+◌, ◌-◌, ◌*◌, ◌/◌, ◌^◌, ◌≤◌, ◌<◌, Bool, true, false, ◌≡◌, List, arith, nat_beq,
  nat_beq_iff, leb, ok, err, contains, Bool-cases, inl, inr, ◌∙◌, sym, subst,
}
use native.Mathlib.Nat.{div-mul-le_self, lt-div-mul-add, div-eq_of_lt-le, one-le-pow, suc-mul}
use kanpachi.Net.{Addr, no_addr, v4, addr_eq, Prefix, prefix}
use kanpachi.Session.{SessionError, prefix_contains, free_from, next_free_address}

true-false : ¬ (◌≡◌ {A = Bool} true false)
true-false h = cc

-- How many addresses share the bits of a prefix.
abbrev size_of : ℕ → ℕ
size_of bits = 2 ^ (32 - bits)

size-pos : (bits : ℕ) → 0 < size_of bits
size-pos bits = one-le-pow (32 - bits) 2 (omega arith)

module _ (b bits : ℕ) where
  abbrev subnet : Prefix
  subnet = prefix (v4 b) bits

  abbrev low : ℕ
  low = b / size_of bits * size_of bits

  -- The addresses of a prefix are those of an interval.
  contains-to :
      (n : ℕ) → prefix_contains subnet (v4 n) ≡ true → (low ≤ n) × (n < low + size_of bits)
  contains-to n h =
      let e : n / size_of bits ≡ b / size_of bits =
        (nat_beq_iff (n / size_of bits) (b / size_of bits)).0 h in
      let s = size-pos bits in
      (
        subst (λ q. q * size_of bits ≤ n) e (div-mul-le_self n (size_of bits)),
        subst (λ q. n < q * size_of bits + size_of bits) e (lt-div-mul-add s),
      )

  contains-from : (n : ℕ) → low ≤ n → n < low + size_of bits → prefix_contains subnet (v4 n) ≡ true
  contains-from n l u =
      let e : n / size_of bits ≡ b / size_of bits =
        div-eq_of_lt-le (size_of bits) l
          (omega (arith, u, suc-mul (b / size_of bits) (size_of bits))) in
      (nat_beq_iff (n / size_of bits) (b / size_of bits)).1 e

  module _ (taken : List Addr) where
    past_end : (fuel : ℕ) (x : Addr) → ¬ (free_from fuel subnet taken no_addr ≡ ok x)
    unfolding free_from
    past_end zero x h = cc
    past_end (suc fuel) x h = cc

    free_from_ok :
        (fuel c : ℕ) (x : Addr)
        → free_from fuel subnet taken (v4 c) ≡ ok x
        → (n : ℕ) × (x ≡ v4 n)
          × (c ≤ n)
          × (prefix_contains subnet (v4 n) ≡ true)
          × (contains (v4 n) taken ≡ false)
          × ((j : ℕ) → c ≤ j → j < n → contains (v4 j) taken ≡ true)
    unfolding free_from
    free_from_ok zero c x h = cc
    free_from_ok (suc fuel) c x h = elim (Bool-cases (prefix_contains subnet (v4 c))) [
      | inr p ↦ absurd (ground (arith, p, h))
      | inl p ↦ elim (Bool-cases (contains (v4 c) taken)) [
        | inr t ↦
            (c, ground (arith, p, t, h), omega arith, p, t, λ j l u. absurd (omega (arith, l, u)))
        | inl t ↦ elim (Bool-cases (leb (2 ^ 32) (c + 1))) [
          | inl w ↦ absurd (past_end fuel x (ground (arith, p, t, w, h)))
          | inr w ↦
              let (n, e, l, q, f, g) = free_from_ok fuel (c + 1) x (ground (arith, p, t, w, h)) in
              (
                n,
                e,
                omega (arith, l),
                q,
                f,
                λ j a b'. elim (Bool-cases (nat_beq j c)) [
                  | inl y ↦ subst (λ k. contains (v4 k) taken ≡ true) (ground (arith, y)) t
                  | inr y ↦ g j (ground (arith, y, a)) b'
                ],
              )
        ]
      ]
    ]

    free_from_err :
        (fuel c : ℕ) (e : SessionError)
        → free_from fuel subnet taken (v4 c) ≡ err e
        → low ≤ c
        → (j : ℕ) → c ≤ j
        → j < c + fuel
        → j < 2 ^ 32
        → prefix_contains subnet (v4 j) ≡ true
        → contains (v4 j) taken ≡ true
    unfolding free_from
    free_from_err zero c e h l j a u w q = absurd (omega (arith, a, u))
    free_from_err (suc fuel) c e h l j a u w q = elim (Bool-cases (prefix_contains subnet (v4 c))) [
      | inr p ↦
          let (x, y) = contains-to j q in
          absurd (true-false (sym (contains-from c l (omega (arith, a, y))) ∙ p))
      | inl p ↦ elim (Bool-cases (contains (v4 c) taken)) [
        | inr t ↦ absurd (ground (arith, p, t, h))
        | inl t ↦ elim (Bool-cases (nat_beq j c)) [
          | inl y ↦ subst (λ k. contains (v4 k) taken ≡ true) (ground (arith, y)) t
          | inr y ↦
              let z : c + 1 ≤ j = ground (arith, y, a) in
              let v : leb (2 ^ 32) (c + 1) ≡ false = ground (arith, z, w) in
              free_from_err fuel (c + 1) e (ground (arith, p, t, v, h)) (omega (arith, l)) j z
                (omega (arith, u)) w q
        ]
      ]
    ]

-- The address of a guest is the first one of the subnet, from its own address on, that is not
-- taken; where there is an error, all of those are taken.
pub next_free_address_lem :
    (b bits : ℕ) (taken : List Addr)
    → ((x : Addr)
        → next_free_address (prefix (v4 b) bits) taken ≡ ok x
        → (n : ℕ) × (x ≡ v4 n)
          × (b ≤ n)
          × (prefix_contains (prefix (v4 b) bits) (v4 n) ≡ true)
          × (contains (v4 n) taken ≡ false)
          × ((j : ℕ) → b ≤ j → j < n → contains (v4 j) taken ≡ true))
      × ((e : SessionError)
          → next_free_address (prefix (v4 b) bits) taken ≡ err e
          → (j : ℕ) → b ≤ j
          → j < 2 ^ 32
          → prefix_contains (prefix (v4 b) bits) (v4 j) ≡ true
          → contains (v4 j) taken ≡ true)
unfolding next_free_address
next_free_address_lem b bits taken = (
  λ x h. free_from_ok b bits taken (size_of bits) b x h,
  λ e h j a w q.
      let (x, y) = contains-to b bits j q in
      let z = div-mul-le_self b (size_of bits) in
      free_from_err b bits taken (size_of bits) b e h z j a (omega (arith, y, z)) w q,
)
