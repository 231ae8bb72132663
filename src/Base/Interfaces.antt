-- ===== src/Base/Interfaces.antt =====
-- Equality (`==` of Go) and strict order (`<` of Go) as interfaces, with their laws.
use Prim.Native.Nat.{ℕ}
use mathlib.Core.Path.{◌≡◌, refl}
use mathlib.Core.Logic.{◌↔◌, inl, inr}
use mathlib.Core.Bool.{Bool, true, false}
use native.Mathlib.Omega.{arith}
use kanpachi.Base.Tests.{nat_beq, nat_beq_iff, ltb, Bool-cases}

pub record Eq {ℓ} (A : Type ℓ) : Type ℓ where
  pub equal : A → A → Bool
  pub equal_iff : (x y : A) → (equal x y ≡ true) ↔ (x ≡ y)

instance abbrev pub nat_eq : Eq ℕ
nat_eq = record { equal = nat_beq; equal_iff = nat_beq_iff }

-- A strict total order, by its test.
pub record Order {ℓ} (A : Type ℓ) : Type ℓ where
  pub less : A → A → Bool
  pub less_irrefl : (a : A) → less a a ≡ false
  pub less_trans : (a b c : A) → less a b ≡ true → less b c ≡ true → less a c ≡ true
  pub less_connected : (a b : A) → less a b ≡ false → less b a ≡ false → a ≡ b

infix 50 ◌==◌
abbrev pub ◌==◌ {ℓ} : {T : Type ℓ} ⦃same : Eq T⦄ → T → T → Bool
◌==◌ ⦃same⦄ = same.equal

pub nat_irrefl : (a : ℕ) → ltb a a ≡ false
nat_irrefl a = ground arith

pub nat_trans : (a b c : ℕ) → ltb a b ≡ true → ltb b c ≡ true → ltb a c ≡ true
nat_trans a b c h k = ground arith

pub nat_connected : (a b : ℕ) → ltb a b ≡ false → ltb b a ≡ false → a ≡ b
nat_connected a b h k = ground arith

instance abbrev pub nat_order : Order ℕ
nat_order = record {
  less = ltb;
  less_irrefl = nat_irrefl;
  less_trans = nat_trans;
  less_connected = nat_connected;
}

module _ {ℓ} {A : Type ℓ} ⦃e : Eq A⦄ where
  pub eq_refl : (a : A) → (a == a) ≡ true
  eq_refl a = (e.equal_iff a a).1 refl

  pub ne_of_eq_false : (a b : A) → (a == b) ≡ false → a ≡ b → ⊥
  ne_of_eq_false a b h p = ground (arith, (e.equal_iff a b).1 p)

module _ {ℓ} {A : Type ℓ} ⦃o : Order A⦄ where
  pub less_asymm : (a b : A) → o.less a b ≡ true → o.less b a ≡ false
  less_asymm a b h = elim (Bool-cases (o.less b a)) [
    | inl k ↦ ground (arith, o.less_trans a b a h k, o.less_irrefl a)
    | inr k ↦ k
  ]

  -- What is not below `b`, where `b` is not below `a`, is not below `a`.
  pub not_less_trans : (a b c : A) → o.less b a ≡ false → o.less c b ≡ false → o.less c a ≡ false
  not_less_trans a b c h k = elim (Bool-cases (o.less c a)) [
    | inr q ↦ q
    | inl q ↦ elim (Bool-cases (o.less a b)) [
      | inl r ↦ ground (arith, o.less_trans c a b q r)
      | inr r ↦ rw (← o.less_connected a b r h) at k
    ]
  ]
