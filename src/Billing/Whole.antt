-- ===== src/Billing/Whole.antt =====
-- Whole numbers as the numbers of a price: the interface of Price can be met.
use veloera.Base.{
  ℕ, suc, ◌*◌, ◌≡◌, refl, true, false, ℤ, pos, negsuc, ◌+ℤ◌, ◌-ℤ◌, leb_ℤ, eqb_ℤ, arith, sub_ℕ,
}
use veloera.Billing.Price.{Numbers}

abbrev pub neg : ℕ → ℤ
neg n = sub_ℕ 0 n

abbrev pub mul_ℤ : ℤ → ℤ → ℤ
mul_ℤ (pos a) (pos b) = pos (a * b)
mul_ℤ (pos a) (negsuc b) = neg (a * suc b)
mul_ℤ (negsuc a) (pos b) = neg (suc a * b)
mul_ℤ (negsuc a) (negsuc b) = pos (suc a * suc b)

is_zero-pos : (n : ℕ) → n ≡ 0 → eqb_ℤ (pos n) (pos 0) ≡ true
is_zero-pos n e = rw e refl

is_zero-neg : (n : ℕ) → n ≡ 0 → eqb_ℤ (neg n) (pos 0) ≡ true
is_zero-neg n e = rw e refl

pub zero-mul_ℤ : (x y : ℤ) → eqb_ℤ x (pos 0) ≡ true → true ≡ true → eqb_ℤ (mul_ℤ x y) (pos 0) ≡ true
zero-mul_ℤ (pos a) (pos b) z f = is_zero-pos (a * b) (grind arith)
zero-mul_ℤ (pos a) (negsuc b) z f = is_zero-neg (a * suc b) (grind arith)
zero-mul_ℤ (negsuc a) y z f = ground arith

pub mul_ℤ-zero : (x y : ℤ) → true ≡ true → eqb_ℤ y (pos 0) ≡ true → eqb_ℤ (mul_ℤ x y) (pos 0) ≡ true
mul_ℤ-zero (pos a) (pos b) f z = is_zero-pos (a * b) (grind arith)
mul_ℤ-zero (negsuc a) (pos b) f z = is_zero-neg (suc a * b) (grind arith)
mul_ℤ-zero x (negsuc b) f z = ground arith

pub zero_le_ℤ : (x : ℤ) → eqb_ℤ x (pos 0) ≡ true → leb_ℤ x (pos 0) ≡ true
zero_le_ℤ x z = ground arith

pub zero_is_ℤ : (x : ℤ) → eqb_ℤ x (pos 0) ≡ true → x ≡ pos 0
zero_is_ℤ x z = ground arith

pub positive_ℤ :
    (x : ℤ)
    → leb_ℤ x (pos 0) ≡ false
    → true ≡ true
    → (leb_ℤ (pos 0) x ≡ true) × (leb_ℤ (pos 0) x ≡ true)
positive_ℤ x more f = ground arith

abbrev pub whole : Numbers
whole = record {
  Num = ℤ;
  new_from_int = λ i. i;
  add = λ x y. x +ℤ y;
  sub = λ x y. x -ℤ y;
  mul = mul_ℤ;
  is_zero = λ x. eqb_ℤ x (pos 0);
  le_zero = λ x. leb_ℤ x (pos 0);
  round = λ x. x;
  int_part = λ x. x;
  is_finite = λ x. true;
  fits = λ x. true;
  zero-mul = zero-mul_ℤ;
  mul-zero = mul_ℤ-zero;
  zero_le_zero = zero_le_ℤ;
  zero_int_part = zero_is_ℤ;
  zero_round = λ x z. z;
  positive_int_part = positive_ℤ;
  one_int_part = (refl, refl);
}
