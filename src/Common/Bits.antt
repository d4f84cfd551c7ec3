-- ===== src/Common/Bits.antt =====
-- Laws of `bit_and` and `bit_or` for masks and disjoint fields of any width.
use Prim.Native.Nat.{
  ℕ, zero, suc, ◌+◌, ◌-◌, ◌*◌, ◌/◌, ◌%◌, ◌^◌, ◌≤◌, ◌<◌, min, max, bit_and, bit_or, digits,
  bit_and-bitwise, bit_or-bitwise,
}
use mathlib.Core.Path.{◌≡◌, refl, ◌∙◌, sym, ap}
use native.Mathlib.Nat.{
  pow-suc, one-le-pow, mod-lt, mod-eq_of_lt, div-add-mod, div-add-mod', mul-add-mod_self_left,
  div-div-eq-div-mul, mul_comm,
}
use native.Mathlib.Omega.{arith}

-- More rounds than the first number has digits change nothing.
module _ (z : ℕ → ℕ) (f : ℕ → ℕ → ℕ) where
  digits_enough : (n m a b : ℕ) → a ≤ n → a ≤ m → digits z f n a b ≡ digits z f m a b
  digits_enough zero zero a b p q = refl
  digits_enough zero (suc m) zero b p q = refl
  digits_enough zero (suc m) (suc a) b p q = absurd (omega arith)
  digits_enough (suc n) zero zero b p q = refl
  digits_enough (suc n) zero (suc a) b p q = absurd (omega arith)
  digits_enough (suc n) (suc m) zero b p q = refl
  digits_enough (suc n) (suc m) (suc a) b p q =
      ap (λ (t : ℕ). t * 2 + f (suc a % 2) (b % 2))
        (digits_enough n m (suc a / 2) (b / 2) (omega arith) (omega arith))

pub bit_or-zero_left : (b : ℕ) → bit_or 0 b ≡ b
bit_or-zero_left b = bit_or-bitwise 0 b

pub bit_and-zero_left : (b : ℕ) → bit_and 0 b ≡ 0
bit_and-zero_left b = bit_and-bitwise 0 b

-- The lowest digit of a disjunction.
bit_or_digit : (a b : ℕ) → bit_or a b ≡ bit_or (a / 2) (b / 2) * 2 + max (a % 2) (b % 2)
bit_or_digit zero b = omega (arith, bit_or-zero_left b, bit_or-zero_left (b / 2))
bit_or_digit (suc a) b =
    let enough =
      digits_enough (λ (t : ℕ). t) max a (suc a / 2) (suc a / 2) (b / 2) (omega arith)
        (omega arith) in
    omega (arith, bit_or-bitwise (suc a) b, bit_or-bitwise (suc a / 2) (b / 2), enough)

-- The lowest digit of a conjunction.
bit_and_digit : (x y : ℕ) → bit_and x y ≡ min (x % 2) (y % 2) + bit_and (x / 2) (y / 2) * 2
bit_and_digit zero b = omega (arith, bit_and-zero_left b, bit_and-zero_left (b / 2))
bit_and_digit (suc a) b =
    let enough =
      digits_enough (λ (t : ℕ). 0) min a (suc a / 2) (suc a / 2) (b / 2) (omega arith)
        (omega arith) in
    omega (arith, bit_and-bitwise (suc a) b, bit_and-bitwise (suc a / 2) (b / 2), enough)

bit_or-zero_fuel : (n a : ℕ) → a ≤ n → bit_or a 0 ≡ a
bit_or-zero_fuel n zero h = bit_or-zero_left 0
bit_or-zero_fuel zero (suc a) h = absurd (omega arith)
bit_or-zero_fuel (suc n) (suc a) h =
    omega (arith, bit_or_digit (suc a) 0, bit_or-zero_fuel n (suc a / 2) (omega arith))

bit_and-zero_fuel : (n a : ℕ) → a ≤ n → bit_and a 0 ≡ 0
bit_and-zero_fuel n zero h = bit_and-zero_left 0
bit_and-zero_fuel zero (suc a) h = absurd (omega arith)
bit_and-zero_fuel (suc n) (suc a) h =
    omega (arith, bit_and_digit (suc a) 0, bit_and-zero_fuel n (suc a / 2) (omega arith))

pub bit_or-zero_right : (a : ℕ) → bit_or a 0 ≡ a
bit_or-zero_right a = bit_or-zero_fuel a a (omega arith)

pub bit_and-zero_right : (a : ℕ) → bit_and a 0 ≡ 0
bit_and-zero_right a = bit_and-zero_fuel a a (omega arith)

-- Setting the lowest bit.
pub bit_or-one : (a : ℕ) → bit_or a 1 ≡ a / 2 * 2 + 1
bit_or-one a = omega (arith, bit_or_digit a 1, bit_or-zero_right (a / 2))

-- One digit at a time: an even left operand, an odd or even right operand.
bit_or_even : (q lo : ℕ) → bit_or (q * 2) lo ≡ bit_or q (lo / 2) * 2 + lo % 2
bit_or_even q lo =
    let e : q * 2 / 2 ≡ q = omega arith in
    let d = bit_or_digit (q * 2) lo in omega (arith, rw e at d)

bit_and_even : (x m : ℕ) → bit_and x (m * 2) ≡ bit_and (x / 2) m * 2
bit_and_even x m =
    let e : m * 2 / 2 ≡ m = omega arith in
    let d = bit_and_digit x (m * 2) in omega (arith, rw e at d)

bit_and_odd : (x m : ℕ) → bit_and x (m * 2 + 1) ≡ bit_and (x / 2) m * 2 + x % 2
bit_and_odd x m =
    let e : (m * 2 + 1) / 2 ≡ m = omega arith in
    let d = bit_and_digit x (m * 2 + 1) in omega (arith, rw e at d)

-- `(hi << k) | lo` is a sum where `lo` has at most k bits.
pub bit_or_fields : (k hi lo : ℕ) → lo < 2 ^ k → bit_or (hi * 2 ^ k) lo ≡ hi * 2 ^ k + lo
bit_or_fields zero hi lo h =
    let e : lo ≡ 0 = omega arith in rw e (bit_or-zero_right (hi * 1) ∙ omega arith)
bit_or_fields (suc k) hi lo h =
    let e : hi * 2 ^ suc k ≡ hi * 2 ^ k * 2 = rw pow-suc (omega arith) in
    rw e (
      omega (
        arith,
        bit_or_even (hi * 2 ^ k) lo,
        bit_or_fields k hi (lo / 2) (omega (arith, pow-suc 2 k)),
      ))

-- The same where the high part is given as an aligned word.
pub bit_or_aligned : (k x lo : ℕ) → x % 2 ^ k ≡ 0 → lo < 2 ^ k → bit_or x lo ≡ x + lo
bit_or_aligned k x lo aligned h =
    let whole : x / 2 ^ k * 2 ^ k ≡ x = omega (arith, div-add-mod' x (2 ^ k)) in
    rw whole at (bit_or_fields k (x / 2 ^ k) lo h)

-- Taking one digit off the remainder, where the modulus is even.
mod-halve : (x p : ℕ) → 0 < p → x / 2 % p * 2 + x % 2 ≡ x % (p * 2)
mod-halve x p h =
    let whole : x ≡ p * 2 * (x / 2 / p) + (x / 2 % p * 2 + x % 2) =
      omega (arith, ap (λ (t : ℕ). t * 2) (div-add-mod (x / 2) p)) in
    let small : x / 2 % p * 2 + x % 2 < p * 2 = omega (arith, mod-lt (x / 2) h) in
    sym (
      ap (λ (t : ℕ). t % (p * 2)) whole
      ∙ mul-add-mod_self_left (p * 2) (x / 2 / p) (x / 2 % p * 2 + x % 2)
      ∙ mod-eq_of_lt small)

-- `x & (2^k - 1)` keeps the k low bits.
pub bit_and_mask : (k x : ℕ) → bit_and x (2 ^ k - 1) ≡ x % 2 ^ k
bit_and_mask zero x = bit_and-zero_right x ∙ omega arith
bit_and_mask (suc k) x =
    let e : 2 ^ suc k - 1 ≡ (2 ^ k - 1) * 2 + 1 =
      omega (arith, pow-suc 2 k, one-le-pow k 2 (omega arith)) in
    rw e (
      bit_and_odd x (2 ^ k - 1)
      ∙ (ap (λ (t : ℕ). t * 2 + x % 2) (bit_and_mask k (x / 2))
          ∙ mod-halve x (2 ^ k) (one-le-pow k 2 (omega arith))
          ∙ rw pow-suc))

-- `x & (m << k)` clears the k low bits and masks the rest.
pub bit_and_high : (k x m : ℕ) → bit_and x (m * 2 ^ k) ≡ bit_and (x / 2 ^ k) m * 2 ^ k
bit_and_high zero x m =
    let e : m * 2 ^ 0 ≡ m = omega arith in
    let d : x / 2 ^ 0 ≡ x = omega arith in rw (e, d) (omega arith)
bit_and_high (suc k) x m =
    let e : m * 2 ^ suc k ≡ m * 2 ^ k * 2 = rw pow-suc (omega arith) in
    let d : x / 2 ^ suc k ≡ x / 2 / 2 ^ k =
      rw (pow-suc, mul_comm (2 ^ k) 2) (sym (div-div-eq-div-mul x 2 (2 ^ k))) in
    rw (e, d)
      (bit_and_even x (m * 2 ^ k)
        ∙ ap (λ (t : ℕ). t * 2) (bit_and_high k (x / 2) m)
        ∙ rw pow-suc (omega arith))
