-- ===== src/Prelude/Bits.antt =====
-- The binary digits of a number, and what `&` and `|` do to them.
use Prim.Native.Nat.{digits, bitwise, bit_and-bitwise, bit_or-bitwise}
use native.Mathlib.Nat.{le_refl}
use truenas_pyos.Prelude.{
  ℕ, zero, suc, ◌+◌, ◌-◌, sym, ◌*◌, ◌/◌, ◌%◌, ◌^◌, ◌≤◌, ◌<◌, min, max, bit_and, bit_or, ◌≡◌, ◌⊎◌,
  refl, Bool, not, arith, ◌==◌,
}

-- `bitwise` runs `digits` on its first argument as fuel. A round more changes nothing, so the fuel
-- can go down to the half of the argument, which gives an equation for the lowest digit.
module _ (last : ℕ → ℕ) (op : ℕ → ℕ → ℕ) where
  digits-suc : (fuel x y : ℕ) → x ≤ fuel → digits last op (suc fuel) x y ≡ digits last op fuel x y
  digits-suc zero zero y h = refl
  digits-suc zero (suc x) y h = absurd (omega arith)
  digits-suc (suc fuel) zero y h = refl
  digits-suc (suc fuel) (suc x) y h = rw (digits-suc fuel (suc x / 2) (y / 2) (omega arith)) refl

  digits-add :
      (extra total fuel x y : ℕ)
      → x ≤ fuel
      → total ≡ extra + fuel
      → digits last op total x y ≡ digits last op fuel x y
  digits-add zero total fuel x y h e = let same : total ≡ fuel = omega arith in rw same refl
  digits-add (suc extra) total fuel x y h e =
      let next : total ≡ suc (extra + fuel) = omega arith in
      rw (next, digits-suc (extra + fuel) x y (omega arith))
        (digits-add extra (extra + fuel) fuel x y h refl)

  bitwise-halves :
      (x y : ℕ)
      → bitwise last op (suc x) y ≡ bitwise last op (suc x / 2) (y / 2) * 2 + op (suc x % 2) (y % 2)
  bitwise-halves x y =
      let half = suc x / 2 in
      rw (sym (digits-add (x - half) x half half (y / 2) (omega arith) (omega arith))) refl

bit_and_step : (a b : ℕ) → bit_and a b ≡ bit_and (a / 2) (b / 2) * 2 + min (a % 2) (b % 2)
bit_and_step zero y = simp bit_and-bitwise (omega arith)
bit_and_step (suc x) y = simp bit_and-bitwise (bitwise-halves (λ _. 0) min x y)

bit_or_step : (a b : ℕ) → bit_or a b ≡ bit_or (a / 2) (b / 2) * 2 + max (a % 2) (b % 2)
bit_or_step zero y = simp bit_or-bitwise (omega arith)
bit_or_step (suc x) y = simp bit_or-bitwise (bitwise-halves (λ c. c) max x y)

-- The k-th binary digit.
unfoldable pub bit : ℕ → ℕ → ℕ
bit zero x = x % 2
bit (suc k) x = bit k (x / 2)

pub bit-le-one : (k x : ℕ) → bit k x ≤ 1
unfolding bit
bit-le-one zero x = omega arith
bit-le-one (suc k) x = bit-le-one k (x / 2)

pub bit-bit_and : (k a b : ℕ) → bit k (bit_and a b) ≡ min (bit k a) (bit k b)
unfolding bit
bit-bit_and zero a b = omega (arith, bit_and_step a b)
bit-bit_and (suc k) a b =
    let e : bit_and a b / 2 ≡ bit_and (a / 2) (b / 2) = omega (arith, bit_and_step a b) in
    rw e (bit-bit_and k (a / 2) (b / 2))

pub bit-bit_or : (k a b : ℕ) → bit k (bit_or a b) ≡ max (bit k a) (bit k b)
unfolding bit
bit-bit_or zero a b = omega (arith, bit_or_step a b)
bit-bit_or (suc k) a b =
    let e : bit_or a b / 2 ≡ bit_or (a / 2) (b / 2) = omega (arith, bit_or_step a b) in
    rw e (bit-bit_or k (a / 2) (b / 2))

pub bit_and-zero : (k a : ℕ) → a ≤ k → bit_and a 0 ≡ 0
bit_and-zero k zero h = refl
bit_and-zero zero (suc a) h = absurd (omega arith)
bit_and-zero (suc k) (suc a) h =
    omega (arith, bit_and_step (suc a) 0, bit_and-zero k (suc a / 2) (omega arith))

-- 2 ^ k, by doubling.
unfoldable pub single : ℕ → ℕ
single zero = 1
single (suc k) = single k * 2

pub bit_and-single : (k a : ℕ) → bit_and a (single k) ≡ bit k a * single k
unfolding single bit
bit_and-single zero a = omega (arith, bit_and_step a 1, bit_and-zero (a / 2) (a / 2) (le_refl _))
bit_and-single (suc k) a =
    let e : single k * 2 / 2 ≡ single k = omega arith in
    rw (bit_and_step a (single k * 2), e, bit_and-single k (a / 2)) (omega arith)

single-pos : (k : ℕ) → 0 < single k
unfolding single
single-pos zero = omega arith
single-pos (suc k) = omega (arith, single-pos k)

-- `(x & m) != 0`.
abbrev pub flag_set : ℕ → ℕ → Bool
flag_set x m = not (bit_and x m == 0)

pub flag_set-single : (k x : ℕ) → flag_set x (single k) ≡ (bit k x == 1)
flag_set-single k x = ground (arith, bit_and-single k x, single-pos k, bit-le-one k x)

pub bit_or-lt : (k a b : ℕ) → a < single k → b < single k → bit_or a b < single k
unfolding single
bit_or-lt zero zero zero h g = omega arith
bit_or-lt zero (suc a) b h g = absurd (omega arith)
bit_or-lt zero zero (suc b) h g = absurd (omega arith)
bit_or-lt (suc k) a b h g =
    omega (arith, bit_or_step a b, bit_or-lt k (a / 2) (b / 2) (omega arith) (omega arith))

bit_and-le_fuel : (n a b : ℕ) → a ≤ n → bit_and a b ≤ a
bit_and-le_fuel n zero b h = omega (arith, bit_and-bitwise 0 b)
bit_and-le_fuel zero (suc a) b h = absurd (omega arith)
bit_and-le_fuel (suc n) (suc a) b h =
    omega (arith, bit_and_step (suc a) b, bit_and-le_fuel n (suc a / 2) (b / 2) (omega arith))

pub bit_and-le : (a b : ℕ) → bit_and a b ≤ a
bit_and-le a b = bit_and-le_fuel a a b (le_refl a)

pub bit_or-lt_32 : (a b : ℕ) → a < 2 ^ 32 → b < 2 ^ 32 → bit_or a b < 2 ^ 32
unfolding single
bit_or-lt_32 a b h g = bit_or-lt 32 a b h g

pub bit-cases : (k x : ℕ) → (bit k x ≡ 0) ⊎ (bit k x ≡ 1)
bit-cases k x = omega (arith, bit-le-one k x)

-- The masks of two and of four low digits.
pub bit_and_three : (x : ℕ) → bit_and x 0x3 ≡ bit 0 x + 2 * bit 1 x
unfolding bit
bit_and_three x = omega (
  arith,
  bit_and_step x 3,
  bit_and_step (x / 2) 1,
  bit_and-zero (x / 2 / 2) (x / 2 / 2) (le_refl _),
)

pub bit_and_fifteen : (x : ℕ) → bit_and x 0xf ≡ bit 0 x + 2 * bit 1 x + 4 * bit 2 x + 8 * bit 3 x
unfolding bit
bit_and_fifteen x = omega (
  arith,
  bit_and_step x 15,
  bit_and_step (x / 2) 7,
  bit_and_step (x / 2 / 2) 3,
  bit_and_step (x / 2 / 2 / 2) 1,
  bit_and-zero (x / 2 / 2 / 2 / 2) (x / 2 / 2 / 2 / 2) (le_refl _),
)

pub bit_and_seven-le : (x : ℕ) → bit_and x 7 ≤ 7
bit_and_seven-le x = omega (
  arith,
  bit_and_step x 7,
  bit_and_step (x / 2) 3,
  bit_and_step (x / 2 / 2) 1,
  bit_and-zero (x / 2 / 2 / 2) (x / 2 / 2 / 2) (le_refl _),
)

pub bit_and_seven : (x : ℕ) → bit_and x 7 ≡ x % 2 ^ 3
bit_and_seven x = omega (
  arith,
  bit_and_step x 7,
  bit_and_step (x / 2) 3,
  bit_and_step (x / 2 / 2) 1,
  bit_and-zero (x / 2 / 2 / 2) (x / 2 / 2 / 2) (le_refl _),
)
