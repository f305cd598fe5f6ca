-- ===== src/Prelude/Int.antt =====
-- Signed integers over the native numbers, and their casts to C's `uint32_t` and `uint64_t`.
use truenas_pyos.Prelude.{ℕ, ◌-◌, ◌^◌, ◌%◌, ◌≡◌, Bool, true, false, ltb, arith, ◌==◌}

-- `negsuc n` is -(n + 1).
pub data ℤ : Type 0 where
  pos : ℕ → ℤ
  negsuc : ℕ → ℤ

abbrev pub minus_one : ℤ
minus_one = negsuc 0

-- The cast of a two's complement number to w bits.
abbrev pub wrap : ℕ → ℤ → ℕ
wrap w (pos n) = n % 2 ^ w
wrap w (negsuc n) = 2 ^ w - 1 - n % 2 ^ w

-- (uint32_t)z, (uint16_t)z and (uint64_t)z.
abbrev pub u16_of : ℤ → ℕ
u16_of z = wrap 16 z

abbrev pub u32_of : ℤ → ℕ
u32_of z = wrap 32 z

abbrev pub u64_of : ℤ → ℕ
u64_of z = wrap 64 z

-- The range of C's `long`, 64 bits.
abbrev pub fits_long : ℤ → Bool
fits_long (pos n) = ltb n (2 ^ 63)
fits_long (negsuc n) = ltb n (2 ^ 63)

abbrev pub ltb_ℤ : ℤ → ℤ → Bool
ltb_ℤ (pos a) (pos b) = ltb a b
ltb_ℤ (pos a) (negsuc b) = false
ltb_ℤ (negsuc a) (pos b) = true
ltb_ℤ (negsuc a) (negsuc b) = ltb b a

abbrev pub eqb_ℤ : ℤ → ℤ → Bool
eqb_ℤ (pos a) (pos b) = a == b
eqb_ℤ (negsuc a) (negsuc b) = a == b
eqb_ℤ (pos a) (negsuc b) = false
eqb_ℤ (negsuc a) (pos b) = false

pub eqb_ℤ→eq : (a b : ℤ) → eqb_ℤ a b ≡ true → a ≡ b
eqb_ℤ→eq a b h = ground arith
