-- ===== src/Nfs4/Flags.antt =====
-- What `generate_inherited_acl` makes of the flags of an entry, digit by digit.
use truenas_pyos.Prelude.{
  ℕ, ◌-◌, ◌^◌, ◌<◌, ◌≡◌, refl, bit_or, Bool, true, false, not, ◌&&◌, ◌||◌, ltb, leb, arith, ◌==◌,
  ==_iff, holds_below, holds_below-at, Bool-cases, inl, inr, if◌then◌else◌,
}
use truenas_pyos.Prelude.Bits.{
  bit, single, flag_set, bit-le-one, bit-bit_and, bit-bit_or, flag_set-single,
}
use truenas_pyos.Nfs4.Inherit.{clear_bits, inherited_flags}
use truenas_pyos.Nfs4.Types.{inherit_mask, inherit_only_ace, inherited_ace}

-- The digits that the code's masks select.
pub flag_set-file_inherit : (f : ℕ) → flag_set f 0x1 ≡ (bit 0 f == 1)
unfolding single
flag_set-file_inherit f = flag_set-single 0 f

pub flag_set-directory_inherit : (f : ℕ) → flag_set f 0x2 ≡ (bit 1 f == 1)
unfolding single
flag_set-directory_inherit f = flag_set-single 1 f

pub flag_set-no_propagate : (f : ℕ) → flag_set f 0x4 ≡ (bit 2 f == 1)
unfolding single
flag_set-no_propagate f = flag_set-single 2 f

pub flag_set-inherit_only : (f : ℕ) → flag_set f 0x8 ≡ (bit 3 f == 1)
unfolding single
flag_set-inherit_only f = flag_set-single 3 f

table :
    (c : ℕ) (p : ℕ → ℕ)
    → holds_below (λ k. bit k c == p k) 32 ≡ true
    → (k : ℕ) → k < 32
    → bit k c ≡ p k
table c p h k lt = (==_iff (bit k c) (p k)).0 (holds_below-at (λ j. bit j c == p j) 32 k lt h)

abbrev is_digit : ℕ → ℕ → ℕ
is_digit j k = if k == j then 1 else 0

abbrev not_digit : ℕ → ℕ → ℕ
not_digit j k = if k == j then 0 else 1

abbrev above : ℕ → ℕ
above k = if ltb k 4 then 0 else 1

bit-inherited : (k : ℕ) → k < 32 → bit k 0x80 ≡ is_digit 7 k
unfolding holds_below bit
bit-inherited = table 0x80 (is_digit 7) refl

bit-inherit_only : (k : ℕ) → k < 32 → bit k 0x8 ≡ is_digit 3 k
unfolding holds_below bit
bit-inherit_only = table 0x8 (is_digit 3) refl

bit-not_inherit_only : (k : ℕ) → k < 32 → bit k (2 ^ 32 - 1 - 0x8) ≡ not_digit 3 k
unfolding holds_below bit
bit-not_inherit_only = table (2 ^ 32 - 1 - 0x8) (not_digit 3) refl

bit-not_inherit_mask : (k : ℕ) → k < 32 → bit k (2 ^ 32 - 1 - 0xf) ≡ above k
unfolding holds_below bit
bit-not_inherit_mask = table (2 ^ 32 - 1 - 0xf) above refl

bit-cleared :
    (f k : ℕ)
    → k < 32
    → bit k (bit_or (clear_bits f inherit_only_ace) inherited_ace)
      ≡ (if k == 7 then 1 else if k == 3 then 0 else bit k f)
bit-cleared f k lt = ground (
  arith,
  bit-bit_or k (clear_bits f inherit_only_ace) inherited_ace,
  bit-bit_and k f (2 ^ 32 - 1 - 0x8),
  bit-inherited k lt,
  bit-not_inherit_only k lt,
  bit-le-one k f,
)

bit-kept :
    (f k : ℕ)
    → k < 32
    → bit k (bit_or (bit_or f inherit_only_ace) inherited_ace)
      ≡ (if k == 7 then 1 else if k == 3 then 1 else bit k f)
bit-kept f k lt = ground (
  arith,
  bit-bit_or k (bit_or f inherit_only_ace) inherited_ace,
  bit-bit_or k f inherit_only_ace,
  bit-inherited k lt,
  bit-inherit_only k lt,
  bit-le-one k f,
)

bit-stripped :
    (f k : ℕ)
    → k < 32
    → bit k (bit_or (clear_bits f inherit_mask) inherited_ace)
      ≡ (if k == 7 then 1 else if ltb k 4 then 0 else bit k f)
bit-stripped f k lt = ground (
  arith,
  bit-bit_or k (clear_bits f inherit_mask) inherited_ace,
  bit-bit_and k f (2 ^ 32 - 1 - 0xf),
  bit-inherited k lt,
  bit-not_inherit_mask k lt,
  bit-le-one k f,
)

-- Digit k of the flags that a child gets, by the documented rules. Digits 0 to 3 are FILE_INHERIT,
-- DIRECTORY_INHERIT, NO_PROPAGATE_INHERIT and INHERIT_ONLY, and 7 is INHERITED.
abbrev pub keeps_propagating : ℕ → Bool
keeps_propagating f = bit 2 f == 0 || (bit 3 f == 1 && bit 0 f == 1)

abbrev pub applies_to_files_only : ℕ → Bool
applies_to_files_only f = bit 2 f == 0 && bit 1 f == 0

abbrev pub child_digit : Bool → ℕ → ℕ → ℕ
child_digit is_dir f k =
    if k == 7
    then 1
    else if leb 4 k
    then bit k f
    else if not is_dir
    then 0
    else if k == 3
    then (if applies_to_files_only f then 1 else 0)
    else if keeps_propagating f
    then bit k f
    else 0

-- The three ways in which the flags of a directory's entry change, and when each is taken.
data Change (f : ℕ) : Type 0 where
  cleared :
      inherited_flags true f ≡ bit_or (clear_bits f inherit_only_ace) inherited_ace
      → keeps_propagating f ≡ true
      → applies_to_files_only f ≡ false
      → Change f
  kept :
      inherited_flags true f ≡ bit_or (bit_or f inherit_only_ace) inherited_ace
      → keeps_propagating f ≡ true
      → applies_to_files_only f ≡ true
      → Change f
  stripped :
      inherited_flags true f ≡ bit_or (clear_bits f inherit_mask) inherited_ace
      → keeps_propagating f ≡ false
      → applies_to_files_only f ≡ false
      → Change f

change : (f : ℕ) → Change f
unfolding inherited_flags
change f = elim (Bool-cases (bit 2 f == 1)) [
  | inl np ↦
      let two : bit 2 f ≡ 1 = ground arith in
      elim (Bool-cases (bit 3 f == 1)) [
        | inl io ↦ elim (Bool-cases (bit 0 f == 1)) [
          | inl fi ↦ cleared (rw (fp, fo, ff, np, io, fi)) (rw (two, io, fi)) (rw two)
          | inr fi ↦ stripped (rw (fp, fo, ff, np, io, fi)) (rw (two, io, fi)) (rw two)
        ]
        | inr io ↦ stripped (rw (fp, fo, np, io)) (rw (two, io)) (rw two)
      ]
  | inr np ↦
      let two : bit 2 f ≡ 0 = ground (arith, bit-le-one 2 f) in
      elim (Bool-cases (bit 1 f == 1)) [
        | inl di ↦
            let one : bit 1 f ≡ 1 = ground arith in
            cleared (rw (fp, fd, np, di)) (rw two) (rw (two, one))
        | inr di ↦
            let one : bit 1 f ≡ 0 = ground (arith, bit-le-one 1 f) in
            kept (rw (fp, fd, np, di)) (rw two) (rw (two, one))
      ]
]
  where
    fp : flag_set f 0x4 ≡ (bit 2 f == 1)
    fp = flag_set-no_propagate f

    fo : flag_set f 0x8 ≡ (bit 3 f == 1)
    fo = flag_set-inherit_only f

    ff : flag_set f 0x1 ≡ (bit 0 f == 1)
    ff = flag_set-file_inherit f

    fd : flag_set f 0x2 ≡ (bit 1 f == 1)
    fd = flag_set-directory_inherit f

bit-inherited_dir :
    (f k : ℕ) → k < 32 → Change f → bit k (inherited_flags true f) ≡ child_digit true f k
bit-inherited_dir f k lt (cleared e p a) = rw (e, bit-cleared f k lt, p, a) (ground arith)
bit-inherited_dir f k lt (kept e p a) = rw (e, bit-kept f k lt, p, a) (ground arith)
bit-inherited_dir f k lt (stripped e p a) = rw (e, bit-stripped f k lt, p, a) (ground arith)

-- Every digit of the inherited flags is the one that the documented rules give.
pub bit-inherited_flags :
    (is_dir : Bool) (f k : ℕ) → k < 32 → bit k (inherited_flags is_dir f) ≡ child_digit is_dir f k
unfolding inherited_flags
bit-inherited_flags true f k lt = bit-inherited_dir f k lt (change f)
bit-inherited_flags false f k lt = rw (bit-stripped f k lt) (ground arith)
