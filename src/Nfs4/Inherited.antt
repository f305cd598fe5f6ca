-- ===== src/Nfs4/Inherited.antt =====
-- src/cext/os/nfs4acl.c: which entries a child inherits and what becomes of their flags, digit by digit.
use truenas_pyos.Prelude.{
  filter, ◌==◌, ◌||◌, ◌&&◌, true, false, ℕ, ◌^◌, ◌<◌, ◌≡◌, refl, Bool, List, [], ◌∷◌, map, All,
  arith,
}
use truenas_pyos.Nfs4.Children.{child, child-IsRaw, inheritable}
use truenas_pyos.Prelude.Bits.{bit, bit-le-one, bit_and_three}
use truenas_pyos.Nfs4.Flags.{bit-inherited_flags, child_digit, flag_set-file_inherit}
use truenas_pyos.Nfs4.Inherit.{ace_is_inheritable}
use truenas_pyos.Nfs4.Slot.{RawAce}
use truenas_pyos.Nfs4.Wire.{IsRaw}

-- An entry that children of that kind get: FILE_INHERIT, or for a directory DIRECTORY_INHERIT too.
abbrev pub inherits : Bool → RawAce → Bool
inherits is_dir r = bit 0 r.flags_word == 1 || (is_dir && bit 1 r.flags_word == 1)

-- The entry of a child and the one of its parent: the flags by digits, and the other words unchanged.
abbrev pub IsInherited : Bool → RawAce → RawAce → Type 0
IsInherited is_dir r c =
    ((k : ℕ) → k < 32 → bit k c.flags_word ≡ child_digit is_dir r.flags_word k)
    × (c.flags_word < 2 ^ 32)
    × (c.type_word ≡ r.type_word)
    × (c.iflag_word ≡ r.iflag_word)
    × (c.mask_word ≡ r.mask_word)
    × (c.who_word ≡ r.who_word)

-- Two lists of entries, place by place.
abbrev pub AreInherited : Bool → List RawAce → List RawAce → Type 0
AreInherited is_dir [] [] = Unit
AreInherited is_dir (r ∷ rs) (c ∷ cs) = IsInherited is_dir r c × AreInherited is_dir rs cs
AreInherited is_dir _ _ = ⊥

ace_is_inheritable-inherits :
    (is_dir : Bool) (r : RawAce) → ace_is_inheritable r.flags_word is_dir ≡ inherits is_dir r
unfolding ace_is_inheritable
ace_is_inheritable-inherits true r =
    let f = r.flags_word in ground (arith, bit_and_three f, bit-le-one 0 f, bit-le-one 1 f)
ace_is_inheritable-inherits false r =
    let f = r.flags_word in ground (arith, flag_set-file_inherit f)

pub inheritable-inherits :
    (is_dir : Bool) (rs : List RawAce) → inheritable is_dir rs ≡ filter (inherits is_dir) rs
inheritable-inherits is_dir [] = refl
inheritable-inherits is_dir (r ∷ rs) =
    rw (ace_is_inheritable-inherits is_dir r, inheritable-inherits is_dir rs) refl

pub children-AreInherited :
    (is_dir : Bool) (rs : List RawAce)
    → All IsRaw rs
    → AreInherited is_dir rs (map (child is_dir) rs)
children-AreInherited is_dir [] h = tt
children-AreInherited is_dir (r ∷ rs) h = (
  (
    bit-inherited_flags is_dir r.flags_word,
    (child-IsRaw is_dir r h.0).flags_fits,
    refl,
    refl,
    refl,
    refl,
  ),
  children-AreInherited is_dir rs h.1,
)
