-- ===== src/Nfs4/Children.antt =====
-- src/cext/os/nfs4acl.c: the entries that a child inherits, and the slots they are written to.
use truenas_pyos.Prelude.{
  ℕ, zero, suc, ◌+◌, ◌-◌, ◌*◌, ◌^◌, ◌<◌, ◌≡◌, refl, ap, sym, ◌∙◌, bit_or, Bool, true, false, List,
  [], ◌∷◌, ◌++◌, map, filter, drop, length, All, arith, Bool-cases, inl, inr, length-drop, if_both,
  ltb_of_le, not,
}
use mathlib.Core.List.{append_assoc}
use truenas_pyos.Prelude.Bits.{flag_set, bit_or-lt_32, bit_and-le}
use truenas_pyos.Prelude.Bytes.{be32}
use truenas_pyos.Py.{ok}
use truenas_pyos.Nfs4.Acl.{slot_at}
use truenas_pyos.Nfs4.Entries.{raw_at, read_raw-raw_at, read_slot, whole_slots}
use truenas_pyos.Nfs4.Inherit.{
  ace_is_inheritable, clear_bits, count_inherited, inherited_flags, slot_cut, write_inherited,
}
use truenas_pyos.Nfs4.Slot.{RawAce, nfs4ace_write_raw}
use truenas_pyos.Nfs4.Types.{
  directory_inherit_ace, file_inherit_ace, inherit_mask, inherit_only_ace, inherited_ace,
  nfs4_ace_sz, nfs4_hdr_sz, no_propagate_inherit_ace,
}
use truenas_pyos.Nfs4.Wire.{IsRaw, read_raw-write, slot_at-suc}

-- The entries that a child inherits, and what becomes of each.
abbrev pub inheritable : Bool → List RawAce → List RawAce
inheritable is_dir = filter (λ r. ace_is_inheritable r.flags_word is_dir)

abbrev pub child : Bool → RawAce → RawAce
child is_dir r = record r { flags_word = inherited_flags is_dir r.flags_word }

abbrev pub children : Bool → List RawAce → List RawAce
children is_dir rs = map (child is_dir) (inheritable is_dir rs)

abbrev pub raw_bytes : List RawAce → List ℕ
raw_bytes [] = []
raw_bytes (r ∷ rs) = nfs4ace_write_raw r ++ raw_bytes rs

length-write :
    (r : RawAce) (rest : List ℕ) → length (nfs4ace_write_raw r ++ rest) ≡ 20 + length rest
unfolding nfs4ace_write_raw be32
length-write r rest = omega arith

drop-write : (r : RawAce) (rest : List ℕ) → drop 20 (nfs4ace_write_raw r ++ rest) ≡ rest
unfolding nfs4ace_write_raw be32
drop-write r rest = refl

ok_inj : {A : Type 0} {a b : A} → ok a ≡ ok b → a ≡ b
ok_inj h = cc

pub count_inherited-length :
    (left i : ℕ) (buf : List ℕ) (is_dir : Bool) (n : ℕ)
    → count_inherited left i buf is_dir n
      ≡ ok (n + length (inheritable is_dir (whole_slots left i buf)))
unfolding count_inherited whole_slots
count_inherited-length zero i buf is_dir n = ap ok (omega arith)
count_inherited-length (suc left) i buf is_dir n = elim (Bool-cases (slot_cut buf i)) [
  | inl cut ↦ rw cut (ap ok (omega arith))
  | inr whole ↦
      rw (whole, read_slot buf i whole, count_inherited-length left (i + 1) buf is_dir)
        (ground arith)
]

pub write_inherited-raw_bytes :
    (left i : ℕ) (buf : List ℕ) (is_dir : Bool)
    → write_inherited left i buf is_dir ≡ ok (raw_bytes (children is_dir (whole_slots left i buf)))
unfolding write_inherited whole_slots
write_inherited-raw_bytes zero i buf is_dir = refl
write_inherited-raw_bytes (suc left) i buf is_dir = elim (Bool-cases (slot_cut buf i)) [
  | inl cut ↦ rw cut
  | inr whole ↦
      rw (whole, read_slot buf i whole, write_inherited-raw_bytes left (i + 1) buf is_dir)
        (elim (Bool-cases (ace_is_inheritable (raw_at (slot_at buf i)).flags_word is_dir)) [
          | inl e ↦ rw e
          | inr e ↦ rw e
        ])
]

cleared-lt : (f m : ℕ) → f < 2 ^ 32 → bit_or (clear_bits f m) inherited_ace < 2 ^ 32
cleared-lt f m h =
    bit_or-lt_32 (clear_bits f m) inherited_ace (omega (arith, bit_and-le f (2 ^ 32 - 1 - m)))
      (omega arith)

inherited_flags-lt : (is_dir : Bool) (f : ℕ) → f < 2 ^ 32 → inherited_flags is_dir f < 2 ^ 32
unfolding inherited_flags
inherited_flags-lt true f h =
    if_both Fits (not (flag_set f no_propagate_inherit_ace)) _ _
      (if_both Fits (flag_set f directory_inherit_ace) _ _ (cleared-lt f inherit_only_ace h) (
        bit_or-lt_32 (bit_or f inherit_only_ace) inherited_ace
          (bit_or-lt_32 f inherit_only_ace h (omega arith)) (omega arith)))
      (if_both Fits (flag_set f inherit_only_ace) _ _
        (if_both Fits (flag_set f file_inherit_ace) _ _ (cleared-lt f inherit_only_ace h)
          (cleared-lt f inherit_mask h))
        (cleared-lt f inherit_mask h))
  where
    Fits : ℕ → Type 0
    Fits n = n < 2 ^ 32
inherited_flags-lt false f h = cleared-lt f inherit_mask h

pub child-IsRaw : (is_dir : Bool) (r : RawAce) → IsRaw r → IsRaw (child is_dir r)
child-IsRaw is_dir r h = record {
  type_fits = h.type_fits;
  flags_fits = inherited_flags-lt is_dir r.flags_word h.flags_fits;
  iflag_fits = h.iflag_fits;
  mask_fits = h.mask_fits;
  who_fits = h.who_fits;
}

pub children-IsRaw :
    (is_dir : Bool) (rs : List RawAce) → All IsRaw rs → All IsRaw (map (child is_dir) rs)
children-IsRaw is_dir [] h = tt
children-IsRaw is_dir (r ∷ rs) h = (child-IsRaw is_dir r h.0, children-IsRaw is_dir rs h.1)

-- Slots that were written are read back as the entries of the buffer.
raw_at-write : (r : RawAce) (rest : List ℕ) → IsRaw r → raw_at (nfs4ace_write_raw r ++ rest) ≡ r
raw_at-write r rest h = ok_inj (
    sym (read_raw-raw_at (nfs4ace_write_raw r ++ rest) (omega (arith, length-write r rest)))
    ∙ read_raw-write r rest h)

pub whole_slots-raw_bytes :
    (i : ℕ) (buf rest : List ℕ) (rs : List RawAce)
    → All IsRaw rs
    → slot_at buf i ≡ raw_bytes rs ++ rest
    → whole_slots (length rs) i buf ≡ rs
unfolding whole_slots
whole_slots-raw_bytes i buf rest [] h e = refl
whole_slots-raw_bytes i buf rest (r ∷ rs) h e =
    let front : slot_at buf i ≡ nfs4ace_write_raw r ++ (raw_bytes rs ++ rest) =
      e ∙ append_assoc (nfs4ace_write_raw r) (raw_bytes rs) rest in
    let next : slot_at buf (i + 1) ≡ raw_bytes rs ++ rest =
      slot_at-suc buf i ∙ ap (drop 20) front ∙ drop-write r (raw_bytes rs ++ rest) in
    let whole : slot_cut buf i ≡ false = ltb_of_le _ _ (
      omega (
        arith,
        length-drop (nfs4_hdr_sz + i * nfs4_ace_sz) buf,
        ap length front,
        length-write r (raw_bytes rs ++ rest),
      )) in
    rw (
      whole,
      front,
      raw_at-write r (raw_bytes rs ++ rest) h.0,
      whole_slots-raw_bytes (i + 1) buf rest rs h.1 next,
    )
