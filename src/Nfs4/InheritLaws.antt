-- ===== src/Nfs4/InheritLaws.antt =====
-- `generate_inherited_acl` as an operation on lists of entries: the two passes agree, and the child's
-- buffer holds the changed entries of the parent that are inheritable.
use truenas_pyos.Prelude.{
  filter, ◌*◌, ℕ, zero, suc, ◌+◌, ◌^◌, ◌≤◌, ◌<◌, ◌≡◌, ◌≢◌, refl, ap, sym, ◌∙◌, Bool, List, [], ◌∷◌,
  ◌++◌, map, drop, length, All, arith, if◌then◌else◌, inl, inr, length-map, length-filter,
  All-filter, suc==zero, if_both, List-cases, ltb_of_le,
}
use mathlib.Core.List.{append-nil}
use mathlib.Core.Path.{subst}
use truenas_pyos.Prelude.Bytes.{be32, IsBytes}
use truenas_pyos.Py.{ok, raise, value_error, nothing_inherited}
use truenas_pyos.Nfs4.Acl.{Nfs4Acl, slot_at}
use truenas_pyos.Nfs4.Children.{
  child, children, children-IsRaw, count_inherited-length, inheritable, raw_bytes,
  whole_slots-raw_bytes, write_inherited-raw_bytes,
}
use truenas_pyos.Nfs4.Entries.{
  IsBytes-drop, entries, read_naces-word_at, whole_slots, whole_slots-IsRaw, word_at, word_at-be32,
  word_at-lt,
}
use truenas_pyos.Nfs4.Inherit.{ace_is_inheritable, generate_inherited_acl}
use truenas_pyos.Nfs4.Slot.{RawAce, nfs4ace_write_raw}
use truenas_pyos.Nfs4.Types.{acl_is_dir}
use truenas_pyos.Nfs4.Wire.{IsRaw}
use truenas_pyos.Nfs4.Inherited.{
  inherits, AreInherited, inheritable-inherits, children-AreInherited,
}

-- The buffer of the child: the header, and the slots of `rs`.
abbrev pub child_blob : ℕ → List RawAce → List ℕ
child_blob flags rs = be32 flags ++ (be32 (length rs) ++ raw_bytes rs)

count-child_blob :
    (flags : ℕ) (rs : List RawAce)
    → length rs < 2 ^ 32
    → word_at (drop 4 (child_blob flags rs)) ≡ length rs
unfolding be32
count-child_blob flags rs fits = word_at-be32 (length rs) (raw_bytes rs) fits

slots-child_blob :
    (flags : ℕ) (rs : List RawAce) → slot_at (child_blob flags rs) 0 ≡ raw_bytes rs ++ []
unfolding be32
slots-child_blob flags rs = rw append-nil

pub entries-child_blob :
    (flags : ℕ) (rs : List RawAce)
    → All IsRaw rs
    → length rs < 2 ^ 32
    → entries (child_blob flags rs) ≡ rs
unfolding entries
entries-child_blob flags rs h fits =
    rw (count-child_blob flags rs fits)
      (whole_slots-raw_bytes 0 (child_blob flags rs) [] rs h (slots-child_blob flags rs))

length-whole_slots : (left i : ℕ) (buf : List ℕ) → length (whole_slots left i buf) ≤ left
unfolding whole_slots
length-whole_slots zero i buf = omega arith
length-whole_slots (suc left) i buf = ground (arith, length-whole_slots left (i + 1) buf)

length-inheritable :
    (is_dir : Bool) (buf : List ℕ)
    → IsBytes buf
    → length (inheritable is_dir (entries buf)) < 2 ^ 32
unfolding entries
length-inheritable is_dir buf h = omega (
  arith,
  length-filter (λ (r : RawAce). ace_is_inheritable r.flags_word is_dir)
      (whole_slots (word_at (drop 4 buf)) 0 buf),
  length-whole_slots (word_at (drop 4 buf)) 0 buf,
  word_at-lt (drop 4 buf) (IsBytes-drop 4 buf h),
)

abbrev pub child_acl_flags : Bool → ℕ
child_acl_flags is_dir = if is_dir then acl_is_dir else 0

length-raw_bytes : (rs : List RawAce) → length (raw_bytes rs) ≡ 20 * length rs
unfolding nfs4ace_write_raw be32
length-raw_bytes [] = refl
length-raw_bytes (r ∷ rs) = omega (arith, length-raw_bytes rs)

child_blob-size : (flags : ℕ) (rs : List RawAce) → length (child_blob flags rs) ≡ 8 + 20 * length rs
unfolding be32
child_blob-size flags rs = omega (arith, length-raw_bytes rs)

entries-IsRaw : (buf : List ℕ) → IsBytes buf → All IsRaw (entries buf)
unfolding entries
entries-IsRaw buf h = whole_slots-IsRaw (word_at (drop 4 buf)) 0 buf h

-- Without an inheritable entry the call raises, and never reads out of bounds.
pub generate_inherited_acl_none :
    (acl : Nfs4Acl) (is_dir : Bool)
    → 8 ≤ length acl.data_bytes
    → inheritable is_dir (entries acl.data_bytes) ≡ []
    → generate_inherited_acl acl is_dir ≡ raise (value_error nothing_inherited)
unfolding generate_inherited_acl entries
generate_inherited_acl_none acl is_dir size none_left =
    let buf = acl.data_bytes in
    let naces = word_at (drop 4 buf) in
    rw (
      ltb_of_le (length buf) 8 size,
      read_naces-word_at buf size,
      count_inherited-length naces 0 buf is_dir 0,
      none_left,
    )

pub generate_inherited_acl_some :
    (acl : Nfs4Acl) (is_dir : Bool) (r : RawAce) (rs : List RawAce)
    → 8 ≤ length acl.data_bytes
    → inheritable is_dir (entries acl.data_bytes) ≡ r ∷ rs
    → generate_inherited_acl acl is_dir
      ≡ ok (record {
        data_bytes = child_blob (child_acl_flags is_dir) (map (child is_dir) (r ∷ rs));
      })
unfolding generate_inherited_acl entries
generate_inherited_acl_some acl is_dir r rs size e =
    let buf = acl.data_bytes in
    let naces = word_at (drop 4 buf) in
    let sum : 0 + suc (length rs) ≡ suc (length rs) = omega arith in
    rw
      (
        ltb_of_le (length buf) 8 size,
        read_naces-word_at buf size,
        count_inherited-length naces 0 buf is_dir 0,
        write_inherited-raw_bytes naces 0 buf is_dir,
        e,
        length-map rs (child is_dir),
      )
      (rw (sum, suc==zero (length rs)) refl)

-- The child's buffer holds the changed entries of the parent that are inheritable, in their order.
pub generate_inherited_acl-children :
    (acl : Nfs4Acl) (is_dir : Bool)
    → IsBytes acl.data_bytes
    → 8 ≤ length acl.data_bytes
    → inheritable is_dir (entries acl.data_bytes) ≢ []
    → (made : Nfs4Acl) × (generate_inherited_acl acl is_dir ≡ ok made)
      × (entries made.data_bytes ≡ children is_dir (entries acl.data_bytes))
      × (word_at made.data_bytes ≡ child_acl_flags is_dir)
      × (word_at (drop 4 made.data_bytes) ≡ length (children is_dir (entries acl.data_bytes)))
      × (length made.data_bytes ≡ 8 + 20 * length (children is_dir (entries acl.data_bytes)))
generate_inherited_acl-children acl is_dir bytes size kept =
    elim (List-cases (inheritable is_dir (entries acl.data_bytes))) [
      | inl none_left ↦ absurd (kept none_left)
      | inr (r, rs, e) ↦
          let made = map (child is_dir) (r ∷ rs) in
          let flags = child_acl_flags is_dir in
          let fits : length made < 2 ^ 32 = omega (
            arith,
            length-map (r ∷ rs) (child is_dir),
            length-inheritable is_dir acl.data_bytes bytes,
            ap length e,
          ) in
          let raw : All IsRaw (r ∷ rs) = subst (All IsRaw) e (
            All-filter IsRaw (λ x. ace_is_inheritable x.flags_word is_dir) (entries acl.data_bytes)
              (entries-IsRaw acl.data_bytes bytes)) in
          (
            record { data_bytes = child_blob flags made },
            generate_inherited_acl_some acl is_dir r rs size e,
            entries-child_blob flags made (children-IsRaw is_dir (r ∷ rs) raw) fits
                ∙ ap (map (child is_dir)) (sym e),
            word_at-be32 flags (be32 (length made) ++ raw_bytes made)
                (if_both (λ n. n < 2 ^ 32) is_dir acl_is_dir 0 (omega arith) (omega arith)),
            count-child_blob flags made fits ∙ ap (λ l. length (map (child is_dir) l)) (sym e),
            child_blob-size flags made ∙ ap (λ l. 8 + 20 * length (map (child is_dir) l)) (sym e),
          )
    ]

-- Where some entry of the parent is inheritable, the call makes an ACL. Its entries are those of the
-- parent that are inheritable, in their order, with the digits of their flags changed and the rest
-- kept; its header has the child's flags and the number of these entries, and the buffer ends with
-- the last of them.
pub entries-generate_inherited_acl :
    (acl : Nfs4Acl) (is_dir : Bool)
    → IsBytes acl.data_bytes
    → 8 ≤ length acl.data_bytes
    → filter (inherits is_dir) (entries acl.data_bytes) ≢ []
    → (made : Nfs4Acl) × (generate_inherited_acl acl is_dir ≡ ok made)
      × AreInherited is_dir
          (filter (inherits is_dir) (entries acl.data_bytes))
          (entries made.data_bytes)
      × (word_at made.data_bytes ≡ (if is_dir then acl_is_dir else 0))
      × (word_at (drop 4 made.data_bytes) ≡ length (entries made.data_bytes))
      × (length made.data_bytes ≡ 8 + 20 * length (entries made.data_bytes))
entries-generate_inherited_acl acl is_dir bytes size kept =
    let rs = entries acl.data_bytes in
    let same = inheritable-inherits is_dir rs in
    let (made, makes, holds, flags, count, whole) =
      generate_inherited_acl-children acl is_dir bytes size (λ e. kept (sym same ∙ e)) in
    let raw : All IsRaw (inheritable is_dir rs) =
      All-filter IsRaw (λ x. ace_is_inheritable x.flags_word is_dir) rs
        (entries-IsRaw acl.data_bytes bytes) in
    let inherited =
      subst (λ l. AreInherited is_dir l (children is_dir rs)) same
        (children-AreInherited is_dir (inheritable is_dir rs) raw) in
    (
      made,
      makes,
      subst (AreInherited is_dir (filter (inherits is_dir) rs)) (sym holds) inherited,
      flags,
      count ∙ ap length (sym holds),
      whole ∙ ap (λ l. 8 + 20 * length l) (sym holds),
    )
