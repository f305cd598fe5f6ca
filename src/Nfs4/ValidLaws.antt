-- ===== src/Nfs4/ValidLaws.antt =====
-- What `nfs4acl_valid` accepts, said of the entries of the buffer; and the ACLs that
-- `generate_inherited_acl` makes, under that check.
use truenas_pyos.Prelude.{
  ℕ, ◌≤◌, ◌≡◌, ◌≢◌, ◌↔◌, ◌⊎◌, refl, ap, Bool, true, false, ◌||◌, List, [], ◌∷◌, length, All, arith,
  Bool-cases, inl, inr,
}
use truenas_pyos.Prelude.Int.{ℤ}
use truenas_pyos.Prelude.Bits.{bit, flag_set, bit-le-one, bit_and_three, bit_and_fifteen}
use truenas_pyos.Py.{ok, >>=-eq-ok}
use truenas_pyos.Nfs4.Entries.{entries}
use truenas_pyos.Nfs4.Flags.{flag_set-inherit_only, flag_set-no_propagate}
use truenas_pyos.Nfs4.Slot.{RawAce}
use truenas_pyos.Nfs4.Valid.{
  Seen, Stat, check_ace, check_seen, inheritable_mask, nfs4acl_valid, note_ace, propagate_mask,
  target_is_dir,
}
use truenas_pyos.Nfs4.ValidLoop.{
  Any, any, check_all, check_entries, nfs4acl_valid-check_entries, nothing_seen,
}

-- Digits 0 to 3 of the flags are FILE_INHERIT, DIRECTORY_INHERIT, NO_PROPAGATE_INHERIT and
-- INHERIT_ONLY.
abbrev pub PassesOn : RawAce → Type 0
PassesOn r = (bit 0 r.flags_word ≡ 1) ⊎ (bit 1 r.flags_word ≡ 1)

abbrev pub IsQuiet : RawAce → Type 0
IsQuiet r =
    (bit 0 r.flags_word ≡ 0)
    × (bit 1 r.flags_word ≡ 0)
    × (bit 2 r.flags_word ≡ 0)
    × (bit 3 r.flags_word ≡ 0)

-- No entry denies a special principal, and on a directory neither NO_PROPAGATE_INHERIT nor
-- INHERIT_ONLY stands alone.
abbrev pub IsAcceptable : Bool → RawAce → Type 0
IsAcceptable true r =
    ((r.type_word ≢ 1) ⊎ (r.iflag_word ≢ 1))
    × (((bit 2 r.flags_word ≡ 0) × (bit 3 r.flags_word ≡ 0)) ⊎ PassesOn r)
IsAcceptable false r = (r.type_word ≢ 1) ⊎ (r.iflag_word ≢ 1)

-- The condition on the target's kind.
abbrev pub FitsTarget : Bool → List RawAce → Type 0
FitsTarget true rs = Any PassesOn rs
FitsTarget false rs = All IsQuiet rs

abbrev pub passes_on : RawAce → Bool
passes_on r = flag_set r.flags_word inheritable_mask

abbrev propagates : RawAce → Bool
propagates r = flag_set r.flags_word propagate_mask

pub passes_on_iff : (r : RawAce) → (passes_on r ≡ true) ↔ PassesOn r
passes_on_iff r =
    let f = r.flags_word in
    (
      λ h. ground (arith, bit_and_three f, bit-le-one 0 f, bit-le-one 1 f),
      λ h. ground (arith, bit_and_three f, bit-le-one 0 f, bit-le-one 1 f),
    )

propagates_iff : (r : RawAce) → (propagates r ≡ false) ↔ IsQuiet r
propagates_iff r =
    let f = r.flags_word in
    (λ h. ground (arith, bit_and_fifteen f), λ h. ground (arith, bit_and_fifteen f))

check_ace_iff : (is_dir : Bool) (r : RawAce) → (check_ace is_dir r ≡ ok tt) ↔ IsAcceptable is_dir r
unfolding check_ace
check_ace_iff true r =
    let f = r.flags_word in
    (
      λ h. ground (
        arith,
        flag_set-no_propagate f,
        flag_set-inherit_only f,
        bit_and_three f,
        bit-le-one 0 f,
        bit-le-one 1 f,
        bit-le-one 2 f,
        bit-le-one 3 f,
      ),
      λ h. ground (
        arith,
        flag_set-no_propagate f,
        flag_set-inherit_only f,
        bit_and_three f,
        bit-le-one 0 f,
        bit-le-one 1 f,
        bit-le-one 2 f,
        bit-le-one 3 f,
      ),
    )
check_ace_iff false r = (λ h. ground arith, λ h. ground arith)

any-Any : (rs : List RawAce) → (any passes_on rs ≡ true) ↔ Any PassesOn rs
any-Any [] = (λ h. cc, λ h. absurd h)
any-Any (r ∷ rs) = (
  λ h. elim (Bool-cases (passes_on r)) [
    | inl e ↦ inl ((passes_on_iff r).0 e)
    | inr e ↦ inr ((any-Any rs).0 (ground arith))
  ],
  λ h. elim h [ inl p ↦ rw ((passes_on_iff r).1 p) | inr p ↦ ground (arith, (any-Any rs).1 p) ],
)

any-All : (rs : List RawAce) → (any propagates rs ≡ false) ↔ All IsQuiet rs
any-All [] = (λ h. tt, λ h. refl)
any-All (r ∷ rs) = (
  λ h. ((propagates_iff r).0 (ground arith), (any-All rs).0 (ground arith)),
  λ h. ground (arith, (propagates_iff r).1 h.0, (any-All rs).1 h.1),
)

check_seen_iff :
    (is_dir : Bool) (rs : List RawAce)
    → (check_seen is_dir
          (record { has_propagate = any propagates rs; has_inheritable = any passes_on rs })
        ≡ ok tt)
      ↔ FitsTarget is_dir rs
unfolding check_seen
check_seen_iff true rs = (λ h. (any-Any rs).0 (ground arith), λ h. ground (arith, (any-Any rs).1 h))
check_seen_iff false rs =
    (λ h. (any-All rs).0 (ground arith), λ h. ground (arith, (any-All rs).1 h))

check_all_sound :
    (is_dir : Bool) (rs : List RawAce) (s : Seen) {t : Seen}
    → check_all is_dir rs s ≡ ok t
    → All (IsAcceptable is_dir) rs
unfolding check_all
check_all_sound is_dir [] s h = tt
check_all_sound is_dir (r ∷ rs) s {t} h = (
  (check_ace_iff is_dir r).0 (ground arith),
  check_all_sound is_dir rs (note_ace r s) {t = t} (ground arith),
)

abbrev seen_of : List RawAce → Seen → Seen
seen_of rs s = record {
  has_propagate = any propagates rs || s.has_propagate;
  has_inheritable = any passes_on rs || s.has_inheritable;
}

check_all_complete :
    (is_dir : Bool) (rs : List RawAce) (s : Seen)
    → All (IsAcceptable is_dir) rs
    → check_all is_dir rs s ≡ ok (seen_of rs s)
unfolding check_all note_ace
check_all_complete is_dir [] s h = refl
check_all_complete is_dir (r ∷ rs) s h =
    rw ((check_ace_iff is_dir r).1 h.0, check_all_complete is_dir rs (note_ace r s) h.1)
      (ground arith)

check_seen-start :
    (is_dir : Bool) (rs : List RawAce)
    → All (IsAcceptable is_dir) rs
    → check_entries is_dir rs
      ≡ check_seen is_dir
          (record { has_propagate = any propagates rs; has_inheritable = any passes_on rs })
check_seen-start is_dir rs h =
    rw (check_all_complete is_dir rs nothing_seen h)
      (ap (check_seen is_dir) (seen_of-nothing (any propagates rs) (any passes_on rs)))
  where
    seen_of-nothing :
        (a b : Bool)
        → ◌≡◌ {A = Seen}
            (record { has_propagate = a || false; has_inheritable = b || false })
            (record { has_propagate = a; has_inheritable = b })
    seen_of-nothing a b = ground arith

-- Entries pass for a target exactly when every entry is acceptable, and the target is a file and no
-- entry propagates, or it is a directory and some entry is inheritable.
pub check_entries_iff :
    (is_dir : Bool) (rs : List RawAce)
    → (check_entries is_dir rs ≡ ok tt) ↔ (All (IsAcceptable is_dir) rs × FitsTarget is_dir rs)
check_entries_iff is_dir rs = (
  λ h.
      let (t, passed, rest) = >>=-eq-ok (check_all is_dir rs nothing_seen) (check_seen is_dir) h in
      let good : All (IsAcceptable is_dir) rs = check_all_sound is_dir rs nothing_seen passed in
      (good, (check_seen_iff is_dir rs).0 (rw (check_seen-start is_dir rs good) at h)),
  λ h. rw (check_seen-start is_dir rs h.0) ((check_seen_iff is_dir rs).1 h.1),
)

-- `nfs4acl_valid` accepts a buffer exactly when no entry denies a special principal and, on a
-- directory, every NO_PROPAGATE_INHERIT or INHERIT_ONLY has an inheritable bit beside it and some
-- entry is inheritable; on a file, no entry has an inheritance bit.
pub nfs4acl_valid_iff :
    (fstat : ℤ → Stat) (fd : ℤ) (buf : List ℕ) {is_dir : Bool}
    → target_is_dir fstat fd ≡ ok is_dir
    → 8 ≤ length buf
    → (nfs4acl_valid fstat fd buf ≡ ok tt)
      ↔ (All (IsAcceptable is_dir) (entries buf) × FitsTarget is_dir (entries buf))
nfs4acl_valid_iff fstat fd buf {is_dir} target size =
    rw (nfs4acl_valid-check_entries fstat fd buf target size)
      (check_entries_iff is_dir (entries buf))
