-- ===== src/Posix/Accepted.antt =====
-- What `posixacl_valid` accepts, and that it reads nothing out of bounds.
use truenas_pyos.Prelude.{
  ℕ, ◌≤◌, ◌≡◌, ◌≢◌, ◌↔◌, ◌⊎◌, refl, true, not, Option, none, some, List, [], ◌∷◌, String, length,
  ltb, arith, Bool-cases, inl, inr, ltb-false→le, ltb→lt,
}
use truenas_pyos.Prelude.Int.{ℤ, minus_one, eqb_ℤ, eqb_ℤ→eq}
use truenas_pyos.Py.{
  ◌>>=◌, raise_if, >>=-eq-ok, raise_if-ne-out_of_bounds, >>=-ne-out_of_bounds,
  default_not_on_directory, value_error, ok, out_of_bounds,
}
use truenas_pyos.Nfs4.Valid.{Stat, s_isdir, stat_is_dir, failed, st_mode}
use truenas_pyos.Posix.Valid.{
  Counts, count_tag, check_counts, no_counts, validate_posix_blob, check_default_target,
  posixacl_valid,
}
use truenas_pyos.Posix.ValidLaws.{
  Entry, le32_at, entries, count_all, IsWellFormed, validate_posix_blob-entries,
  validate_posix_blob_iff, validate_posix_blob_short,
}

-- A whole header of version 2 with well-formed entries behind it.
abbrev pub IsValidBlob : List ℕ → Type 0
IsValidBlob buf = (4 ≤ length buf) × (le32_at buf ≡ 2) × IsWellFormed (entries buf)

pub validate-IsValidBlob :
    (buf : List ℕ) (label : String) → (validate_posix_blob buf label ≡ ok tt) ↔ IsValidBlob buf
validate-IsValidBlob buf label = (
  λ h. elim (Bool-cases (ltb (length buf) 4)) [
    | inl short ↦
        absurd (ground (arith, validate_posix_blob_short buf label (ltb→lt (length buf) 4 short)))
    | inr long ↦
        let size = ltb-false→le (length buf) 4 long in
        let (version, good) = (validate_posix_blob_iff buf label size).0 h in (size, version, good)
  ],
  λ h. let (size, version, good) = h in (validate_posix_blob_iff buf label size).1 (version, good),
)

-- The target of a default ACL: nothing to look at, or a directory.
abbrev pub IsDirTarget : (ℤ → Stat) → ℤ → Type 0
IsDirTarget fstat fd =
    (fd ≡ minus_one) ⊎ ((mode : ℕ) × (fstat fd ≡ st_mode mode) × (s_isdir mode ≡ true))

abbrev pub IsValidDefault : (ℤ → Stat) → ℤ → Option (List ℕ) → Type 0
IsValidDefault fstat fd none = Unit {0}
IsValidDefault fstat fd (some bytes) = IsDirTarget fstat fd × IsValidBlob bytes

stat_is_dir_iff :
    (st : Stat)
    → ((stat_is_dir st >>= λ d. raise_if (not d) (value_error default_not_on_directory)) ≡ ok tt)
      ↔ ((mode : ℕ) × (st ≡ st_mode mode) × (s_isdir mode ≡ true))
unfolding stat_is_dir
stat_is_dir_iff (failed errno) = (λ h. cc, λ h. let (mode, e, d) = h in cc)
stat_is_dir_iff (st_mode mode) =
    (λ h. (mode, refl, ground arith), λ h. let (mode', e, d) = h in ground arith)

pub check_default_target_iff :
    (fstat : ℤ → Stat) (fd : ℤ) → (check_default_target fstat fd ≡ ok tt) ↔ IsDirTarget fstat fd
unfolding check_default_target
check_default_target_iff fstat fd = elim (Bool-cases (eqb_ℤ fd minus_one)) [
  | inl e ↦ (λ h. inl (eqb_ℤ→eq fd minus_one e), λ h. rw e refl)
  | inr e ↦ rw e (
    λ h. inr ((stat_is_dir_iff (fstat fd)).0 h),
    λ h. elim h [ inl p ↦ cc (rw p at e) | inr q ↦ (stat_is_dir_iff (fstat fd)).1 q ],
  )
]

-- `posixacl_valid` accepts a pair of blobs exactly when the access blob is valid and a default blob,
-- if there is one, is valid too and goes to a directory, or to no open file at all.
pub posixacl_valid_iff :
    (fstat : ℤ → Stat) (fd : ℤ) (access : List ℕ) (default_data : Option (List ℕ))
    → (posixacl_valid fstat fd access default_data ≡ ok tt)
      ↔ (IsValidBlob access × IsValidDefault fstat fd default_data)
unfolding posixacl_valid
posixacl_valid_iff fstat fd access none = (
  λ h. (
    (validate-IsValidBlob access "access").0
        (let (a, first, rest) = >>=-eq-ok (validate_posix_blob access "access") _ h in first),
    tt,
  ),
  λ h. rw ((validate-IsValidBlob access "access").1 h.0) refl,
)
posixacl_valid_iff fstat fd access (some bytes) = (
  λ h.
      let (a, first, rest) = >>=-eq-ok (validate_posix_blob access "access") _ h in
      let (b, second, last) = >>=-eq-ok (check_default_target fstat fd) _ rest in
      (
        (validate-IsValidBlob access "access").0 first,
        (
          (check_default_target_iff fstat fd).0 second,
          (validate-IsValidBlob bytes "default").0 last,
        ),
      ),
  λ h.
      rw
        (
          (validate-IsValidBlob access "access").1 h.0,
          (check_default_target_iff fstat fd).1 h.1.0,
          (validate-IsValidBlob bytes "default").1 h.1.1,
        )
        refl,
)

count_tag-defined :
    (label : String) (tag xid : ℕ) (c : Counts) → count_tag label tag xid c ≢ out_of_bounds
unfolding count_tag
count_tag-defined label tag xid c = ground arith

count_all-defined :
    (label : String) (es : List Entry) (c : Counts) → count_all label es c ≢ out_of_bounds
count_all-defined label [] c = ground arith
count_all-defined label (e ∷ es) c =
    >>=-ne-out_of_bounds (count_tag label e.tag e.xid c) (count_all label es)
      (count_tag-defined label e.tag e.xid c) (count_all-defined label es)

check_counts-defined : (label : String) (c : Counts) → check_counts label c ≢ out_of_bounds
unfolding check_counts
check_counts-defined label c = ground arith

pub validate_posix_blob-ne-out_of_bounds :
    (buf : List ℕ) (label : String) → validate_posix_blob buf label ≢ out_of_bounds
validate_posix_blob-ne-out_of_bounds buf label = elim (Bool-cases (ltb (length buf) 4)) [
  | inl short ↦ unfold validate_posix_blob in rw short (ground arith)
  | inr long ↦ rw (validate_posix_blob-entries buf label (ltb-false→le (length buf) 4 long)) (
      >>=-ne-out_of_bounds _ _ (raise_if-ne-out_of_bounds _ _) λ _.
        >>=-ne-out_of_bounds (count_all label (entries buf) no_counts) (check_counts label)
          (count_all-defined label (entries buf) no_counts) (check_counts-defined label))
]

check_default_target-ne-out_of_bounds :
    (fstat : ℤ → Stat) (fd : ℤ) → check_default_target fstat fd ≢ out_of_bounds
unfolding check_default_target stat_is_dir
check_default_target-ne-out_of_bounds fstat fd = ground arith

-- Validating the bytes that a caller hands over, whatever they are, reads nothing out of bounds.
posixacl_valid-ne-out_of_bounds :
    (fstat : ℤ → Stat) (fd : ℤ) (access : List ℕ) (default_data : Option (List ℕ))
    → posixacl_valid fstat fd access default_data ≢ out_of_bounds
unfolding posixacl_valid
posixacl_valid-ne-out_of_bounds fstat fd access none =
    >>=-ne-out_of_bounds (validate_posix_blob access "access") _
      (validate_posix_blob-ne-out_of_bounds access "access") (λ _ p. cc)
posixacl_valid-ne-out_of_bounds fstat fd access (some bytes) =
    >>=-ne-out_of_bounds (validate_posix_blob access "access") _
      (validate_posix_blob-ne-out_of_bounds access "access")
      λ _.
        >>=-ne-out_of_bounds (check_default_target fstat fd) _
          (check_default_target-ne-out_of_bounds fstat fd)
          λ _. validate_posix_blob-ne-out_of_bounds bytes "default"
