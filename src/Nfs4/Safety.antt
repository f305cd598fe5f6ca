-- ===== src/Nfs4/Safety.antt =====
-- The readers of an XDR buffer stay inside it, whatever bytes a caller or a file system hands over.
use truenas_pyos.Prelude.{
  ℕ, zero, suc, ◌+◌, ◌*◌, ◌≤◌, ◌≡◌, ◌≢◌, ◌⊎◌, ◌==◌, refl, Bool, true, List, [], ◌∷◌, ltb, length,
  drop, arith, if◌then◌else◌, Bool-cases, inl, inr, ltb_of_le, ltb-false→le, List-cases,
}
use truenas_pyos.Prelude.Int.{ℤ, minus_one, eqb_ℤ}
use truenas_pyos.Py.{
  ok, raise, Exc, os_error, out_of_bounds, int_flag_call, int_enum_call-ne-out_of_bounds,
}
use truenas_pyos.Nfs4.Acl.{Nfs4Acl, decode_aces, get_aces, slot_at}
use truenas_pyos.Nfs4.Children.{inheritable}
use truenas_pyos.Nfs4.Entries.{entries, raw_at, read_naces-word_at, read_slot, word_at}
use truenas_pyos.Nfs4.Inherit.{generate_inherited_acl}
use truenas_pyos.Nfs4.InheritLaws.{generate_inherited_acl_none, generate_inherited_acl_some}
use truenas_pyos.Nfs4.Slot.{RawAce, nfs4ace_decode}
use truenas_pyos.Nfs4.Types.{
  nfs4_ace_sz, nfs4_ace_type_table, nfs4_hdr_sz, nfs4_who_table, who_named,
}
use truenas_pyos.Nfs4.Valid.{
  Seen, Stat, check_ace, check_seen, failed, nfs4acl_valid, note_ace, s_isdir, st_mode, stat_is_dir,
  target_is_dir,
}
use truenas_pyos.Nfs4.ValidLoop.{
  check_all, check_entries, nfs4acl_valid-check_entries, nothing_seen,
}

nfs4ace_decode-defined : (r : RawAce) → nfs4ace_decode r ≢ out_of_bounds
unfolding nfs4ace_decode int_flag_call
nfs4ace_decode-defined r = ground (
  arith,
  int_enum_call-ne-out_of_bounds "NFS4Who" nfs4_who_table
      (if r.iflag_word == 0 then who_named else r.who_word),
  int_enum_call-ne-out_of_bounds "NFS4AceType" nfs4_ace_type_table r.type_word,
)

decode_aces-defined :
    (left i : ℕ) (buf : List ℕ)
    → 8 + (i + left) * 20 ≤ length buf
    → decode_aces left i buf ≢ out_of_bounds
unfolding decode_aces
decode_aces-defined zero i buf h = ground arith
decode_aces-defined (suc left) i buf h = ground (
  arith,
  read_slot buf i (ltb_of_le (length buf) (nfs4_hdr_sz + (i + 1) * nfs4_ace_sz) (omega arith)),
  nfs4ace_decode-defined (raw_at (slot_at buf i)),
  decode_aces-defined left (i + 1) buf (omega arith),
)

-- Reading the entries of an ACL reads nothing out of bounds.
get_aces-ne-out_of_bounds : (acl : Nfs4Acl) → get_aces acl ≢ out_of_bounds
unfolding get_aces
get_aces-ne-out_of_bounds acl = ground (
  arith,
  read_naces-word_at acl.data_bytes,
  decode_aces-defined (word_at (drop 4 acl.data_bytes)) 0 acl.data_bytes,
)

-- Generating the ACL of a child reads nothing out of bounds.
pub generate_inherited_acl-ne-out_of_bounds :
    (acl : Nfs4Acl) (is_dir : Bool) → generate_inherited_acl acl is_dir ≢ out_of_bounds
generate_inherited_acl-ne-out_of_bounds acl is_dir =
    elim (Bool-cases (ltb (length acl.data_bytes) nfs4_hdr_sz)) [
      | inl short ↦ unfold generate_inherited_acl in rw short (ground arith)
      | inr long ↦
          let size = ltb-false→le (length acl.data_bytes) 8 long in
          elim (List-cases (inheritable is_dir (entries acl.data_bytes))) [
            | inl e ↦ rw (generate_inherited_acl_none acl is_dir size e) (ground arith)
            | inr (r, rs, e) ↦
                rw (generate_inherited_acl_some acl is_dir r rs size e) (ground arith)
          ]
    ]

check_ace-defined : (is_dir : Bool) (r : RawAce) → check_ace is_dir r ≢ out_of_bounds
unfolding check_ace
check_ace-defined is_dir r = ground arith

check_all-defined :
    (is_dir : Bool) (rs : List RawAce) (s : Seen) → check_all is_dir rs s ≢ out_of_bounds
unfolding check_all
check_all-defined is_dir [] s = ground arith
check_all-defined is_dir (r ∷ rs) s =
    ground (arith, check_ace-defined is_dir r, check_all-defined is_dir rs (note_ace r s))

check_entries-defined : (is_dir : Bool) (rs : List RawAce) → check_entries is_dir rs ≢ out_of_bounds
unfolding check_seen
check_entries-defined is_dir rs = ground (arith, check_all-defined is_dir rs nothing_seen)

-- A target whose kind cannot be told ends the check, before any byte is read.
target_cases :
    (fstat : ℤ → Stat) (fd : ℤ)
    → ((is_dir : Bool) × (target_is_dir fstat fd ≡ ok is_dir))
      ⊎ ((e : Exc) × (target_is_dir fstat fd ≡ raise e))
unfolding target_is_dir stat_is_dir
target_cases fstat fd = elim (Bool-cases (eqb_ℤ fd minus_one)) [
  | inl e ↦ inl (true, rw e)
  | inr e ↦ rw e (of_stat (fstat fd))
]
  where
    of_stat :
        (st : Stat)
        → ((is_dir : Bool) × (stat_is_dir st ≡ ok is_dir))
          ⊎ ((e : Exc) × (stat_is_dir st ≡ raise e))
    of_stat (failed errno) = inr (os_error errno, refl)
    of_stat (st_mode mode) = inl (s_isdir mode, refl)

-- Validating bytes that a caller hands over reads nothing out of bounds.
nfs4acl_valid-ne-out_of_bounds :
    (fstat : ℤ → Stat) (fd : ℤ) (buf : List ℕ) → nfs4acl_valid fstat fd buf ≢ out_of_bounds
nfs4acl_valid-ne-out_of_bounds fstat fd buf = elim (Bool-cases (ltb (length buf) nfs4_hdr_sz)) [
  | inl short ↦ unfold nfs4acl_valid in rw short (ground arith)
  | inr long ↦ elim (target_cases fstat fd) [
    | inl (is_dir, e) ↦
        rw (nfs4acl_valid-check_entries fstat fd buf e (ltb-false→le (length buf) 8 long))
          (check_entries-defined is_dir (entries buf))
    | inr (exc, e) ↦ unfold nfs4acl_valid in rw (long, e) (ground arith)
  ]
]
