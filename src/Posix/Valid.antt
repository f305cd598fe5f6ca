-- ===== src/Posix/Valid.antt =====
-- src/cext/os/posixacl.c: `posixacl_valid`, the check before a POSIX ACL is set.
use truenas_pyos.Prelude.{
  ℕ, zero, suc, ◌+◌, ◌-◌, ◌/◌, not, ◌&&◌, Option, none, some, List, String, drop, length, ltb, ◌==◌,
  if◌then◌else◌,
}
use truenas_pyos.Prelude.Int.{ℤ, minus_one, eqb_ℤ}
use truenas_pyos.Prelude.Bytes.{read_le16, read_le32}
use truenas_pyos.Py.{
  Result, ok, raise, value_error, blob_too_short, bad_version, unknown_tag, user_without_uid,
  group_without_gid, user_obj_count, group_obj_count, other_count, mask_required, mask_count,
  default_not_on_directory, load, raise_if, ◌>>=◌, ◌>>◌,
}
use truenas_pyos.Posix.Types.{
  posix_hdr_sz, posix_ace_sz, posix_acl_version, posix_special_id, tag_user_obj, tag_user,
  tag_group_obj, tag_group, tag_mask, tag_other,
}
use truenas_pyos.Posix.Acl.{entry_at}
use truenas_pyos.Nfs4.Valid.{Stat, stat_is_dir}

-- The counters of validate_posix_blob.
pub record Counts : Type 0 where
  pub n_user_obj : ℕ
  pub n_group_obj : ℕ
  pub n_other : ℕ
  pub n_mask : ℕ
  pub n_named : ℕ

-- The `switch` on the tag of one entry.
unfoldable pub count_tag : String → ℕ → ℕ → Counts → Result Counts
count_tag label tag xid c =
    if tag == tag_user_obj
    then ok (record c { n_user_obj = c.n_user_obj + 1 })
    else if tag == tag_user
    then if xid == posix_special_id
      then raise (value_error (user_without_uid label))
      else ok (record c { n_named = c.n_named + 1 })
    else if tag == tag_group_obj
    then ok (record c { n_group_obj = c.n_group_obj + 1 })
    else if tag == tag_group
    then if xid == posix_special_id
      then raise (value_error (group_without_gid label))
      else ok (record c { n_named = c.n_named + 1 })
    else if tag == tag_mask
    then ok (record c { n_mask = c.n_mask + 1 })
    else if tag == tag_other
    then ok (record c { n_other = c.n_other + 1 })
    else raise (value_error (unknown_tag label tag))

-- The loop of validate_posix_blob at index i, with `left` rounds left.
unfoldable pub count_loop : String → ℕ → ℕ → List ℕ → Counts → Result Counts
unfolding count_tag
count_loop label zero i buf c = ok c
count_loop label (suc left) i buf c = do
  tag ← load (read_le16 (entry_at buf i))
  xid ← load (read_le32 (drop 4 (entry_at buf i)))
  c' ← count_tag label tag xid c
  count_loop label left (i + 1) buf c'

-- The checks behind the loop.
unfoldable pub check_counts : String → Counts → Result (Unit {0})
check_counts label c = do
  raise_if (not (c.n_user_obj == 1)) (value_error (user_obj_count label))
  raise_if (not (c.n_group_obj == 1)) (value_error (group_obj_count label))
  raise_if (not (c.n_other == 1)) (value_error (other_count label))
  raise_if (ltb 0 c.n_named && not (c.n_mask == 1)) (value_error (mask_required label))
  raise_if (ltb 1 c.n_mask) (value_error (mask_count label))

abbrev pub no_counts : Counts
no_counts = record { n_user_obj = 0; n_group_obj = 0; n_other = 0; n_mask = 0; n_named = 0 }

-- validate_posix_blob
unfoldable pub validate_posix_blob : List ℕ → String → Result (Unit {0})
unfolding count_loop check_counts
validate_posix_blob buf label = do
  let len = length buf
  raise_if (ltb len posix_hdr_sz) (value_error (blob_too_short label))
  version ← load (read_le32 buf)
  raise_if (not (version == posix_acl_version)) (value_error (bad_version label version))
  c ← count_loop label ((len - posix_hdr_sz) / posix_ace_sz) 0 buf no_counts
  check_counts label c

-- The check that a default ACL goes to a directory; fd == -1 skips it.
unfoldable pub check_default_target : (ℤ → Stat) → ℤ → Result (Unit {0})
unfolding stat_is_dir
check_default_target fstat fd =
    let checked : Result (Unit {0}) = do
      is_dir ← stat_is_dir (fstat fd)
      raise_if (not is_dir) (value_error default_not_on_directory)
    in if not (eqb_ℤ fd minus_one) then checked else ok tt

-- posixacl_valid; `ok tt` is its 0, and `none` a NULL default_data.
unfoldable pub posixacl_valid : (ℤ → Stat) → ℤ → List ℕ → Option (List ℕ) → Result (Unit {0})
unfolding validate_posix_blob check_default_target
posixacl_valid fstat fd access_data default_data = do
  validate_posix_blob access_data "access"
  elim default_data [
    | none ↦ ok tt
    | some bytes ↦ check_default_target fstat fd >> validate_posix_blob bytes "default"
  ]
