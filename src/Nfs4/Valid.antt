-- ===== src/Nfs4/Valid.antt =====
-- src/cext/os/nfs4acl.c: `nfs4acl_valid`, the check before an NFSv4 ACL is set.
use truenas_pyos.Prelude.{
  ℕ, zero, suc, ◌+◌, bit_and, Bool, true, false, not, ◌&&◌, ◌||◌, List, ltb, length, ◌==◌,
  if◌then◌else◌,
}
use truenas_pyos.Prelude.Int.{ℤ, minus_one, eqb_ℤ}
use truenas_pyos.Prelude.Bits.{flag_set}
use truenas_pyos.Py.{
  Result, ok, raise, value_error, os_error, deny_on_special, inherit_only_alone, no_propagate_alone,
  propagate_on_file, no_inheritable_ace, raise_if, ◌>>=◌, ◌>>◌,
}
use truenas_pyos.Nfs4.Acl.{read_naces, slot_at}
use truenas_pyos.Nfs4.Inherit.{slot_cut}
use truenas_pyos.Nfs4.Slot.{RawAce, read_raw}
use truenas_pyos.Nfs4.Types.{
  access_denied_ace_type, inherit_only_ace, nfs4_hdr_sz, no_propagate_inherit_ace,
}

-- fstat(2), the kernel's: an errno, or the st_mode of the file.
pub data Stat : Type 0 where
  failed : ℕ → Stat
  st_mode : ℕ → Stat

-- S_ISDIR
abbrev pub s_isdir : ℕ → Bool
s_isdir mode = bit_and mode 0o170000 == 0o040000

unfoldable pub stat_is_dir : Stat → Result Bool
stat_is_dir (failed errno) = raise (os_error errno)
stat_is_dir (st_mode mode) = ok (s_isdir mode)

-- Whether the target is a directory; fd == -1 stands for one and calls nothing.
unfoldable pub target_is_dir : (ℤ → Stat) → ℤ → Result Bool
unfolding stat_is_dir
target_is_dir fstat fd = if eqb_ℤ fd minus_one then ok true else stat_is_dir (fstat fd)

-- NFS4_PROPAGATE_MASK, and the two bits that make an entry inheritable.
abbrev pub propagate_mask : ℕ
propagate_mask = 0xf

abbrev pub inheritable_mask : ℕ
inheritable_mask = 0x3

abbrev pub iflag_special : ℕ
iflag_special = 1

-- The checks of one entry.
unfoldable pub check_ace : Bool → RawAce → Result (Unit {0})
check_ace is_dir r = do
  raise_if (r.type_word == access_denied_ace_type && r.iflag_word == iflag_special)
      (value_error deny_on_special)
  raise_if
      (is_dir
        && flag_set r.flags_word inherit_only_ace
        && not (flag_set r.flags_word inheritable_mask))
      (value_error inherit_only_alone)
  raise_if
      (is_dir
        && flag_set r.flags_word no_propagate_inherit_ace
        && not (flag_set r.flags_word inheritable_mask))
      (value_error no_propagate_alone)

-- has_propagate and has_inheritable
pub record Seen : Type 0 where
  pub has_propagate : Bool
  pub has_inheritable : Bool

unfoldable pub note_ace : RawAce → Seen → Seen
note_ace r s = record {
  has_propagate = flag_set r.flags_word propagate_mask || s.has_propagate;
  has_inheritable = flag_set r.flags_word inheritable_mask || s.has_inheritable;
}

-- The loop at index i, with `left` rounds left.
unfoldable pub valid_loop : ℕ → ℕ → List ℕ → Bool → Seen → Result Seen
unfolding read_raw check_ace note_ace
valid_loop zero i buf is_dir seen = ok seen
valid_loop (suc left) i buf is_dir seen =
    let step : Result Seen = do
      r ← read_raw (slot_at buf i)
      check_ace is_dir r
      valid_loop left (i + 1) buf is_dir (note_ace r seen)
    in if slot_cut buf i then ok seen else step

-- The checks behind the loop.
unfoldable pub check_seen : Bool → Seen → Result (Unit {0})
check_seen is_dir seen = do
  raise_if (seen.has_propagate && not is_dir) (value_error propagate_on_file)
  raise_if (is_dir && not seen.has_inheritable) (value_error no_inheritable_ace)

-- nfs4acl_valid; `ok tt` is its 0.
unfoldable pub nfs4acl_valid : (ℤ → Stat) → ℤ → List ℕ → Result (Unit {0})
unfolding target_is_dir valid_loop check_seen
nfs4acl_valid fstat fd buf =
    let checked : Result (Unit {0}) = do
      is_dir ← target_is_dir fstat fd
      naces ← read_naces buf
      seen ←
          valid_loop naces 0 buf is_dir (record { has_propagate = false; has_inheritable = false })
      check_seen is_dir seen
    in if ltb (length buf) nfs4_hdr_sz then ok tt else checked
