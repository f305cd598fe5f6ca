-- ===== src/Nfs4/Inherit.antt =====
-- src/cext/os/nfs4acl.c: `NFS4ACL.generate_inherited_acl`, the ACL of a new child object.
use truenas_pyos.Prelude.{
  ℕ, zero, suc, ◌+◌, ◌-◌, ◌*◌, ◌^◌, bit_and, bit_or, Bool, true, false, not, List, [], ◌++◌, ltb,
  length, ◌==◌, if◌then◌else◌,
}
use truenas_pyos.Prelude.Bits.{flag_set}
use truenas_pyos.Prelude.Bytes.{be32}
use truenas_pyos.Py.{
  Result, ok, value_error, source_acl_empty, nothing_inherited, raise_if, ◌>>=◌, ◌>>◌,
}
use truenas_pyos.Nfs4.Acl.{Nfs4Acl, read_naces, slot_at}
use truenas_pyos.Nfs4.Slot.{nfs4ace_write_raw, read_raw}
use truenas_pyos.Nfs4.Types.{
  acl_is_dir, directory_inherit_ace, file_inherit_ace, inherit_mask, inherit_only_ace,
  inherited_ace, nfs4_ace_sz, nfs4_hdr_sz, no_propagate_inherit_ace,
}

-- ace_is_inheritable
unfoldable pub ace_is_inheritable : ℕ → Bool → Bool
ace_is_inheritable ace_flags true =
    flag_set ace_flags (bit_or file_inherit_ace directory_inherit_ace)
ace_is_inheritable ace_flags false = flag_set ace_flags file_inherit_ace

-- `x & ~m` on 32 bits.
abbrev pub clear_bits : ℕ → ℕ → ℕ
clear_bits x m = bit_and x (2 ^ 32 - 1 - m)

-- The flags of an inherited entry: the branches of the second pass.
unfoldable pub inherited_flags : Bool → ℕ → ℕ
inherited_flags true ace_flags =
    if not (flag_set ace_flags no_propagate_inherit_ace)
    then if flag_set ace_flags directory_inherit_ace
      then bit_or (clear_bits ace_flags inherit_only_ace) inherited_ace
      else bit_or (bit_or ace_flags inherit_only_ace) inherited_ace
    else if flag_set ace_flags inherit_only_ace
    then if flag_set ace_flags file_inherit_ace
      then bit_or (clear_bits ace_flags inherit_only_ace) inherited_ace
      else bit_or (clear_bits ace_flags inherit_mask) inherited_ace
    else bit_or (clear_bits ace_flags inherit_mask) inherited_ace
inherited_flags false ace_flags = bit_or (clear_bits ace_flags inherit_mask) inherited_ace

-- `NFS4_HDR_SZ + (size_t)(i + 1) * NFS4_ACE_SZ > datasz`: the slot of index i is not whole. Here
-- i + 1 is at most naces, below 2 ^ 32, and does not wrap.
abbrev pub slot_cut : List ℕ → ℕ → Bool
slot_cut buf i = ltb (length buf) (nfs4_hdr_sz + (i + 1) * nfs4_ace_sz)

-- The first pass at index i, with `left` rounds left and `n` entries counted.
unfoldable pub count_inherited : ℕ → ℕ → List ℕ → Bool → ℕ → Result ℕ
unfolding read_raw ace_is_inheritable
count_inherited zero i buf is_dir n = ok n
count_inherited (suc left) i buf is_dir n =
    let step = read_raw (slot_at buf i) >>= λ r.
    count_inherited left (i + 1) buf is_dir
      (if ace_is_inheritable r.flags_word is_dir then n + 1 else n) in
    if slot_cut buf i then ok n else step

-- The second pass at index i: the slots that it writes, one after another.
unfoldable pub write_inherited : ℕ → ℕ → List ℕ → Bool → Result (List ℕ)
unfolding read_raw ace_is_inheritable inherited_flags nfs4ace_write_raw
write_inherited zero i buf is_dir = ok []
write_inherited (suc left) i buf is_dir =
    let step : Result (List ℕ) = do
      r ← read_raw (slot_at buf i)
      rest ← write_inherited left (i + 1) buf is_dir
      let new_ace = record r { flags_word = inherited_flags is_dir r.flags_word }
      ok (
          if ace_is_inheritable r.flags_word is_dir
          then nfs4ace_write_raw new_ace ++ rest
          else rest)
    in if slot_cut buf i then ok [] else step

-- NFS4ACL_generate_inherited_acl
unfoldable pub generate_inherited_acl : Nfs4Acl → Bool → Result Nfs4Acl
unfolding count_inherited write_inherited
generate_inherited_acl acl is_dir = do
  let buf = acl.data_bytes
  raise_if (ltb (length buf) nfs4_hdr_sz) (value_error source_acl_empty)
  naces_in ← read_naces buf
  naces_out ← count_inherited naces_in 0 buf is_dir 0
  raise_if (naces_out == 0) (value_error nothing_inherited)
  let out_acl_flags = if is_dir then acl_is_dir else 0
  body ← write_inherited naces_in 0 buf is_dir
  ok (record { data_bytes = be32 out_acl_flags ++ (be32 naces_out ++ body) })
