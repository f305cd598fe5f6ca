-- ===== src/Xattr/Entry.antt =====
-- src/cext/os/truenas_os.c: fgetacl, fsetacl, validate_acl, fsetacl_nfs4 and fsetacl_posix, on their
-- parsed arguments.
use truenas_pyos.Prelude.{ℕ, Option, none, some, List}
use truenas_pyos.Prelude.Int.{ℤ}
use truenas_pyos.Py.{Result, ok, raise, type_error, ◌>>=◌, ◌>>◌}
use truenas_pyos.Nfs4.Acl.{Nfs4Acl}
use truenas_pyos.Nfs4.Valid.{Stat, nfs4acl_valid}
use truenas_pyos.Posix.Acl.{PosixAcl, from_xattr_bytes}
use truenas_pyos.Posix.Valid.{posixacl_valid}
use truenas_pyos.Xattr.Calls.{
  AclXattr, XattrKernel, do_fgetacl, do_fremoveacl, do_fsetacl_nfs4, do_fsetacl_posix, nfs4_data,
  posix_data,
}

-- An argument that should be an ACL: `None`, an object of one of the two types, or another.
pub data AclArg : Type 0 where
  no_acl other_object : AclArg
  nfs4_acl_object : Nfs4Acl → AclArg
  posix_acl_object : PosixAcl → AclArg

-- The argument `default_bytes`.
pub data BytesArg : Type 0 where
  no_bytes other_bytes : BytesArg
  bytes_object : List ℕ → BytesArg

-- The object that py_fgetacl makes of the attributes.
unfoldable pub acl_object : AclXattr → AclArg
unfolding from_xattr_bytes
acl_object (nfs4_data bytes) = nfs4_acl_object (record { data_bytes = bytes })
acl_object (posix_data access synthesized default_data) =
    posix_acl_object (from_xattr_bytes access default_data synthesized)

-- py_fgetacl
unfoldable pub py_fgetacl : XattrKernel → Result AclArg
unfolding do_fgetacl acl_object
py_fgetacl k = do_fgetacl k >>= λ acl. ok (acl_object acl)

module _ (fstat : ℤ → Stat) (fd : ℤ) where
  -- py_fsetacl_nfs4
  unfoldable pub py_fsetacl_nfs4 : XattrKernel → List ℕ → Result (Unit {0})
  unfolding nfs4acl_valid do_fsetacl_nfs4
  py_fsetacl_nfs4 k data_bytes = nfs4acl_valid fstat fd data_bytes >> do_fsetacl_nfs4 k data_bytes

  -- The default bytes of an argument; `none` is NULL.
  unfoldable pub default_bytes : BytesArg → Result (Option (List ℕ))
  default_bytes no_bytes = ok none
  default_bytes (bytes_object bytes) = ok (some bytes)
  default_bytes other_bytes = raise type_error

  -- py_fsetacl_posix
  unfoldable pub py_fsetacl_posix : XattrKernel → List ℕ → BytesArg → Result (Unit {0})
  unfolding default_bytes posixacl_valid do_fsetacl_posix
  py_fsetacl_posix k access_data default_obj = do
    default_data ← default_bytes default_obj
    posixacl_valid fstat fd access_data default_data
    do_fsetacl_posix k access_data default_data

  -- py_fsetacl
  unfoldable pub py_fsetacl : XattrKernel → AclArg → Result (Unit {0})
  unfolding do_fremoveacl nfs4acl_valid do_fsetacl_nfs4 posixacl_valid do_fsetacl_posix
  py_fsetacl k no_acl = do_fremoveacl k
  py_fsetacl k (nfs4_acl_object acl) =
      nfs4acl_valid fstat fd acl.data_bytes >> do_fsetacl_nfs4 k acl.data_bytes
  py_fsetacl k (posix_acl_object acl) =
      posixacl_valid fstat fd acl.access_data acl.default_data
      >> do_fsetacl_posix k acl.access_data acl.default_data
  py_fsetacl k other_object = raise type_error

  -- py_validate_acl
  unfoldable pub py_validate_acl : AclArg → Result (Unit {0})
  unfolding nfs4acl_valid posixacl_valid
  py_validate_acl no_acl = raise type_error
  py_validate_acl (nfs4_acl_object acl) = nfs4acl_valid fstat fd acl.data_bytes
  py_validate_acl (posix_acl_object acl) = posixacl_valid fstat fd acl.access_data acl.default_data
  py_validate_acl other_object = raise type_error
