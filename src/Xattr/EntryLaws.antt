-- ===== src/Xattr/EntryLaws.antt =====
-- src/cext/os/truenas_os.c: reading back the ACL that was set.
use truenas_pyos.Prelude.{◌≡◌, refl, length, ◌==◌}
use truenas_pyos.Prelude.Int.{ℤ}
use truenas_pyos.Py.{ok, >>=-eq-ok}
use truenas_pyos.Nfs4.Valid.{Stat}
use truenas_pyos.Posix.Acl.{PosixAcl, from_xattr_bytes}
use truenas_pyos.Posix.Valid.{posixacl_valid}
use truenas_pyos.Xattr.Calls.{XattrKernel, do_fsetacl_posix, eopnotsupp, nfs4_acl}
use truenas_pyos.Xattr.CallsLaws.{
  HoldsDefault, Keeps, Lacks, WasSet, minimal_size, do_fgetacl-do_fsetacl_posix,
}
use truenas_pyos.Xattr.Entry.{acl_object, posix_acl_object, py_fgetacl, py_fsetacl}

-- A POSIX ACL that fsetacl has set on a file comes back from fgetacl with the same bytes; it counts as
-- synthesized exactly where its access ACL has the size of a minimal one. The kernel `k'` answers after
-- the calls that were made to `k`: an access ACL that says the same as mode bits has become these bits
-- and is no attribute, an access ACL of more than three entries and a default ACL are held as they
-- were set, and there is no default ACL where it was removed or absent. It does not support NFS4 ACLs,
-- and no signal handler raises while it is asked.
pub py_fgetacl-py_fsetacl :
    (fstat : ℤ → Stat) (fd : ℤ) (k k' : XattrKernel) (acl : PosixAcl)
    → Lacks k' nfs4_acl eopnotsupp
    → (WasSet k acl.access_data acl.default_data
        → Keeps k' acl.access_data × HoldsDefault k' acl.default_data)
    → py_fsetacl fstat fd k (posix_acl_object acl) ≡ ok tt
    → py_fgetacl k'
      ≡ ok (
          posix_acl_object (
            from_xattr_bytes acl.access_data acl.default_data
              (length acl.access_data == minimal_size)))
unfolding py_fsetacl py_fgetacl acl_object
py_fgetacl-py_fsetacl fstat fd k k' acl no_nfs4 after e =
    let (u, valid, sets) =
      >>=-eq-ok (posixacl_valid fstat fd acl.access_data acl.default_data)
        (λ _. do_fsetacl_posix k acl.access_data acl.default_data) e in
    rw (do_fgetacl-do_fsetacl_posix k k' acl.access_data acl.default_data no_nfs4 after sets) refl
