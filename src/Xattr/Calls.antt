-- ===== src/Xattr/Calls.antt =====
-- src/cext/os/acl.c: reading, setting and removing the ACL attributes of an open file. What the kernel
-- answers to each call is a parameter.
use truenas_pyos.Prelude.{
  ℕ, ◌/◌, ◌^◌, Bool, true, false, Option, none, some, List, [], ◌∷◌, ◌++◌, ◌==◌, if◌then◌else◌,
  bit_and,
}
use truenas_pyos.Prelude.Bytes.{le16, le32}
use truenas_pyos.Py.{Result, ok, raise, Exc, os_error, ◌>>=◌, ◌>>◌}

-- NFS4_ACL_XATTR, POSIX_ACCESS_XATTR and POSIX_DEFAULT_XATTR
pub data XattrName : Type 0 where
  nfs4_acl posix_access posix_default : XattrName

abbrev pub enodata : ℕ
enodata = 61

abbrev pub eopnotsupp : ℕ
eopnotsupp = 95

-- The return of a system call, or the errno of its failure.
pub data Reply {ℓ} (A : Type ℓ) : Type ℓ where
  done : A → Reply A
  failed : ℕ → Reply A

-- A call with its retries: for each EINTR, what PyErr_CheckSignals raises, if anything, and the reply
-- that is none.
pub record Call (A : Type 0) : Type 0 where
  pub signals : List (Option Exc)
  pub reply : Reply A

-- The `do ... while` round a call: it ends with the reply or with the exception of a signal handler.
unfoldable pub check_signals : List (Option Exc) → Result (Unit {0})
check_signals [] = ok tt
check_signals (none ∷ rest) = check_signals rest
check_signals (some e ∷ rest) = raise e

unfoldable pub retry : {A : Type 0} → Call A → Result (Reply A)
unfolding check_signals
retry c = check_signals c.signals >> ok c.reply

-- A failure as an `OSError`.
abbrev pub or_os_error : {A : Type 0} → Reply A → Result A
or_os_error (done x) = ok x
or_os_error (failed e) = raise (os_error e)

-- `ret == -1 && errno != ENODATA` after a removal.
abbrev pub or_gone : Reply (Unit {0}) → Result (Unit {0})
or_gone (done u) = ok tt
or_gone (failed e) = if e == enodata then ok tt else raise (os_error e)

-- The kernel's answers during a call of the module: fgetxattr without and with a buffer, fstat, and
-- fsetxattr and fremovexattr. Each is asked at most once for an attribute.
pub record XattrKernel : Type 0 where
  pub probe : XattrName → Call ℕ
  pub read : XattrName → ℕ → Call (List ℕ)
  pub fstat : Reply ℕ
  pub set : XattrName → List ℕ → Call (Unit {0})
  pub remove : XattrName → Call (Unit {0})

-- acl_xattr_t; `none` is a NULL default_data, and an empty NFS4 ACL is its NULL data.
pub data AclXattr : Type 0 where
  nfs4_data : List ℕ → AclXattr
  posix_data : List ℕ → Bool → Option (List ℕ) → AclXattr

-- One entry of the synthesized ACL.
abbrev pub trivial_ace : ℕ → ℕ → List ℕ
trivial_ace tag perm = le16 tag ++ (le16 perm ++ le32 0xffffffff)

-- synthesize_posix_access_from_mode
unfoldable pub synthesize_posix_access_from_mode : ℕ → List ℕ
synthesize_posix_access_from_mode mode =
    le32 2
    ++ (trivial_ace 0x0001 (bit_and (mode / 2 ^ 6) 7)
        ++ (trivial_ace 0x0004 (bit_and (mode / 2 ^ 3) 7) ++ trivial_ace 0x0020 (bit_and mode 7)))

module _ (k : XattrKernel) where
  -- read_xattr_raw
  unfoldable pub read_xattr_raw : XattrName → ℕ → Result (List ℕ)
  unfolding retry
  read_xattr_raw name sz = retry (k.read name sz) >>= or_os_error

  -- The access ACL and whether it is synthesized, from the reply to the probe.
  unfoldable pub access_acl : Reply ℕ → Result (List ℕ × Bool)
  unfolding read_xattr_raw synthesize_posix_access_from_mode
  access_acl reply =
      let synthesized : Result (List ℕ × Bool) =
        or_os_error k.fstat >>= λ mode. ok (synthesize_posix_access_from_mode mode, true) in
      elim reply [
        | done sz ↦
            if sz == 0
            then synthesized
            else (read_xattr_raw posix_access sz >>= λ bytes. ok (bytes, false))
        | failed e ↦ if e == eopnotsupp then raise (os_error e) else synthesized
      ]

  -- The default ACL, from the reply to the probe.
  unfoldable pub default_acl : Reply ℕ → Result (Option (List ℕ))
  unfolding read_xattr_raw
  default_acl (done sz) =
      if sz == 0 then ok none else (read_xattr_raw posix_default sz >>= λ bytes. ok (some bytes))
  default_acl (failed e) = if e == enodata then ok none else raise (os_error e)

  -- do_fgetacl on a filesystem without NFS4 ACLs.
  unfoldable pub fgetacl_posix : Result AclXattr
  unfolding retry access_acl default_acl
  fgetacl_posix = do
    reply ← retry (k.probe posix_access)
    access ← access_acl reply
    dreply ← retry (k.probe posix_default)
    default_data ← default_acl dreply
    ok (posix_data access.0 access.1 default_data)

  -- do_fgetacl
  unfoldable pub do_fgetacl : Result AclXattr
  unfolding retry read_xattr_raw fgetacl_posix
  do_fgetacl = retry (k.probe nfs4_acl) >>= λ reply. elim reply [
    | done sz ↦
        if sz == 0
        then ok (nfs4_data [])
        else (read_xattr_raw nfs4_acl sz >>= λ bytes. ok (nfs4_data bytes))
    | failed e ↦
        if e == enodata
        then ok (nfs4_data [])
        else if e == eopnotsupp
        then fgetacl_posix
        else raise (os_error e)
  ]

  -- do_fsetacl_nfs4
  unfoldable pub do_fsetacl_nfs4 : List ℕ → Result (Unit {0})
  unfolding retry
  do_fsetacl_nfs4 data_bytes = retry (k.set nfs4_acl data_bytes) >>= or_os_error

  -- A removal, where an attribute that is absent is none the worse.
  unfoldable pub remove_quietly : XattrName → Result (Unit {0})
  unfolding retry
  remove_quietly name = retry (k.remove name) >>= or_gone

  -- do_fsetacl_posix
  unfoldable pub do_fsetacl_posix : List ℕ → Option (List ℕ) → Result (Unit {0})
  unfolding retry remove_quietly
  do_fsetacl_posix access_data default_data = do
    reply ← retry (k.set posix_access access_data)
    or_os_error reply
    elim default_data [
      | some bytes ↦ retry (k.set posix_default bytes) >>= or_os_error
      | none ↦ remove_quietly posix_default
    ]

  -- do_fremoveacl where NFS4 ACLs are not supported.
  unfoldable pub fremoveacl_posix : Result (Unit {0})
  unfolding retry remove_quietly
  fremoveacl_posix = retry (k.remove posix_access) >>= λ reply. elim reply [
    | done u ↦ remove_quietly posix_default
    | failed e ↦
        if e == enodata
        then remove_quietly posix_default
        else if e == eopnotsupp
        then ok tt
        else raise (os_error e)
  ]

  -- do_fremoveacl
  unfoldable pub do_fremoveacl : Result (Unit {0})
  unfolding retry remove_quietly fremoveacl_posix
  do_fremoveacl = retry (k.probe nfs4_acl) >>= λ reply. elim reply [
    | done sz ↦ remove_quietly nfs4_acl
    | failed e ↦
        if e == enodata
        then ok tt
        else if e == eopnotsupp
        then fremoveacl_posix
        else raise (os_error e)
  ]
