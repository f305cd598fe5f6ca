-- ===== src/Xattr/Examples.antt =====
-- The theorems about src/cext/os/acl.c at a concrete file, and tests of the definitions.
use truenas_pyos.Prelude.{
  ◌++◌, ◌<◌, ◌==◌, inl, inr, arith, ℕ, ◌≡◌, refl, true, none, some, List, [], ◌∷◌, length,
}
use truenas_pyos.Prelude.Int.{pos}
use truenas_pyos.Py.{ok, raise, runtime_error}
use truenas_pyos.Prelude.Bytes.{le16, le32, read_le16, read_le32}
use truenas_pyos.Posix.Acl.{PosixAcl, posix_acl_init, get_aces, from_xattr_bytes}
use truenas_pyos.Posix.Valid.{
  count_tag, count_loop, check_counts, validate_posix_blob, posixacl_valid,
}
use truenas_pyos.Nfs4.Valid.{st_mode}
use truenas_pyos.Xattr.Calls.{
  Call, Reply, XattrKernel, access_acl, check_signals, default_acl, do_fgetacl, do_fsetacl_posix,
  done, failed, fgetacl_posix, nfs4_acl, posix_access, posix_data, posix_default, remove_quietly,
  retry, synthesize_posix_access_from_mode, trivial_ace,
}
use truenas_pyos.Xattr.Entry.{posix_acl_object, py_fgetacl, py_fsetacl}
use truenas_pyos.Xattr.CallsLaws.{Keeps, minimal_size}
use truenas_pyos.Xattr.EntryLaws.{py_fgetacl-py_fsetacl}
use truenas_pyos.Xattr.Synthesized.{mode_aces, synthesize_posix_access_from_mode-get_aces}

abbrev answer : {A : Type 0} → Reply A → Call A
answer reply = record { signals = []; reply = reply }

abbrev probe_of : Reply (List ℕ) → Call ℕ
probe_of (done bytes) = answer (done (length bytes))
probe_of (failed e) = answer (failed e)

-- A file with mode 0750 and without NFS4 ACLs, with what is stored for its two attributes.
abbrev file_with : Reply (List ℕ) → Reply (List ℕ) → XattrKernel
file_with access default_data = record {
  probe = λ name. elim name [
    | nfs4_acl ↦ answer (failed 95)
    | posix_access ↦ probe_of access
    | posix_default ↦ probe_of default_data
  ];
  read = λ name size. elim name [
    | nfs4_acl ↦ answer (failed 95)
    | posix_access ↦ answer access
    | posix_default ↦ answer default_data
  ];
  fstat = done 0o750;
  set = λ name bytes. answer (done tt);
  remove = λ name. answer (failed 61);
}

-- Uid 1000 may read and write beside the owner, the group and the others.
abbrev stored : List ℕ
stored =
    le32 2
    ++ trivial_ace 0x01 7
    ++ (le16 0x02 ++ le16 6 ++ le32 1000)
    ++ trivial_ace 0x04 5
    ++ trivial_ace 0x10 7
    ++ trivial_ace 0x20 0

abbrev acl : PosixAcl
acl = from_xattr_bytes stored none true

stored_size : minimal_size < length stored
unfolding le16 le32
stored_size = omega arith

-- An ACL of five entries is set and read again.
py_fgetacl-py_fsetacl_example :
    py_fgetacl (file_with (done stored) (failed 61))
    ≡ ok (posix_acl_object (from_xattr_bytes stored none (length stored == minimal_size)))
unfolding py_fsetacl check_signals do_fsetacl_posix retry remove_quietly from_xattr_bytes
    posix_acl_init posixacl_valid validate_posix_blob count_loop count_tag check_counts le16 le32
    read_le16 read_le32
py_fgetacl-py_fsetacl_example =
    py_fgetacl-py_fsetacl (λ fd. st_mode 0o100644) (pos 3) (file_with (failed 61) (failed 61))
      (file_with (done stored) (failed 61)) acl (refl, refl)
      (λ was_set. (inr (stored_size, (refl, refl, refl, refl)), (refl, refl))) refl

-- An ACL of the three entries of mode 0750 is folded into the mode, and read as one that is synthesized.
folded_test : Keeps (file_with (failed 61) (failed 61)) (synthesize_posix_access_from_mode 0o750)
unfolding check_signals
folded_test = inl (0o750, 0o750, refl, (refl, refl), refl, refl)

synthesize_posix_access_from_mode-get_aces_example :
    (get_aces (posix_acl_init (synthesize_posix_access_from_mode 0o750) none)
      ≡ ok (mode_aces 0o750))
    × (posixacl_valid
          (λ fd. st_mode 0o100750)
          (pos 3)
          (synthesize_posix_access_from_mode 0o750)
          none
        ≡ ok tt)
synthesize_posix_access_from_mode-get_aces_example =
    synthesize_posix_access_from_mode-get_aces (λ fd. st_mode 0o100750) (pos 3) 0o750

-- Without an access ACL, one is synthesized from the mode; also after an EIO of the probe.
do_fgetacl_test :
    do_fgetacl (file_with (failed 61) (failed 61))
    ≡ ok (posix_data (synthesize_posix_access_from_mode 0o750) true none)
unfolding do_fgetacl fgetacl_posix access_acl default_acl retry check_signals
do_fgetacl_test = refl

do_fgetacl_eio_test :
    do_fgetacl (file_with (failed 5) (failed 61))
    ≡ ok (posix_data (synthesize_posix_access_from_mode 0o750) true none)
unfolding do_fgetacl fgetacl_posix access_acl default_acl retry check_signals
do_fgetacl_eio_test = refl

-- A signal handler that raises ends a retried call with its exception.
retry_test :
    retry (record { signals = none ∷ some runtime_error ∷ []; reply = done tt })
    ≡ raise runtime_error
unfolding retry check_signals
retry_test = refl
