-- ===== src/Posix/InheritLaws.antt =====
-- The ACL that `POSIXACL_generate_inherited_acl` makes for a new child.
use truenas_pyos.Prelude.{
  ℕ, zero, suc, ◌+◌, ◌-◌, ◌/◌, Option-cases, ◌≡◌, ◌≢◌, refl, Bool, true, false, none, some, List,
  [], map, length, arith, if◌then◌else◌, Bool-cases, inl, inr,
}
use truenas_pyos.Prelude.Int.{ℤ}
use truenas_pyos.Py.{◌>>=◌, int_enum_call, int_flag_call, ok}
use truenas_pyos.Nfs4.Valid.{Stat}
use truenas_pyos.Posix.Types.{PosixAce}
use truenas_pyos.Posix.Acl.{
  PosixAcl, posix_acl_init, parse_posix_ace, entry_at, parse_loop, parse_posix_aces, get_aces,
  get_default_aces, generate_inherited_acl,
}
use truenas_pyos.Posix.Valid.{posixacl_valid}
use truenas_pyos.Posix.Accepted.{IsDirTarget, posixacl_valid_iff}

-- The same entry in an access ACL.
abbrev pub as_access : PosixAce → PosixAce
as_access a = record a { default_ = false }

parse_posix_ace-as_access :
    (p : List ℕ) → parse_posix_ace p false ≡ (parse_posix_ace p true >>= λ a. ok (as_access a))
unfolding parse_posix_ace int_enum_call int_flag_call
parse_posix_ace-as_access p = ground arith

parse_loop-as_access :
    (left i : ℕ) (buf : List ℕ)
    → parse_loop left i buf false ≡ (parse_loop left i buf true >>= λ xs. ok (map as_access xs))
unfolding parse_loop
parse_loop-as_access zero i buf = refl
parse_loop-as_access (suc left) i buf =
    rw (parse_posix_ace-as_access (entry_at buf i), parse_loop-as_access left (i + 1) buf) ground
      arith

parse_posix_aces-as_access :
    (buf : List ℕ)
    → parse_posix_aces buf false ≡ (parse_posix_aces buf true >>= λ xs. ok (map as_access xs))
unfolding parse_posix_aces
parse_posix_aces-as_access buf = ground (arith, parse_loop-as_access ((length buf - 4) / 8) 0 buf)

-- From a parent that passes validation and has a default ACL, a child's ACL is made. Its access
-- entries are the parent's default entries; a child directory keeps them as its default entries too,
-- and a child file has no default entry. It passes validation on the child, when that is a file or
-- an object that can carry a default ACL.
pub generate_inherited_acl-posixacl_valid :
    (acl : PosixAcl) (is_dir : Bool) (fstat : ℤ → Stat) (parent_fd child_fd : ℤ)
    → posixacl_valid fstat parent_fd acl.access_data acl.default_data ≡ ok tt
    → acl.default_data ≢ none
    → (is_dir ≡ true → IsDirTarget fstat child_fd)
    → (made : PosixAcl) × (generate_inherited_acl acl is_dir ≡ ok made)
      × (get_aces made ≡ (get_default_aces acl >>= λ xs. ok (map as_access xs)))
      × (get_default_aces made ≡ (if is_dir then get_default_aces acl else ok []))
      × (posixacl_valid fstat child_fd made.access_data made.default_data ≡ ok tt)
unfolding generate_inherited_acl get_aces get_default_aces posix_acl_init
generate_inherited_acl-posixacl_valid acl is_dir fstat parent_fd child_fd valid has_default target =
    elim (Option-cases acl.default_data) [
      | inl e ↦ absurd (has_default e)
      | inr (bytes, e) ↦
          let (va, (t, vb)) =
            (posixacl_valid_iff fstat parent_fd acl.access_data (some bytes)).0 (rw e at valid) in
          elim (Bool-cases is_dir) [
            | inl d ↦ (
              posix_acl_init bytes (some bytes),
              rw (e, d) refl,
              rw e (parse_posix_aces-as_access bytes),
              rw (e, d) refl,
              (posixacl_valid_iff fstat child_fd bytes (some bytes)).1 (vb, (target d, vb)),
            )
            | inr d ↦ (
              posix_acl_init bytes none,
              rw (e, d) refl,
              rw e (parse_posix_aces-as_access bytes),
              rw (e, d) refl,
              (posixacl_valid_iff fstat child_fd bytes none).1 (vb, tt),
            )
          ]
    ]
