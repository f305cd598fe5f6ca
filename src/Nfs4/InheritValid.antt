-- ===== src/Nfs4/InheritValid.antt =====
-- The ACLs that `generate_inherited_acl` makes of a directory's ACL, under the check that `fsetacl`
-- runs before it sets them.
use truenas_pyos.Prelude.{
  ℕ, ◌≤◌, ◌<◌, ◌≡◌, ◌≢◌, ◌↔◌, ◌⊎◌, refl, sym, ◌∙◌, Bool, true, false, List, [], ◌∷◌, length, All,
  arith, Bool-cases, inl, inr,
}
use truenas_pyos.Prelude.Int.{ℤ}
use truenas_pyos.Prelude.Bits.{bit, bit-le-one}
use truenas_pyos.Prelude.Bytes.{IsBytes}
use truenas_pyos.Py.{ok}
use truenas_pyos.Nfs4.Acl.{Nfs4Acl}
use truenas_pyos.Nfs4.Children.{child, children, inheritable}
use truenas_pyos.Nfs4.Entries.{entries}
use truenas_pyos.Nfs4.Flags.{bit-inherited_flags, child_digit}
use truenas_pyos.Nfs4.Inherit.{ace_is_inheritable, generate_inherited_acl}
use truenas_pyos.Nfs4.InheritLaws.{generate_inherited_acl-children}
use truenas_pyos.Nfs4.Slot.{RawAce}
use truenas_pyos.Nfs4.Valid.{Stat, nfs4acl_valid, target_is_dir}
use truenas_pyos.Nfs4.ValidLaws.{
  IsAcceptable, IsQuiet, PassesOn, check_entries_iff, passes_on, passes_on_iff,
}
use truenas_pyos.Nfs4.ValidLoop.{Any, nfs4acl_valid-check_entries}

child-IsQuiet : (r : RawAce) → IsQuiet (child false r)
child-IsQuiet r =
    let f = r.flags_word in
    (
      bit-inherited_flags false f 0 (omega arith),
      bit-inherited_flags false f 1 (omega arith),
      bit-inherited_flags false f 2 (omega arith),
      bit-inherited_flags false f 3 (omega arith),
    )

children-All :
    (P Q : RawAce → Type 0) (is_dir : Bool) (rs : List RawAce)
    → ((r : RawAce) → ace_is_inheritable r.flags_word is_dir ≡ true → P r → Q (child is_dir r))
    → All P rs
    → All Q (children is_dir rs)
children-All P Q is_dir [] f h = tt
children-All P Q is_dir (r ∷ rs) f h = elim (Bool-cases (ace_is_inheritable r.flags_word is_dir)) [
  | inl e ↦ rw e (f r e h.0, children-All P Q is_dir rs f h.1)
  | inr e ↦ rw e (children-All P Q is_dir rs f h.1)
]

-- An inheritable entry that a directory below a new directory would get as well.
abbrev pub PropagatesOn : RawAce → Type 0
PropagatesOn r =
    PassesOn r × ((bit 2 r.flags_word ≡ 0) ⊎ ((bit 3 r.flags_word ≡ 1) × (bit 0 r.flags_word ≡ 1)))

bit-child :
    (r : RawAce) (k : ℕ) → k < 4 → bit k (child true r).flags_word ≡ child_digit true r.flags_word k
bit-child r k lt = bit-inherited_flags true r.flags_word k (omega arith)

child-IsAcceptable :
    (r : RawAce) → PassesOn r → IsAcceptable true r → IsAcceptable true (child true r)
child-IsAcceptable r p h = (h.0, rest)
  where
    rest :
        ((bit 2 (child true r).flags_word ≡ 0) × (bit 3 (child true r).flags_word ≡ 0))
        ⊎ PassesOn (child true r)
    rest = ground (
      arith,
      bit-child r 0 (omega arith),
      bit-child r 1 (omega arith),
      bit-child r 2 (omega arith),
      bit-child r 3 (omega arith),
      bit-le-one 2 r.flags_word,
    )

child-PassesOn_iff : (r : RawAce) → PassesOn r → PassesOn (child true r) ↔ PropagatesOn r
child-PassesOn_iff r p = (
  λ h. (
    p,
    ground (
      arith,
      bit-child r 0 (omega arith),
      bit-child r 1 (omega arith),
      bit-le-one 2 r.flags_word,
    ),
  ),
  λ h. ground (arith, bit-child r 0 (omega arith), bit-child r 1 (omega arith)),
)

inheritable_dir-eq-passes_on : (r : RawAce) → ace_is_inheritable r.flags_word true ≡ passes_on r
unfolding ace_is_inheritable
inheritable_dir-eq-passes_on r = refl

inheritable_dir→PassesOn : (r : RawAce) → ace_is_inheritable r.flags_word true ≡ true → PassesOn r
inheritable_dir→PassesOn r e = (passes_on_iff r).0 (sym (inheritable_dir-eq-passes_on r) ∙ e)

inheritable_dir_of_PassesOn :
    (r : RawAce) → PassesOn r → ace_is_inheritable r.flags_word true ≡ true
inheritable_dir_of_PassesOn r p = inheritable_dir-eq-passes_on r ∙ (passes_on_iff r).1 p

inheritable-ne-nil : (rs : List RawAce) → Any PassesOn rs → inheritable true rs ≢ []
inheritable-ne-nil [] h e = h
inheritable-ne-nil (r ∷ rs) (inl p) e = cc (rw (inheritable_dir_of_PassesOn r p) at e)
inheritable-ne-nil (r ∷ rs) (inr p) e = elim (Bool-cases (ace_is_inheritable r.flags_word true)) [
  | inl yes_it ↦ cc (rw yes_it at e)
  | inr no_it ↦ inheritable-ne-nil rs p (rw no_it at e)
]

children-PassesOn_iff : (rs : List RawAce) → Any PassesOn (children true rs) ↔ Any PropagatesOn rs
children-PassesOn_iff [] = (λ h. h, λ h. h)
children-PassesOn_iff (r ∷ rs) = elim (Bool-cases (ace_is_inheritable r.flags_word true)) [
  | inl e ↦
      let iff = child-PassesOn_iff r (inheritable_dir→PassesOn r e) in
      let more = children-PassesOn_iff rs in
      rw e (
        elim [ inl h ↦ inl (iff.0 h) | inr h ↦ inr (more.0 h) ],
        elim [ inl h ↦ inl (iff.1 h) | inr h ↦ inr (more.1 h) ],
      )
  | inr e ↦
      let more = children-PassesOn_iff rs in
      let barred : ¬ PassesOn r = λ p. cc (inheritable_dir_of_PassesOn r p) in
      rw e (λ h. inr (more.0 h), elim [ inl h ↦ absurd (barred h.0) | inr h ↦ more.1 h ])
]

module _ (acl : Nfs4Acl) (fstat : ℤ → Stat) (parent_fd fd : ℤ) (bytes : IsBytes acl.data_bytes)
    (size : 8 ≤ length acl.data_bytes) (parent_dir : target_is_dir fstat parent_fd ≡ ok true)
    (accepted : nfs4acl_valid fstat parent_fd acl.data_bytes ≡ ok tt) where
  parent_valid :
      All (IsAcceptable true) (entries acl.data_bytes) × Any PassesOn (entries acl.data_bytes)
  parent_valid =
      (check_entries_iff true (entries acl.data_bytes)).0 (
        sym (nfs4acl_valid-check_entries fstat parent_fd acl.data_bytes parent_dir size) ∙ accepted)

  -- From an ACL that is valid on a directory and has entries for files, a file gets an ACL that is
  -- valid on a file.
  pub generate_inherited_acl_file :
      target_is_dir fstat fd ≡ ok false
      → inheritable false (entries acl.data_bytes) ≢ []
      → (made : Nfs4Acl) × (generate_inherited_acl acl false ≡ ok made)
        × (nfs4acl_valid fstat fd made.data_bytes ≡ ok tt)
  generate_inherited_acl_file target kept =
      let (made, makes, holds, _, _, whole) =
        generate_inherited_acl-children acl false bytes size kept in
      let acceptable =
        children-All (IsAcceptable true) (IsAcceptable false) false (entries acl.data_bytes)
          (λ r e h. h.0) parent_valid.0 in
      let quiet =
        children-All (IsAcceptable true) IsQuiet false (entries acl.data_bytes)
          (λ r e h. child-IsQuiet r) parent_valid.0 in
      (
        made,
        makes,
        nfs4acl_valid-check_entries fstat fd made.data_bytes target (omega arith)
            ∙ (check_entries_iff false (entries made.data_bytes)).1 (rw holds (acceptable, quiet)),
      )

  -- From an ACL that is valid on a directory, a directory gets an ACL that is valid on a directory
  -- exactly when some inheritable entry has no NO_PROPAGATE_INHERIT, or has INHERIT_ONLY and
  -- FILE_INHERIT beside it.
  pub generate_inherited_acl_dir :
      target_is_dir fstat fd ≡ ok true
      → (made : Nfs4Acl) × (generate_inherited_acl acl true ≡ ok made)
        × ((nfs4acl_valid fstat fd made.data_bytes ≡ ok tt)
            ↔ Any PropagatesOn (entries acl.data_bytes))
  generate_inherited_acl_dir target =
      let rs = entries acl.data_bytes in
      let (made, makes, holds, _, _, whole) =
        generate_inherited_acl-children acl true bytes size
          (inheritable-ne-nil rs parent_valid.1) in
      let acceptable =
        children-All (IsAcceptable true) (IsAcceptable true) true rs
          (λ r e h. child-IsAcceptable r (inheritable_dir→PassesOn r e) h) parent_valid.0 in
      let checks = nfs4acl_valid-check_entries fstat fd made.data_bytes target (omega arith) in
      let passes = check_entries_iff true (entries made.data_bytes) in
      (
        made,
        makes,
        (
          λ h. (children-PassesOn_iff rs).0 (rw holds at (passes.0 (sym checks ∙ h)).1),
          λ h. checks ∙ passes.1 (rw holds (acceptable, (children-PassesOn_iff rs).1 h)),
        ),
      )
