-- ===== src/Access/Failures.antt =====
-- src/cext/os/acl_check.c: the list that build_failure_list makes of the records of a credential.
use truenas_pyos.Prelude.{
  ℕ, zero, suc, ◌+◌, ◌<◌, ◌≡◌, refl, inl, inr, Bool, false, ◌||◌, Option, none, some, List, [], ◌∷◌,
  ◌++◌, length, drop, get_elem?, leb, arith, ◌==◌, Option-cases,
}
use truenas_pyos.Py.{ok}
use truenas_pyos.Prelude.Bytes.{c_string}
use truenas_pyos.Access.Check.{AccessFailure, build_failure_list, failure_of}
use truenas_pyos.Access.Child.{fatal_cred_idx}
use truenas_pyos.Access.Creds.{Cred, IdName, uint32_max}
use truenas_pyos.Access.Denials.{denied, reported}
use truenas_pyos.Access.Pipe.{FailureRec}

-- Where a list goes on at an index, it has an element there.
pub drop-cons {ℓ} :
    {A : Type ℓ} (xs : List A) (n : ℕ) {y : A} {ys : List A}
    → drop n xs ≡ y ∷ ys
    → (get_elem? xs n ≡ some y) × (n < length xs) × (drop (n + 1) xs ≡ ys)
drop-cons [] zero h = cc
drop-cons [] (suc n) h = cc
drop-cons (x ∷ xs) zero h = (cc, omega arith, cc)
drop-cons (x ∷ xs) (suc n) h =
    let (e, lt, d) = drop-cons xs n h in
    let next : suc n + 1 ≡ suc (n + 1) = omega arith in (e, omega arith, rw next d)

-- The failures of one credential.
abbrev pub with_failure : IdName → List ℕ → List AccessFailure → Option ℕ → List AccessFailure
with_failure name path rest none = rest
with_failure name path rest (some e) =
    record { id_name = name; failing_component = path; errnum = e } ∷ rest

abbrev pub refused : Bool → (List ℕ → Option ℕ) → IdName → List (List ℕ) → List AccessFailure
refused path_must_exist answer name [] = []
refused path_must_exist answer name (path ∷ paths) =
    with_failure name path (refused path_must_exist answer name paths)
      (reported path_must_exist (answer (c_string path)))

module _ (creds : List Cred) (components : List (List ℕ)) where
  failure_of-entry :
      (r : FailureRec) {c : Cred} {path : List ℕ}
      → get_elem? creds r.cred_idx ≡ some c
      → get_elem? components r.comp_idx ≡ some path
      → r.cred_idx < length creds
      → r.comp_idx < length components
      → failure_of creds components r
        ≡ ok (record { id_name = c.id_name; failing_component = path; errnum = r.err })
  unfolding failure_of
  failure_of-entry r e f lt lu =
      let inside : (leb (length creds) r.cred_idx || leb (length components) r.comp_idx) ≡ false =
        ground arith in
      rw (inside, e, f) refl

  pub build-denied :
      (path_must_exist : Bool) (answer : List ℕ → Option ℕ) (ci : ℕ) {c : Cred}
      → get_elem? creds ci ≡ some c
      → ci < length creds
      → ci < uint32_max
      → (more : List FailureRec) {later : List AccessFailure}
      → build_failure_list creds components more ≡ ok later
      → (pi : ℕ) (paths : List (List ℕ)) → drop pi components ≡ paths
      → build_failure_list creds components (denied path_must_exist answer ci pi paths ++ more)
        ≡ ok (refused path_must_exist answer c.id_name paths ++ later)
  unfolding build_failure_list
  build-denied pme answer ci at_ci lt small more built pi [] d = built
  build-denied pme answer ci {c} at_ci lt small more {later} built pi (path ∷ paths) d =
      let (at_pi, lu, next) = drop-cons components pi d in
      let ih = build-denied pme answer ci at_ci lt small more built (pi + 1) paths next in
      elim (Option-cases (reported pme (answer (c_string path)))) [
        | inl e ↦ rw e ih
        | inr (err, e) ↦
            let not_fatal : (ci == fatal_cred_idx) ≡ false = ground arith in
            rw
              (
                e,
                not_fatal,
                failure_of-entry (record { cred_idx = ci; comp_idx = pi; err = err }) at_ci at_pi lt
                    lu,
                ih,
              )
              refl
      ]
