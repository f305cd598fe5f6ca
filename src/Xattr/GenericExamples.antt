-- ===== src/Xattr/GenericExamples.antt =====
-- The theorems about src/cext/os/xattr.c at concrete values, and tests of setting a value.
use truenas_pyos.Prelude.{ℕ, zero, suc, ◌≤◌, ◌≡◌, refl, some, none, List, [], ◌∷◌, length, arith}
use truenas_pyos.Prelude.Int.{pos}
use truenas_pyos.Py.{ok, raise, value_error, bad_xattr_flags}
use truenas_pyos.Xattr.Calls.{check_signals, done, retry}
use truenas_pyos.Xattr.Generic.{
  do_fgetxattr, do_flistxattr, do_fsetxattr, get_round, probe_size, read_reply, xattr_size_max,
}
use truenas_pyos.Xattr.GenericLaws.{
  do_fgetxattr-ends, do_flistxattr-name_list, filled, name_list, rounds_of,
}

-- Empty at the first probe, then three bytes.
abbrev probed : ℕ → List ℕ
probed zero = []
probed (suc i) = 1 ∷ 2 ∷ 3 ∷ []

abbrev held : ℕ → List ℕ
held i = 1 ∷ 2 ∷ 3 ∷ []

probed-small : (i : ℕ) → length (probed i) ≤ xattr_size_max
probed-small zero = omega arith
probed-small (suc i) = omega arith

-- The value grows in the first round and is read in the second.
do_fgetxattr-ends_example :
    (k : ℕ) × (k ≤ 1)
    × (do_fgetxattr 2 (rounds_of probed held (λ i. i) (λ i. 1)) ≡ some (ok (held k)))
do_fgetxattr-ends_example =
    do_fgetxattr-ends 1 probed held (λ i. i) (λ i. 1) probed-small (omega arith)

-- One round is not enough there.
do_fgetxattr_one : do_fgetxattr 1 (rounds_of probed held (λ i. i) (λ i. 1)) ≡ none
unfolding do_fgetxattr get_round probe_size retry check_signals read_reply
do_fgetxattr_one = refl

abbrev names : List (List ℕ)
names = (97 ∷ 98 ∷ []) ∷ (99 ∷ []) ∷ []

do_flistxattr-name_list_example :
    do_flistxattr ok (λ size. filled 1 (name_list names) size) ≡ ok names
unfolding name_list
do_flistxattr-name_list_example =
    do_flistxattr-name_list ok (λ s. s) (λ size. 1) names (λ s. refl)
      ((refl, (refl, tt)), ((refl, tt), tt))

do_fsetxattr_flags :
    do_fsetxattr (λ value flags. record { signals = []; reply = done tt }) (1 ∷ []) (pos 3)
    ≡ raise (value_error bad_xattr_flags)
unfolding do_fsetxattr
do_fsetxattr_flags = refl
