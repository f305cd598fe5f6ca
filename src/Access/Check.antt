-- ===== src/Access/Check.antt =====
-- src/cext/os/acl_check.c: the parent's side, from the arguments of check_path_access to its list.
use truenas_pyos.Prelude.{
  ℕ, ◌-◌, ◌*◌, ◌^◌, bit_and, Bool, false, not, ◌||◌, Option, none, some, List, [], ◌∷◌, length,
  get_elem?, take, leb, ◌==◌, if◌then◌else◌,
}
use truenas_pyos.Prelude.Int.{ℤ, u32_of}
use truenas_pyos.Py.{
  Result, ok, raise, out_of_bounds, value_error, bad_mode, system_error, os_error, child_error,
  load, raise_if, ◌>>=◌, ◌>>◌,
}
use truenas_pyos.Access.Child.{
  Kernel, WaitStatus, exited, fatal_cred_idx, run_check_child, signaled,
}
use truenas_pyos.Access.Creds.{Component, Cred, CredItem, IdName, parse_components, parse_creds}
use truenas_pyos.Access.Pipe.{FailureRec, Transfer, Writer, drain_error, drain_pipe, drained}

-- A call of waitpid(2) that returns no status.
pub data WaitCall : Type 0 where
  wait_interrupted : WaitCall
  wait_failed : ℕ → WaitCall

-- What the operating system does during one run: its system calls, the credentials the clone starts
-- with, the errnos of pipe2 and clone3, how writes, reads and waits go, and a signal that ends the
-- child after so many bytes.
pub record Os (Task : Type 0) : Type 0 where
  pub kernel : Kernel Task
  pub task : Task
  pub pipe2 : Option ℕ
  pub clone3 : Option ℕ
  pub writes : List Transfer
  pub reads : List Transfer
  pub waits : List WaitCall
  pub killed : Option (ℕ × ℕ)

-- reap_child: `none` for 0, or the errno of -1.
unfoldable pub reap_child : List WaitCall → Option ℕ
reap_child [] = none
reap_child (wait_interrupted ∷ calls) = reap_child calls
reap_child (wait_failed e ∷ calls) = some e

-- What run_check returns: the records and the child's status, or an errno.
pub data Run : Type 0 where
  completed : List FailureRec → WaitStatus → Run
  run_error : ℕ → Run

-- The errno of a record of a failed stage, the first one.
unfoldable pub fatal_err : List FailureRec → ℕ
fatal_err [] = 0
fatal_err (r ∷ rs) = let rest = fatal_err rs in if r.cred_idx == fatal_cred_idx then r.err else rest

-- The wait status as a number.
abbrev pub status_number : WaitStatus → ℕ
status_number (exited code) = code * 256
status_number (signaled signal) = signal

abbrev exited_zero : WaitStatus → Bool
exited_zero (exited code) = code == 0
exited_zero (signaled signal) = false

-- raise_for_child_status; `ok tt` is its 0.
unfoldable pub raise_for_child_status : WaitStatus → List FailureRec → Result (Unit {0})
unfolding fatal_err
raise_for_child_status status recs =
    if exited_zero status
    then ok tt
    else if not (fatal_err recs == 0)
    then raise (os_error (fatal_err recs))
    else raise (child_error (status_number status))

-- The three fields of a `truenas_os.AccessFailure`.
pub record AccessFailure : Type 0 where
  pub id_name : IdName
  pub failing_component : List ℕ
  pub errnum : ℕ

-- The entry of one record, at indices that the two lists have.
unfoldable pub failure_of : List Cred → List (List ℕ) → FailureRec → Result AccessFailure
failure_of creds components r =
    if leb (length creds) r.cred_idx || leb (length components) r.comp_idx
    then raise system_error
    else do
      c ← load (get_elem? creds r.cred_idx)
      path ← load (get_elem? components r.comp_idx)
      ok (record { id_name = c.id_name; failing_component = path; errnum = r.err })

-- build_failure_list
unfoldable pub build_failure_list :
    List Cred → List (List ℕ) → List FailureRec → Result (List AccessFailure)
unfolding failure_of
build_failure_list creds components [] = ok []
build_failure_list creds components (r ∷ rs) =
    let rest = build_failure_list creds components rs in
    if r.cred_idx == fatal_cred_idx
    then rest
    else failure_of creds components r >>= λ entry. rest >>= λ entries. ok (entry ∷ entries)

-- What do_check_path_access makes of the result of run_check.
unfoldable pub finish : List Cred → List (List ℕ) → Run → Result (List AccessFailure)
unfolding raise_for_child_status build_failure_list
finish creds components (run_error e) = raise (os_error e)
finish creds components (completed recs status) =
    raise_for_child_status status recs >> build_failure_list creds components recs

-- `mode == 0 || (mode & ~(R_OK | W_OK | X_OK)) != 0`, of a C int.
abbrev pub bad_access_mode : ℤ → Bool
bad_access_mode mode = u32_of mode == 0 || not (bit_and (u32_of mode) (2 ^ 32 - 1 - 7) == 0)

-- The parsed arguments.
pub record Checked : Type 0 where
  pub creds : List Cred
  pub components : List (List ℕ)

unfoldable pub check_arguments :
    Option (List CredItem) → Option (List Component) → ℤ → Result Checked
unfolding parse_creds parse_components
check_arguments creds_seq components_seq mode = do
  raise_if (bad_access_mode mode) (value_error bad_mode)
  creds ← parse_creds creds_seq
  components ← parse_components components_seq
  ok (record { creds = creds; components = components })

module _ {Task : Type 0} (os : Os Task) where
  -- The child's status and the bytes that it leaves on the pipe.
  unfoldable pub child_of : WaitStatus × Writer → WaitStatus × List ℕ
  child_of (status, w) = elim os.killed [
    | none ↦ (status, w.out)
    | some (count, signal) ↦ (signaled signal, take count w.out)
  ]

  -- The parent's part of run_check, once the child runs: drain, then reap.
  unfoldable pub collect : WaitStatus × List ℕ → Option Run
  unfolding drain_pipe reap_child
  collect (status, bytes_left) = elim (drain_pipe os.reads bytes_left) [
    | none ↦ none
    | some (drain_error e) ↦ some (run_error e)
    | some (drained recs) ↦ elim (reap_child os.waits) [
      | some e ↦ some (run_error e)
      | none ↦ some (completed recs status)
    ]
  ]

  -- run_check
  unfoldable pub run_check : Bool → ℕ → List (List ℕ) → List Cred → Option Run
  unfolding run_check_child child_of collect
  run_check path_must_exist mode components creds = elim os.pipe2 [
    | some e ↦ some (run_error e)
    | none ↦ elim os.clone3 [
      | some e ↦ some (run_error e)
      | none ↦ collect (
          child_of (
            run_check_child os.kernel path_must_exist mode components 0 creds os.task
              (record { script = os.writes; out = [] })))
    ]
  ]

  -- The rest of do_check_path_access; without components nothing is cloned.
  unfoldable pub check_all :
      Bool → ℤ → List Cred → List (List ℕ) → Option (Result (List AccessFailure))
  unfolding run_check finish
  check_all path_must_exist mode creds [] = some (ok [])
  check_all path_must_exist mode creds (path ∷ paths) =
      elim (run_check path_must_exist (u32_of mode) (path ∷ paths) creds) [
        | none ↦ none
        | some run ↦ some (finish creds (path ∷ paths) run)
      ]

  -- do_check_path_access; `none` is a `drain_pipe` that runs out of fuel.
  unfoldable pub do_check_path_access :
      Option (List CredItem)
      → Option (List Component)
      → Bool
      → ℤ
      → Option (Result (List AccessFailure))
  unfolding check_arguments check_all
  do_check_path_access creds_seq components_seq path_must_exist mode =
      elim (check_arguments creds_seq components_seq mode) [
        | ok args ↦ check_all path_must_exist mode args.creds args.components
        | raise e ↦ some (raise e)
        | out_of_bounds ↦ some out_of_bounds
      ]
