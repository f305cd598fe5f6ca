-- ===== src/Access/CheckLaws.antt =====
-- The whole of check_path_access: which failures it reports.
use truenas_pyos.Prelude.{
  ℕ, ◌+◌, ◌≤◌, ◌<◌, ◌^◌, ◌≡◌, refl, ap, sym, ◌∙◌, inl, inr, Bool, not, ◌&&◌, Option, none, some,
  List, [], ◌∷◌, ◌++◌, length, drop, All, All-append, arith, ◌==◌, Bool-cases, Option-cases,
}
use truenas_pyos.Prelude.Int.{ℤ, u32_of}
use truenas_pyos.Py.{Result, ok}
use truenas_pyos.Prelude.Bytes.{c_string}
use truenas_pyos.Access.Check.{
  AccessFailure, Checked, Os, Run, build_failure_list, check_all, check_arguments, child_of,
  collect, completed, do_check_path_access, finish, raise_for_child_status, reap_child, run_check,
}
use truenas_pyos.Access.Child.{WaitStatus, enoent, exited, run_check_child}
use truenas_pyos.Access.KernelLaws.{KernelLaws}
use truenas_pyos.Access.ChildLaws.{
  FitsRecord, IsSwappable, answer_of, probed_uid, bytes_of, denied_all, records_of-bytes_of,
  run_check_child-denied_all,
}
use truenas_pyos.Access.Creds.{Component, Cred, CredItem, uint32_max}
use truenas_pyos.Access.Denials.{denied}
use truenas_pyos.Access.Pipe.{FailureRec, Writer, drain_pipe, drained}
use truenas_pyos.Access.PipeLaws.{IsHarmless, drain_pipe-records_of}
use truenas_pyos.Access.Failures.{build-denied, drop-cons, refused}

denied-FitsRecord :
    (path_must_exist : Bool) (answer : List ℕ → Option ℕ) (ci : ℕ)
    → ci < 2 ^ 32
    → ((path : List ℕ) (e : ℕ) → answer path ≡ some e → e < 2 ^ 32)
    → (pi : ℕ) (paths : List (List ℕ)) → pi + length paths ≤ 2 ^ 32
    → All FitsRecord (denied path_must_exist answer ci pi paths)
denied-FitsRecord pme answer ci lt small pi [] fits = tt
denied-FitsRecord pme answer ci lt small pi (path ∷ paths) fits =
    let ih = denied-FitsRecord pme answer ci lt small (pi + 1) paths (omega arith) in
    elim (Option-cases (answer (c_string path))) [
      | inl e ↦ rw e ih
      | inr (err, e) ↦ elim (Bool-cases (err == enoent && not pme)) [
        | inl skip ↦ rw (e, skip) ih
        | inr report ↦ rw (e, report) ((lt, omega arith, small (c_string path) err e), ih)
      ]
    ]

module _ {Task : Type 0} (os : Os Task) (laws : KernelLaws os.kernel) where
  -- The failures of all credentials, each with the components refused to it, in order.
  abbrev pub refused_all : Bool → ℕ → List (List ℕ) → List Cred → List AccessFailure
  refused_all path_must_exist mode paths [] = []
  refused_all path_must_exist mode paths (c ∷ creds) =
      refused path_must_exist (answer_of os.kernel laws c mode) c.id_name paths
      ++ refused_all path_must_exist mode paths creds

  refused_all-none :
      (path_must_exist : Bool) (mode : ℕ) (creds : List Cred)
      → refused_all path_must_exist mode [] creds ≡ []
  refused_all-none pme mode [] = refl
  refused_all-none pme mode (c ∷ creds) = refused_all-none pme mode creds

  build-denied_all :
      (path_must_exist : Bool) (mode : ℕ) (creds : List Cred) (paths : List (List ℕ))
      → length creds ≤ uint32_max
      → (ci : ℕ) (rest : List Cred) → drop ci creds ≡ rest
      → build_failure_list creds paths
          (denied_all os.kernel laws path_must_exist mode paths ci rest)
        ≡ ok (refused_all path_must_exist mode paths rest)
  unfolding build_failure_list
  build-denied_all pme mode creds paths fits ci [] d = refl
  build-denied_all pme mode creds paths fits ci (c ∷ rest) d =
      let (at_ci, lt, next) = drop-cons creds ci d in
      build-denied creds paths pme (answer_of os.kernel laws c mode) ci at_ci lt (omega arith)
        (denied_all os.kernel laws pme mode paths (ci + 1) rest)
        (build-denied_all pme mode creds paths fits (ci + 1) rest next) 0 paths refl

  denied_all-FitsRecord :
      (path_must_exist : Bool) (mode : ℕ) (paths : List (List ℕ))
      → length paths ≤ 2 ^ 32
      → ((u g : ℕ) (gs path : List ℕ) (e : ℕ) → laws.access u g gs path mode ≡ some e → e < 2 ^ 32)
      → (ci : ℕ) (creds : List Cred) → ci + length creds ≤ uint32_max
      → All FitsRecord (denied_all os.kernel laws path_must_exist mode paths ci creds)
  denied_all-FitsRecord pme mode paths h small ci [] fits = tt
  denied_all-FitsRecord pme mode paths h small ci (c ∷ creds) fits =
      All-append FitsRecord (denied pme (answer_of os.kernel laws c mode) ci 0 paths)
        (denied_all os.kernel laws pme mode paths (ci + 1) creds)
        (denied-FitsRecord pme (answer_of os.kernel laws c mode) ci (omega arith)
          (small (probed_uid c) c.gid c.groups) 0 paths (omega arith))
        (denied_all-FitsRecord pme mode paths h small (ci + 1) creds (omega arith))

  -- A run in which nothing but the probes fails: the pipe and the clone are made, the child starts
  -- with saved user id 0 and is not killed, and no write, read or wait fails.
  pub record IsQuiet : Type 0 where
    pub pipe2_done : os.pipe2 ≡ none
    pub clone3_done : os.clone3 ≡ none
    pub rootable : laws.IsRootable os.task
    pub writes_done : All IsHarmless os.writes
    pub reads_done : All IsHarmless os.reads
    pub waits_done : reap_child os.waits ≡ none
    pub not_killed : os.killed ≡ none

  collect-completed :
      (status : WaitStatus) (left : List ℕ) (recs : List FailureRec)
      → drain_pipe os.reads left ≡ some (drained recs)
      → reap_child os.waits ≡ none
      → collect os (status, left) ≡ some (completed recs status)
  unfolding collect
  collect-completed status left recs e f = rw (collect, e, f) refl

  child_of-out :
      (status : WaitStatus) (w : Writer)
      → os.killed ≡ none
      → child_of os (status, w) ≡ (status, w.out)
  unfolding child_of
  child_of-out status w e = rw e refl

  run_check-collect :
      (path_must_exist : Bool) (mode : ℕ) (paths : List (List ℕ)) (creds : List Cred)
      → os.pipe2 ≡ none
      → os.clone3 ≡ none
      → run_check os path_must_exist mode paths creds
        ≡ collect os (
            child_of os (
              run_check_child os.kernel path_must_exist mode paths 0 creds os.task
                (record { script = os.writes; out = [] })))
  unfolding run_check
  run_check-collect pme mode paths creds p c = rw (p, c) refl

  run_check-denied_all :
      (path_must_exist : Bool) (mode : ℕ) (paths : List (List ℕ)) (creds : List Cred)
      → IsQuiet
      → All IsSwappable creds
      → length paths ≤ 2 ^ 32
      → length creds ≤ uint32_max
      → ((u g : ℕ) (gs path : List ℕ) (e : ℕ) → laws.access u g gs path mode ≡ some e → e < 2 ^ 32)
      → run_check os path_must_exist mode paths creds
        ≡ some (completed (denied_all os.kernel laws path_must_exist mode paths 0 creds) (exited 0))
  unfolding run_check collect child_of
  run_check-denied_all pme mode paths creds q fit hp hc small =
      let recs = denied_all os.kernel laws pme mode paths 0 creds in
      let (w, ran, out) =
        run_check_child-denied_all os.kernel laws pme mode paths 0 creds os.task
          (record { script = os.writes; out = [] }) q.rootable fit q.writes_done in
      let drains : drain_pipe os.reads w.out ≡ some (drained recs) = rw out (
        drain_pipe-records_of os.reads (bytes_of recs) q.reads_done
        ∙ ap some (
            records_of-bytes_of recs
              (denied_all-FitsRecord pme mode paths hp small 0 creds (omega arith)))) in
      run_check-collect pme mode paths creds q.pipe2_done q.clone3_done
      ∙ ap (λ run. collect os (child_of os run)) ran
      ∙ ap (collect os) (child_of-out (exited 0) w q.not_killed)
      ∙ collect-completed (exited 0) w.out recs drains q.waits_done

  check_all-finish :
      (path_must_exist : Bool) (mode : ℤ) (creds : List Cred) (path : List ℕ)
      (paths : List (List ℕ)) {run : Run}
      → run_check os path_must_exist (u32_of mode) (path ∷ paths) creds ≡ some run
      → check_all os path_must_exist mode creds (path ∷ paths)
        ≡ some (finish creds (path ∷ paths) run)
  unfolding check_all
  check_all-finish pme mode creds path paths e = ap finished e
    where
      finished : Option Run → Option (Result (List AccessFailure))
      finished none = none
      finished (some run) = some (finish creds (path ∷ paths) run)

  -- In a run in which nothing but the probes fails, with arguments that are accepted, at most
  -- 2 ^ 32 - 1 credentials, at most 2 ^ 32 components, errnos below 2 ^ 32, user ids of 32 bits, and
  -- groups that the kernel takes, check_path_access returns, for each credential and each component
  -- in order, a failure with the errno of the probe, exactly where the kernel refuses the access to
  -- that user, group and groups, ENOENT excepted unless the path must exist. A credential with the
  -- user id 2 ^ 32 - 1 is probed as root.
  pub do_check_path_access-refused_all :
      (creds_seq : Option (List CredItem)) (components_seq : Option (List Component))
      (path_must_exist : Bool) (mode : ℤ) {args : Checked}
      → check_arguments creds_seq components_seq mode ≡ ok args
      → IsQuiet
      → All IsSwappable args.creds
      → length args.components ≤ 2 ^ 32
      → length args.creds ≤ uint32_max
      → ((u g : ℕ) (gs path : List ℕ) (e : ℕ)
          → laws.access u g gs path (u32_of mode) ≡ some e
          → e < 2 ^ 32)
      → do_check_path_access os creds_seq components_seq path_must_exist mode
        ≡ some (ok (refused_all path_must_exist (u32_of mode) args.components args.creds))
  unfolding do_check_path_access finish raise_for_child_status
  do_check_path_access-refused_all creds_seq components_seq pme mode {args} accepted q fit hp hc
        small =
      rw (do_check_path_access, accepted) (checked args.components hp)
    where
      checked :
          (paths : List (List ℕ))
          → length paths ≤ 2 ^ 32
          → check_all os pme mode args.creds paths
            ≡ some (ok (refused_all pme (u32_of mode) paths args.creds))
      checked [] h = ap (λ l. some (ok l)) (sym (refused_all-none pme (u32_of mode) args.creds))
      checked (path ∷ paths) h =
          check_all-finish pme mode args.creds path paths
            (run_check-denied_all pme (u32_of mode) (path ∷ paths) args.creds q fit h hc small)
          ∙ ap some
              (build-denied_all pme (u32_of mode) args.creds (path ∷ paths) hc 0 args.creds refl)
