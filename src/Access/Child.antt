-- ===== src/Access/Child.antt =====
-- src/cext/os/acl_check.c: `run_check_child`, the loop of the cloned child. The system calls are the
-- kernel's: they act on the credentials of the calling task, whose type is a parameter.
use truenas_pyos.Prelude.{
  ℕ, ◌+◌, Bool, true, false, not, ◌&&◌, Option, none, some, List, [], ◌∷◌, ◌==◌,
}
use truenas_pyos.Prelude.Bytes.{c_string}
use truenas_pyos.Access.Creds.{Cred, uint32_max}
use truenas_pyos.Access.Pipe.{Writer, rec_bytes, write_all}

-- What a system call that changes credentials returns.
pub data SysResult (A : Type 0) : Type 0 where
  done : A → SysResult A
  failed : ℕ → SysResult A

-- setresuid, setresgid and setgroups change a task or give an errno; faccessat2 with AT_FDCWD and
-- AT_EACCESS, on a path and a mode, gives `none` for 0.
pub record Kernel (Task : Type 0) : Type 0 where
  pub setresuid : ℕ → ℕ → ℕ → Task → SysResult Task
  pub setresgid : ℕ → ℕ → ℕ → Task → SysResult Task
  pub setgroups : List ℕ → Task → SysResult Task
  pub faccessat2 : List ℕ → ℕ → Task → Option ℕ

abbrev pub fatal_cred_idx : ℕ
fatal_cred_idx = uint32_max

abbrev pub enoent : ℕ
enoent = 2

-- How a child ends.
pub data WaitStatus : Type 0 where
  exited : ℕ → WaitStatus
  signaled : ℕ → WaitStatus

-- A step of the child: it goes on, or calls _exit.
pub data Flow (A : Type 0) : Type 0 where
  goes_on : A → Flow A
  exits : ℕ → Writer → Flow A

-- emit_fatal: the record of a failed stage; a failed write is ignored.
unfoldable pub emit_fatal : ℕ → ℕ → Writer → Writer
unfolding rec_bytes write_all
emit_fatal stage err w =
    (write_all w.script w.out
      (rec_bytes (record { cred_idx = fatal_cred_idx; comp_idx = stage; err = err }))).0

module _ {Task : Type 0} (kernel : Kernel Task) where
  -- A call that changes credentials, or the exit of its stage.
  abbrev pub stage : ℕ → Writer → SysResult Task → (Task → Flow Task) → Flow Task
  stage n w (done task) next = next task
  stage n w (failed err) next = exits 1 (emit_fatal n err w)

  -- The four calls at the head of the loop over the credentials.
  unfoldable pub swap_creds : Cred → Task → Writer → Flow Task
  unfolding emit_fatal
  swap_creds c task w = stage 0 w (kernel.setresuid 0 0 0 task) λ root.
      stage 1 w (kernel.setresgid c.gid c.gid 0 root) λ with_gid.
        stage 2 w (kernel.setgroups c.groups with_gid)
          λ with_groups. stage 3 w (kernel.setresuid c.uid c.uid 0 with_groups) λ t. goes_on t

  -- The loop over the components, from index pi on.
  unfoldable pub probe_components : Bool → ℕ → ℕ → Task → ℕ → List (List ℕ) → Writer → Flow Writer
  unfolding c_string rec_bytes write_all
  probe_components path_must_exist mode ci task pi [] w = goes_on w
  probe_components path_must_exist mode ci task pi (path ∷ paths) w =
      elim (kernel.faccessat2 (c_string path) mode task) [
        | none ↦ probe_components path_must_exist mode ci task (pi + 1) paths w
        | some e ↦ elim (e == enoent && not path_must_exist) [
          | true ↦ probe_components path_must_exist mode ci task (pi + 1) paths w
          | false ↦
              let (w', failure) =
                write_all w.script w.out
                  (rec_bytes (record { cred_idx = ci; comp_idx = pi; err = e })) in
              elim failure [
                | some err ↦ exits 1 w'
                | none ↦ probe_components path_must_exist mode ci task (pi + 1) paths w'
              ]
        ]
      ]

  -- The loop over the credentials, from index ci on; it ends in `_exit(0)`.
  unfoldable pub run_check_child :
      Bool → ℕ → List (List ℕ) → ℕ → List Cred → Task → Writer → WaitStatus × Writer
  unfolding swap_creds probe_components
  run_check_child path_must_exist mode paths ci [] task w = (exited 0, w)
  run_check_child path_must_exist mode paths ci (c ∷ creds) task w = elim (swap_creds c task w) [
    | exits code w' ↦ (exited code, w')
    | goes_on task' ↦ elim (probe_components path_must_exist mode ci task' 0 paths w) [
      | exits code w' ↦ (exited code, w')
      | goes_on w' ↦ run_check_child path_must_exist mode paths (ci + 1) creds task' w'
    ]
  ]
