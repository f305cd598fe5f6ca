-- ===== src/FsIter/Running.antt =====
-- src/cext/os/fsiter.c: an iterator inside its loop that restores nothing, and its callback.
use truenas_pyos.Prelude.{
  ℕ, ◌≡◌, refl, inl, inr, Bool, true, false, ◌||◌, Option, none, some, List, [], ◌∷◌, ◌++◌,
  Bool-cases,
}
use truenas_pyos.Py.{ok}
use truenas_pyos.FsIter.Objects.{
  Callback, DirStack, Event, Fd, FsIter, FsKernel, IterConfig, IterDir, IterEntry, IterStats,
  Readdir, Text, reported,
}
use truenas_pyos.FsIter.Stack.{
  build_dir_stack_tuple, check_and_invoke_reporting_callback, is_due, py_fsiter_state_from_struct,
}

-- A callback that raises nothing, and texts that are all UTF-8.
abbrev pub IsQuiet : Option Callback → Type 0
IsQuiet none = Unit
IsQuiet (some cb) = (dirs : DirStack) → (stats : IterStats) → cb dirs stats ≡ ok tt

abbrev pub IsText : FsKernel → Type 0
IsText k = (s : Text) → k.is_utf8 s ≡ true

abbrev pub at : Text → Fd → List Readdir → ℕ → IterDir
at path dir_fd answers ino = record {
  path = path;
  dirp = record { dir_fd = dir_fd; answers = answers };
  ino = ino;
}

-- An iterator inside its loop, restoring nothing.
abbrev pub running :
    IterConfig → ℕ → Option Callback → List IterDir → IterEntry → ℕ → ℕ → List Event → FsIter
running config increment cb dirs last cnt bytes log = record {
  dir_stack = dirs;
  state = record { config = config; cnt = cnt; cnt_bytes = bytes };
  last = last;
  cookies = [];
  restoring_from_cookie = false;
  reporting_cb_increment = increment;
  reporting_cb = cb;
  skip_next_recursion = false;
  is_closed = false;
  log = log;
}

build_dir_stack_tuple-IsText :
    (k : FsKernel)
    → IsText k
    → (dirs : List IterDir) → (tuple : DirStack) × (build_dir_stack_tuple k dirs ≡ ok tuple)
unfolding build_dir_stack_tuple
build_dir_stack_tuple-IsText k text [] = ([], refl)
build_dir_stack_tuple-IsText k text (d ∷ dirs) =
    let (tuple, e) = build_dir_stack_tuple-IsText k text dirs in
    (tuple ++ ((d.path, d.ino) ∷ []), rw (e, text d.path) refl)

-- The callback changes nothing but the log.
pub check_and_invoke_reporting_callback-IsQuiet :
    (k : FsKernel) (config : IterConfig) (increment : ℕ) (cb : Option Callback)
    → IsText k
    → IsQuiet cb
    → (dirs : List IterDir) → (last : IterEntry) → (cnt bytes : ℕ) → (log : List Event)
    → (path : Text) → (final : Bool)
    → (log' : List Event) × (check_and_invoke_reporting_callback k
          (running config increment cb dirs last cnt bytes log)
          path
          final
        ≡ (ok tt, running config increment cb dirs last cnt bytes log'))
unfolding check_and_invoke_reporting_callback py_fsiter_state_from_struct
check_and_invoke_reporting_callback-IsQuiet k config increment none text quiet dirs last cnt bytes
      log path final =
    (log, refl)
check_and_invoke_reporting_callback-IsQuiet k config increment (some cb) text quiet dirs last cnt
      bytes log path final =
    let it = running config increment (some cb) dirs last cnt bytes log in
    let (tuple, e) = build_dir_stack_tuple-IsText k text dirs in
    let stats : IterStats = record {
      stats_cnt = cnt;
      stats_bytes = bytes;
      current_directory = path;
    } in
    elim (Bool-cases (final || is_due it)) [
      | inl b ↦ (reported tuple stats ∷ log, rw (b, e, text path, quiet tuple stats) refl)
      | inr b ↦ (log, rw b refl)
    ]
