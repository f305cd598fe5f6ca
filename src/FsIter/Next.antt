-- ===== src/FsIter/Next.antt =====
-- src/cext/os/fsiter.c: the methods of the iterator.
use truenas_pyos.Prelude.{
  ℕ, zero, suc, Bool, true, false, not, Option, none, some, List, [], ◌∷◌, ◌++◌, length, ltb, leb,
  if◌then◌else◌,
}
use truenas_pyos.Py.{
  Result, ok, raise, value_error, closed_iterator, skip_not_directory, os_message,
}
use truenas_pyos.FsIter.Objects.{
  DirStack, Event, Fd, FsIter, FsKernel, IterDir, IterEntry, IterStats, Readdir, closed_dir,
  closed_fd, entry, max_depth, readdir_error,
}
use truenas_pyos.FsIter.Round.{
  LoopRound, Next, aborted, close_last, continues, raised, returns, round_dirent, round_end,
  stop_iteration,
}
use truenas_pyos.FsIter.Stack.{build_dir_stack_tuple, pop_dir_stack, py_fsiter_state_from_struct}

-- The top of the stack behind one answer of readdir.
abbrev pub advance : FsIter → IterDir → List IterDir → List Readdir → FsIter
advance it d below rest = record it {
  dir_stack = record d { dirp = record d.dirp { answers = rest } } ∷ below;
}

round_readdir : FsKernel → FsIter → IterDir → List IterDir → List Readdir → LoopRound
unfolding round_dirent round_end
round_readdir k it d below [] = round_end k it d
round_readdir k it d below (readdir_error e ∷ rest) =
    returns (raised (os_message (some e))) (advance it d below rest)
round_readdir k it d below (entry dirent signals ∷ rest) =
    round_dirent k (advance it d below rest) d dirent signals

-- The test of `while` and one round of the loop.
unfoldable pub next_round : FsKernel → FsIter → LoopRound
unfolding round_readdir
next_round k it = elim it.dir_stack [
  | [] ↦ returns stop_iteration it
  | d ∷ below ↦
      if leb max_depth (suc (length below))
      then returns aborted it
      else round_readdir k it d below d.dirp.answers
]

-- The loop, at most `fuel` rounds of it.
unfoldable pub next_loop : FsKernel → ℕ → FsIter → Option (Next × FsIter)
unfolding next_round
next_loop k zero it = none
next_loop k (suc fuel) it = elim (next_round k it) [
  | returns r it' ↦ some (r, it')
  | continues it' ↦ next_loop k fuel it'
]

unfoldable pub take_skip : FsIter → FsIter
unfolding pop_dir_stack
take_skip it =
    if it.skip_next_recursion then pop_dir_stack (record it { skip_next_recursion = false }) else it

unfoldable pub next : FsKernel → ℕ → FsIter → Option (Next × FsIter)
unfolding take_skip close_last next_loop
next k fuel it =
    if it.is_closed
    then some (raised (value_error closed_iterator), it)
    else next_loop k fuel (take_skip (close_last it))

unfoldable pub get_stats : FsKernel → FsIter → Result IterStats
unfolding py_fsiter_state_from_struct
get_stats k it =
    if it.is_closed
    then raise (value_error closed_iterator)
    else py_fsiter_state_from_struct k it.state (elim it.dir_stack [ [] ↦ [] | d ∷ below ↦ d.path ])

unfoldable pub skip : FsIter → Result FsIter
skip it =
    if it.is_closed
    then raise (value_error closed_iterator)
    else if not it.last.is_dir
    then raise (value_error skip_not_directory)
    else ok (record it { skip_next_recursion = true })

unfoldable pub iter_dir_stack : FsKernel → FsIter → Result DirStack
unfolding build_dir_stack_tuple
iter_dir_stack k it =
    if it.is_closed
    then raise (value_error closed_iterator)
    else build_dir_stack_tuple k it.dir_stack

-- The directories are closed from the root on, so the innermost is the last event.
unfoldable pub cleanup_dirs : List IterDir → List Event
cleanup_dirs [] = []
cleanup_dirs (d ∷ below) = closed_dir d.dirp.dir_fd ∷ cleanup_dirs below

-- `self->last.fd > 0`: a descriptor 0 stays open.
abbrev is_positive : Fd → Bool
is_positive fd = ltb 0 fd.num

unfoldable pub cleanup_last : IterEntry → List Event
cleanup_last last = elim last.fd [
  | none ↦ []
  | some fd ↦ if is_positive fd then closed_fd fd ∷ [] else []
]

unfoldable pub closing : FsIter → FsIter
unfolding cleanup_dirs cleanup_last
closing it = record it {
  dir_stack = [];
  last = record it.last {
    fd = elim it.last.fd [ none ↦ none | some fd ↦ if is_positive fd then none else some fd ];
  };
  reporting_cb = none;
  cookies = [];
  is_closed = true;
  log = cleanup_last it.last ++ (cleanup_dirs it.dir_stack ++ it.log);
}

-- FilesystemIterator_cleanup, which close() and __exit__ call.
unfoldable pub close : FsIter → FsIter
unfolding closing
close it = if it.is_closed then it else closing it

unfoldable pub enter : FsIter → Result FsIter
enter it = if it.is_closed then raise (value_error closed_iterator) else ok it
