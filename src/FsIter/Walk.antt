-- ===== src/FsIter/Walk.antt =====
-- src/cext/os/fsiter.c: a recursive walk over a directory tree, which the loop and its stack stand
-- for, and a consumer that calls `__next__` and `skip`.
use truenas_pyos.Prelude.{
  ℕ, suc, ◌≡◌, Bool, true, false, not, ◌&&◌, Option, some, List, [], ◌∷◌, ◌++◌, take,
}
use truenas_pyos.Py.{Result, ok, raise, out_of_bounds, Exc}
use truenas_pyos.Nfs4.Valid.{s_isdir}
use truenas_pyos.Xattr.Calls.{done}
use truenas_pyos.FsIter.Entry.{entry_outcome, found, is_dot, pruned, s_islnk, s_isreg}
use truenas_pyos.FsIter.Next.{next, skip}
use truenas_pyos.FsIter.Objects.{
  Dirent, Dirp, Fd, FsIter, FsKernel, IterConfig, IterInstance, Readdir, Statx, Text, entry,
  name_max,
}
use truenas_pyos.FsIter.Round.{handler_raised, stop_iteration, yielded}
use truenas_pyos.FsIter.Stack.{full_path, open_dirp}

abbrev pub instance_of : Text → Text → Fd → Statx → Bool → IterInstance
instance_of parent name fd st is_mount = record {
  parent = parent;
  inst_name = name;
  inst_fd = fd;
  statxinfo = st;
  isdir = s_isdir st.stx_mode;
  islnk = s_islnk st.stx_mode;
  isreg = s_isreg st.stx_mode;
  ismount = is_mount;
}

abbrev pub stored_name : Dirent → Text
stored_name d = take name_max d.d_name

-- The walk through what readdir answers for a directory: its path, its descriptor, the answers, and
-- the items in their order, a directory before what is in it. It goes down `n` levels at most, and
-- leaves out what is in a directory that `prune` names.
pub data Walk (k : FsKernel) (config : IterConfig) (prune : IterInstance → Bool)
    : ℕ → Text → Fd → List Readdir → List IterInstance → Type 0 where
  walk_end : {n : ℕ} {path : Text} {dir_fd : Fd} → Walk k config prune n path dir_fd [] []
  walk_dot :
      {n : ℕ} {path : Text} {dir_fd : Fd} {rest : List Readdir} {items : List IterInstance}
      (d : Dirent) (signals : List (Option Exc))
      → is_dot d.d_name ≡ true
      → Walk k config prune n path dir_fd rest items
      → Walk k config prune n path dir_fd (entry d signals ∷ rest) items
  walk_pruned :
      {n : ℕ} {path : Text} {dir_fd : Fd} {rest : List Readdir} {items : List IterInstance}
      (d : Dirent) (signals : List (Option Exc)) (fds : List Fd)
      → is_dot d.d_name ≡ false
      → handler_raised signals ≡ false
      → entry_outcome k config dir_fd d ≡ pruned fds
      → Walk k config prune n path dir_fd rest items
      → Walk k config prune n path dir_fd (entry d signals ∷ rest) items
  walk_file :
      {n : ℕ} {path : Text} {dir_fd : Fd} {rest : List Readdir} {items : List IterInstance}
      (d : Dirent) (signals : List (Option Exc)) (fd : Fd) (st : Statx) (is_mount : Bool)
      → is_dot d.d_name ≡ false
      → handler_raised signals ≡ false
      → entry_outcome k config dir_fd d ≡ found fd st is_mount
      → not is_mount && s_isdir st.stx_mode ≡ false
      → Walk k config prune n path dir_fd rest items
      → Walk k config prune n path dir_fd
          (entry d signals ∷ rest)
          (instance_of path (stored_name d) fd st is_mount ∷ items)
  walk_over :
      {n : ℕ} {path : Text} {dir_fd : Fd} {rest : List Readdir} {items : List IterInstance}
      (d : Dirent) (signals : List (Option Exc)) (fd : Fd) (st : Statx) (dirp : Dirp)
      → is_dot d.d_name ≡ false
      → handler_raised signals ≡ false
      → entry_outcome k config dir_fd d ≡ found fd st false
      → s_isdir st.stx_mode ≡ true
      → open_dirp k fd ≡ done dirp
      → prune (instance_of path (stored_name d) fd st false) ≡ true
      → Walk k config prune n path dir_fd rest items
      → Walk k config prune n path dir_fd
          (entry d signals ∷ rest)
          (instance_of path (stored_name d) fd st false ∷ items)
  walk_into :
      {n : ℕ} {path : Text} {dir_fd : Fd} {rest : List Readdir} {inner items : List IterInstance}
      (d : Dirent) (signals : List (Option Exc)) (fd : Fd) (st : Statx) (dirp : Dirp)
      → is_dot d.d_name ≡ false
      → handler_raised signals ≡ false
      → entry_outcome k config dir_fd d ≡ found fd st false
      → s_isdir st.stx_mode ≡ true
      → open_dirp k fd ≡ done dirp
      → prune (instance_of path (stored_name d) fd st false) ≡ false
      → Walk k config prune n (full_path path (stored_name d)) dirp.dir_fd dirp.answers inner
      → Walk k config prune (suc n) path dir_fd rest items
      → Walk k config prune
          (suc n)
          path
          dir_fd
          (entry d signals ∷ rest)
          (instance_of path (stored_name d) fd st false ∷ (inner ++ items))

-- The consumer calls skip() on the directories that it prunes.
abbrev pub prunes : (IterInstance → Bool) → IterInstance → Bool
prunes prune inst = prune inst && (inst.isdir && not inst.ismount)

abbrev skip_or_stay : FsIter → Result FsIter → FsIter
skip_or_stay it (ok it') = it'
skip_or_stay it (raise e) = it
skip_or_stay it out_of_bounds = it

unfoldable pub skip_if : Bool → FsIter → FsIter
unfolding skip
skip_if false it = it
skip_if true it = skip_or_stay it (skip it)

abbrev pub after_item : (IterInstance → Bool) → IterInstance → FsIter → FsIter
after_item prune inst it = skip_if (prunes prune inst) it

-- A consumer that calls `__next__`, each call with as many rounds as it takes, until StopIteration,
-- and the items that it gets.
pub data Consumed (k : FsKernel) (prune : IterInstance → Bool)
    : FsIter → List IterInstance → Type 0 where
  finished :
      {it : FsIter} (it' : FsIter) (fuel : ℕ)
      → next k fuel it ≡ some (stop_iteration, it')
      → Consumed k prune it []
  taken :
      {it : FsIter} {items : List IterInstance} (it' : FsIter) (fuel : ℕ) (inst : IterInstance)
      → next k fuel it ≡ some (yielded inst, it')
      → Consumed k prune (after_item prune inst it') items
      → Consumed k prune it (inst ∷ items)
