-- ===== src/FsIter/RestoreLaws.antt =====
-- src/cext/os/fsiter.c: what an iterator gives that is restored from the `dir_stack` of another.
use truenas_pyos.Prelude.{
  ℕ, suc, ◌+◌, ◌<◌, ◌≡◌, refl, sym, Bool, false, Option, List, [], ◌∷◌, ◌++◌, length, All, arith,
  ◌==◌, length-append,
}
use mathlib.Core.List.{append-nil}
use mathlib.Core.Path.{subst}
use truenas_pyos.Py.{ok}
use truenas_pyos.FsIter.Create.{
  CallbackArg, callback_of, create_filesystem_iterator, new_iter, open_root, root_path,
}
use truenas_pyos.FsIter.CreateLaws.{create_filesystem_iterator-new_iter}
use truenas_pyos.FsIter.Entry.{fill_entry, found, mountpoint}
use truenas_pyos.FsIter.Looping.{
  Consumed-begin_next, Looping, Looping-continues, done_with, loop_ends,
}
use truenas_pyos.FsIter.Next.{next_loop, next_round, take_skip}
use truenas_pyos.FsIter.Objects.{
  Callback, Event, Fd, FsIter, FsKernel, IterConfig, IterDir, IterEntry, IterInstance, IterState,
  Readdir, Text, closed_fd, max_depth, path_max,
}
use truenas_pyos.FsIter.Restore.{next_round-into, next_round-past}
use truenas_pyos.FsIter.Round.{close_last}
use truenas_pyos.FsIter.Running.{IsQuiet, IsText, at, running}
use truenas_pyos.FsIter.Sample.{root}
use truenas_pyos.FsIter.Stack.{StackArg, dir_stack_to_cookies}
use truenas_pyos.FsIter.Trail.{Trail, dirs_assoc, seeking, trail_end, trail_into, trail_past}
use truenas_pyos.FsIter.Walk.{Consumed, Walk}
use truenas_pyos.FsIter.WalkLaws.{Rest, Walk-Rest}

-- What is left of the directories of a stack, the innermost first.
pub data WalkStack (k : FsKernel) (config : IterConfig) (prune : IterInstance → Bool)
    : List IterDir → List IterInstance → Type 0 where
  no_dirs : WalkStack k config prune [] []
  inner_first :
      {n : ℕ} {dir : IterDir} {below : List IterDir} {items later : List IterInstance}
      → Walk k config prune n dir.path dir.dirp.dir_fd dir.dirp.answers items
      → suc (length below) + n < max_depth
      → WalkStack k config prune below later
      → WalkStack k config prune (dir ∷ below) (items ++ later)

-- An inode that names no directory.
abbrev pub IsInode : ℕ → Type 0
IsInode c = (c == 0) ≡ false

module _ (k : FsKernel) (config : IterConfig) (increment : ℕ) (cb : Option Callback)
    (prune : IterInstance → Bool) where
  Trail-Looping :
      {path : Text} {dir_fd : Fd} {answers : List Readdir} {ino : ℕ} {cookies : List ℕ}
      {dirs : List IterDir} {items : List IterInstance} (before : List ℕ) (below : List IterDir)
      → Trail k config path dir_fd answers ino cookies dirs
      → All IsInode cookies
      → length before ≡ suc (length below)
      → suc (length below) + length cookies < max_depth
      → ((last : IterEntry)
          → (cnt bytes : ℕ) → (log : List Event)
          → Looping k prune (running config increment cb (dirs ++ below) last cnt bytes log) items)
      → (last : IterEntry) (cnt bytes : ℕ) (log : List Event)
      → Looping k prune
          (seeking config increment cb before cookies
            (at path dir_fd answers ino ∷ below)
            last
            cnt
            bytes
            log)
          items
  Trail-Looping before below trail_end inodes level h rest last cnt bytes log =
      rest last cnt bytes log
  Trail-Looping {path = path} {dir_fd = dir_fd} {ino = ino} before below
        (trail_past {rest = more} {c = c} {cookies = cookies} d signals past t) inodes level h rest
        last cnt bytes log =
      Looping-continues k prune _ _
        (next_round-past k config increment cb before c cookies path dir_fd d signals more ino below
          last cnt bytes log (omega arith) level inodes.0 past)
        (Trail-Looping before below t inodes level h rest last cnt bytes log)
  Trail-Looping {path = path} {dir_fd = dir_fd} {ino = ino} {items = items} before below
        (trail_into {rest = more} {c = c} {cookies = cookies} {dirs = dirs} d signals fd st dirp dot
          same quiet e isdir opened t)
        inodes level h rest last cnt bytes log =
      Looping-continues k prune _ _
        (next_round-into k config increment cb before c cookies path dir_fd d signals more ino below
          last cnt bytes log fd st dirp (omega arith) level inodes.0 dot same quiet e isdir opened)
        (Trail-Looping (before ++ (0 ∷ [])) (at path dir_fd more ino ∷ below) t inodes.1
          (omega (arith, length-append before (0 ∷ []))) (omega arith)
          (λ last cnt bytes log.
            subst (λ x. Looping k prune (running config increment cb x last cnt bytes log) items)
              (dirs_assoc dirs (at path dir_fd more ino) below) (rest last cnt bytes log))
          (done_with (fill_entry last d (found fd st false))) cnt bytes (closed_fd fd ∷ log))

  WalkStack-Rest :
      {dirs : List IterDir} {items : List IterInstance} (text : IsText k) (quiet : IsQuiet cb)
      → WalkStack k config prune dirs items
      → Rest k config increment cb prune text quiet dirs items
  unfolding next_loop next_round
  WalkStack-Rest text quiet no_dirs = λ last cnt bytes log. loop_ends _ 1 refl
  WalkStack-Rest text quiet (inner_first {dir = dir} {below = below} w h stack) =
      Walk-Rest k config increment cb prune text quiet below dir.ino w h
        (WalkStack-Rest text quiet stack)

-- Where every text is UTF-8, the callback raises nothing, the root opens, and the directories of the
-- saved stack below the root can be found by their inodes, an iterator that is restored gives a
-- consumer first the whole walk of the innermost of them, from its first entry on, and then what stands
-- behind each of the others in the one above it; the directories themselves are not given again. The
-- stack has a directory below the root at least.
pub create_filesystem_iterator-Trail :
    {cookies : List ℕ} {dirs : List IterDir} {items : List IterInstance} (k : FsKernel)
    (mountpoint : Text) (relative_path : Option Text) (filesystem_name : Text) (state : IterState)
    (increment : ℕ) (cb_arg : CallbackArg) (arg : StackArg) (cb : Option Callback) (root : IterDir)
    (prune : IterInstance → Bool) (root_cookie c : ℕ)
    → callback_of cb_arg ≡ ok cb
    → dir_stack_to_cookies arg ≡ ok (root_cookie ∷ c ∷ cookies)
    → length (root_path mountpoint relative_path) < path_max
    → open_root k (root_path mountpoint relative_path) filesystem_name ≡ ok root
    → IsText k
    → IsQuiet cb
    → All IsInode (c ∷ cookies)
    → Trail k state.config root.path root.dirp.dir_fd root.dirp.answers root.ino (c ∷ cookies) dirs
    → suc (suc (length cookies)) < max_depth
    → WalkStack k state.config prune dirs items
    → (it : FsIter) × (create_filesystem_iterator k mountpoint relative_path filesystem_name state
          increment cb_arg arg
        ≡ ok it)
      × Consumed k prune it items
unfolding take_skip close_last
create_filesystem_iterator-Trail {cookies = cookies} {dirs = dirs} {items = items} k mountpoint
      relative_path filesystem_name state increment cb_arg arg cb root prune root_cookie c accepted
      saved short opened text quiet inodes trail h stack =
    let it = new_iter root state increment cb (root_cookie ∷ c ∷ cookies) in
    let rest =
      subst (λ x. Rest k state.config increment cb prune text quiet x items) (sym (append-nil dirs))
        (WalkStack-Rest k state.config increment cb prune text quiet stack) in
    (
      it,
      create_filesystem_iterator-new_iter k mountpoint relative_path filesystem_name state increment
          cb_arg arg cb (root_cookie ∷ c ∷ cookies) root accepted saved short opened,
      Consumed-begin_next k prune it refl (
          Trail-Looping k state.config increment cb prune (root_cookie ∷ []) [] trail inodes refl
            (omega arith) rest it.last state.cnt state.cnt_bytes []),
    )
