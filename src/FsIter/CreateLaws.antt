-- ===== src/FsIter/CreateLaws.antt =====
-- src/cext/os/fsiter.c: a whole iteration, from create_filesystem_iterator to StopIteration.
use truenas_pyos.Prelude.{ℕ, suc, ◌<◌, ◌≡◌, refl, Bool, Option, List, [], length, arith, leb_of_lt}
use mathlib.Core.List.{append-nil}
use mathlib.Core.Path.{subst}
use truenas_pyos.Py.{ok}
use truenas_pyos.FsIter.Create.{
  CallbackArg, callback_of, create_filesystem_iterator, new_iter, open_root, root_path,
}
use truenas_pyos.FsIter.Entry.{mountpoint}
use truenas_pyos.FsIter.Looping.{Consumed-begin_next, loop_ends}
use truenas_pyos.FsIter.Next.{next_loop, next_round, take_skip}
use truenas_pyos.FsIter.Objects.{
  Callback, FsIter, FsKernel, IterDir, IterInstance, IterState, Text, max_depth, path_max,
}
use truenas_pyos.FsIter.Round.{close_last}
use truenas_pyos.FsIter.Running.{IsQuiet, IsText}
use truenas_pyos.FsIter.Sample.{root}
use truenas_pyos.FsIter.Stack.{StackArg, dir_stack_to_cookies}
use truenas_pyos.FsIter.Walk.{Consumed, Walk}
use truenas_pyos.FsIter.WalkLaws.{Walk-Rest}

-- Arguments that are accepted give the iterator at its root.
pub create_filesystem_iterator-new_iter :
    (k : FsKernel) (mountpoint : Text) (relative_path : Option Text) (filesystem_name : Text)
    (state : IterState) (increment : ℕ) (cb_arg : CallbackArg) (dirs : StackArg)
    (cb : Option Callback) (cookies : List ℕ) (root : IterDir)
    → callback_of cb_arg ≡ ok cb
    → dir_stack_to_cookies dirs ≡ ok cookies
    → length (root_path mountpoint relative_path) < path_max
    → open_root k (root_path mountpoint relative_path) filesystem_name ≡ ok root
    → create_filesystem_iterator k mountpoint relative_path filesystem_name state increment cb_arg
        dirs
      ≡ ok (new_iter root state increment cb cookies)
unfolding create_filesystem_iterator
create_filesystem_iterator-new_iter k mountpoint relative_path filesystem_name state increment
      cb_arg dirs cb cookies root c d short opened =
    rw (c, d, leb_of_lt path_max (length (root_path mountpoint relative_path)) short, opened) refl

-- Where every text is UTF-8, the callback raises nothing, and the root opens, an iterator that
-- restores nothing gives a consumer exactly the items of the recursive walk from the root, in its
-- order, without what is in the directories that the consumer skips, and then StopIteration; each call
-- of `__next__` returns. The walk goes down fewer than 2047 levels.
pub create_filesystem_iterator-Consumed :
    {n : ℕ} {items : List IterInstance} (k : FsKernel) (mountpoint : Text)
    (relative_path : Option Text) (filesystem_name : Text) (state : IterState) (increment : ℕ)
    (cb_arg : CallbackArg) (dirs : StackArg) (cb : Option Callback) (root : IterDir)
    (prune : IterInstance → Bool)
    → callback_of cb_arg ≡ ok cb
    → dir_stack_to_cookies dirs ≡ ok []
    → length (root_path mountpoint relative_path) < path_max
    → open_root k (root_path mountpoint relative_path) filesystem_name ≡ ok root
    → IsText k
    → IsQuiet cb
    → Walk k state.config prune n root.path root.dirp.dir_fd root.dirp.answers items
    → suc n < max_depth
    → (it : FsIter) × (create_filesystem_iterator k mountpoint relative_path filesystem_name state
          increment cb_arg dirs
        ≡ ok it)
      × Consumed k prune it items
unfolding next_loop next_round take_skip close_last
create_filesystem_iterator-Consumed {items = items} k mountpoint relative_path filesystem_name state
      increment cb_arg dirs cb root prune c d short opened text quiet w h =
    let it = new_iter root state increment cb [] in
    (
      it,
      create_filesystem_iterator-new_iter k mountpoint relative_path filesystem_name state increment
          cb_arg dirs cb [] root c d short opened,
      subst (Consumed k prune it) (append-nil items) (
          Consumed-begin_next k prune it refl (
            Walk-Rest k state.config increment cb prune text quiet [] root.ino w (omega arith)
              (λ last cnt bytes log. loop_ends _ 1 refl) it.last state.cnt state.cnt_bytes [])),
    )
