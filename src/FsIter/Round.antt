-- ===== src/FsIter/Round.antt =====
-- src/cext/os/fsiter.c: one round of the loop of `__next__`, by what is at its directory.
use truenas_pyos.Prelude.{
  ℕ, zero, suc, ◌+◌, ◌%◌, ◌^◌, Bool, true, false, not, Option, none, some, List, [], ◌∷◌, length,
  get_elem?, leb, ◌==◌, if◌then◌else◌,
}
use truenas_pyos.Py.{Result, ok, raise, out_of_bounds, Exc, os_message, iterator_restore_error}
use truenas_pyos.FsIter.Entry.{
  Action, begin_entry, continue_entry, create_iter_instance, error_entry, is_dot,
  process_next_entry, yield_dir, yield_file,
}
use truenas_pyos.FsIter.Objects.{
  Dirent, Fd, FsIter, FsKernel, IterDir, IterInstance, Statx, closed_fd, eintr,
}
use truenas_pyos.FsIter.Stack.{
  check_and_invoke_reporting_callback, cur_depth, pop_dir_stack, push_dir_stack,
}

-- What a call of __next__ ends with; FSITER_ASSERT aborts the process.
pub data Next : Type 0 where
  yielded : IterInstance → Next
  stop_iteration aborted : Next
  raised : Exc → Next

-- One round of the loop: `continue`, or a return.
pub data LoopRound : Type 0 where
  continues : FsIter → LoopRound
  returns : Next → FsIter → LoopRound

-- self->cookies[depth], or 0 where there are no cookies that far.
unfoldable pub cookie_at : List ℕ → ℕ → ℕ
cookie_at cookies depth = elim (get_elem? cookies depth) [ none ↦ 0 | some c ↦ c ]

-- self->cookies[depth] = 0
unfoldable pub clear_cookie : List ℕ → ℕ → List ℕ
clear_cookie [] depth = []
clear_cookie (c ∷ cookies) zero = 0 ∷ cookies
clear_cookie (c ∷ cookies) (suc depth) = c ∷ clear_cookie cookies depth

abbrev pub close_held : FsIter → Option Fd → FsIter
close_held it none = it
close_held it (some fd) = record it {
  last = record it.last { fd = none };
  log = closed_fd fd ∷ it.log;
}

unfoldable pub close_last : FsIter → FsIter
close_last it = close_held it it.last.fd

-- size_t wraps around.
unfoldable pub count_item : FsIter → FsIter
count_item it = record it { state = record it.state { cnt = (it.state.cnt + 1) % 2 ^ 64 } }

unfoldable pub count_bytes : FsIter → ℕ → FsIter
count_bytes it size = record it {
  state = record it.state { cnt_bytes = (it.state.cnt_bytes + size) % 2 ^ 64 };
}

-- The end of a yield: the item, or the exception of the callback.
abbrev pub give : IterInstance → Result (Unit {0}) × FsIter → LoopRound
give inst (ok u, it) = returns (yielded inst) it
give inst (raise e, it) = returns (raised e) it
give inst (out_of_bounds, it) = returns aborted it

unfoldable pub round_file : FsKernel → FsIter → IterDir → Fd → Statx → Bool → LoopRound
unfolding create_iter_instance count_item count_bytes check_and_invoke_reporting_callback
round_file k it cur_dir fd st is_mount =
    elim (create_iter_instance k fd st is_mount cur_dir.path it.last.name) [
      | ok inst ↦ give inst (
          check_and_invoke_reporting_callback k (count_bytes (count_item it) st.stx_size)
            cur_dir.path false)
      | raise e ↦ returns (raised e) it
      | out_of_bounds ↦ returns aborted it
    ]

-- A directory that is pushed while the iterator is restored is not yielded, and its own descriptor is
-- closed at once.
unfoldable pub restored : FsIter → FsIter
unfolding close_last
restored it =
    let reached = leb (length it.cookies) (cur_depth it) in
    close_last (record it {
      restoring_from_cookie = if reached then false else it.restoring_from_cookie;
      cookies = if reached then [] else it.cookies;
    })

unfoldable pub push_then : (FsIter → LoopRound) → Result (Unit {0}) × FsIter → LoopRound
push_then go (ok u, it) = go it
push_then go (raise e, it) = returns (raised e) it
push_then go (out_of_bounds, it) = returns aborted it

unfoldable pub round_dir : FsKernel → FsIter → IterDir → Fd → Statx → LoopRound
unfolding create_iter_instance push_dir_stack restored count_item
    check_and_invoke_reporting_callback push_then
round_dir k it cur_dir fd st =
    if it.restoring_from_cookie
    then push_then (λ pushed. continues (restored pushed)) (push_dir_stack k it cur_dir fd st)
    else elim (create_iter_instance k fd st it.last.is_mount cur_dir.path it.last.name) [
      | ok inst ↦
          push_then
            (λ pushed.
              give inst
                (check_and_invoke_reporting_callback k (count_item pushed) cur_dir.path false))
            (push_dir_stack k it cur_dir fd st)
      | raise e ↦ returns (raised e) it
      | out_of_bounds ↦ returns aborted it
    ]

-- Whether a signal handler raises, which ends the tries. Its exception gives way to an OSError.
unfoldable pub handler_raised : List (Option Exc) → Bool
handler_raised [] = false
handler_raised (none ∷ signals) = handler_raised signals
handler_raised (some e ∷ signals) = true

unfoldable pub round_action : FsKernel → IterDir → Action × FsIter → LoopRound
unfolding round_file round_dir
round_action k cur_dir (yield_file fd st is_mount, it) = round_file k it cur_dir fd st is_mount
round_action k cur_dir (yield_dir fd st, it) = round_dir k it cur_dir fd st
round_action k cur_dir (continue_entry, it) = continues it
round_action k cur_dir (error_entry e, it) = returns (raised (os_message (some e))) it

unfoldable pub round_entry : FsKernel → FsIter → IterDir → Dirent → List (Option Exc) → LoopRound
unfolding handler_raised process_next_entry round_action
round_entry k it cur_dir d signals =
    if handler_raised signals
    then returns (raised (os_message (some eintr))) (record it { last = begin_entry it.last d })
    else round_action k cur_dir (process_next_entry k it cur_dir.dirp.dir_fd d)

-- The entries that do not have the inode of the cookie are passed over, and then it is cleared.
unfoldable pub round_dirent : FsKernel → FsIter → IterDir → Dirent → List (Option Exc) → LoopRound
unfolding cookie_at clear_cookie round_entry
round_dirent k it cur_dir d signals =
    let mycookie = cookie_at it.cookies (cur_depth it) in
    if is_dot d.d_name
    then continues it
    else if mycookie == 0
    then round_entry k it cur_dir d signals
    else if not (d.d_ino == mycookie)
    then continues it
    else round_entry k (record it { cookies = clear_cookie it.cookies (cur_depth it) }) cur_dir d
        signals

unfoldable pub pop_then : Result (Unit {0}) × FsIter → LoopRound
unfolding pop_dir_stack
pop_then (ok u, it) = continues (pop_dir_stack it)
pop_then (raise e, it) = returns (raised e) it
pop_then (out_of_bounds, it) = returns aborted it

-- readdir has reached the end of the directory.
unfoldable pub round_end : FsKernel → FsIter → IterDir → LoopRound
unfolding cookie_at check_and_invoke_reporting_callback pop_then
round_end k it cur_dir =
    if cookie_at it.cookies (cur_depth it) == 0
    then pop_then (check_and_invoke_reporting_callback k it cur_dir.path (cur_depth it == 1))
    else returns (raised (iterator_restore_error (cur_depth it) cur_dir.path)) it
