-- ===== src/FsIter/Stack.antt =====
-- src/cext/os/fsiter.c: the stack of directories, the reporting callback and the cookies.
use truenas_pyos.Prelude.{
  ℕ, ◌-◌, ◌%◌, ◌^◌, Bool, not, ◌&&◌, ◌||◌, none, some, List, [], ◌∷◌, ◌++◌, take, length, ltb, leb,
  ◌==◌, if◌then◌else◌,
}
use truenas_pyos.Prelude.Int.{ℤ, pos, negsuc}
use truenas_pyos.Py.{
  Result, ok, raise, out_of_bounds, value_error, bad_dir_stack_entry, type_error, overflow_error,
  unicode_error, os_message, ◌>>=◌,
}
use truenas_pyos.Xattr.Calls.{Reply, done, failed}
use truenas_pyos.FsIter.Objects.{
  Callback, DirStack, Dirp, Event, Fd, FsIter, FsKernel, IterDir, IterState, IterStats, Statx, Text,
  closed_dir, closed_fd, max_depth, path_max, reported,
}

abbrev pub cur_depth : FsIter → ℕ
cur_depth it = length it.dir_stack

-- snprintf(full_path, PATH_MAX, "%s/%s", ...) cuts what does not fit.
unfoldable pub full_path : Text → Text → Text
full_path path name = take (path_max - 1) (path ++ (b'/' ∷ name))

-- dup(2) and fdopendir(3): a second descriptor, since Python closes the first.
unfoldable pub open_dirp : FsKernel → Fd → Reply Dirp
open_dirp k fd = elim (k.dup fd) [
  | failed e ↦ failed e
  | done dup_fd ↦ elim (k.fdopendir dup_fd) [
    | failed e ↦ failed e
    | done answers ↦ done (record { dir_fd = dup_fd; answers = answers })
  ]
]

-- The descriptor that a failing fdopendir leaves is closed.
abbrev close_dup : FsKernel → Fd → List Event
close_dup k fd = elim (k.dup fd) [ failed e ↦ [] | done dup_fd ↦ closed_fd dup_fd ∷ [] ]

-- With the descriptor and the statx of `self->last`.
unfoldable pub push_dir_stack :
    FsKernel → FsIter → IterDir → Fd → Statx → Result (Unit {0}) × FsIter
unfolding full_path open_dirp
push_dir_stack k it cur_dir fd st =
    if leb max_depth (cur_depth it) then (raise (os_message none), it) else elim (open_dirp k fd) [
      | failed e ↦ (raise (os_message (some e)), record it { log = close_dup k fd ++ it.log })
      | done dirp ↦ (
        ok tt,
        record it {
          dir_stack =
              record { path = full_path cur_dir.path it.last.name; dirp = dirp; ino = st.stx_ino }
              ∷ it.dir_stack;
        },
      )
    ]

-- cleanup_iter_dir closes the DIR *.
unfoldable pub pop_dir_stack : FsIter → FsIter
pop_dir_stack it = elim it.dir_stack [
  | [] ↦ it
  | d ∷ below ↦ record it { dir_stack = below; log = closed_dir d.dirp.dir_fd ∷ it.log }
]

abbrev text_object : FsKernel → Text → Result Text
text_object k s = if k.is_utf8 s then ok s else raise unicode_error

-- The root stands first in the tuple.
unfoldable pub build_dir_stack_tuple : FsKernel → List IterDir → Result DirStack
build_dir_stack_tuple k [] = ok []
build_dir_stack_tuple k (d ∷ below) = build_dir_stack_tuple k below >>= λ dirs.
    text_object k d.path >>= λ path. ok (dirs ++ ((path, d.ino) ∷ []))

unfoldable pub py_fsiter_state_from_struct : FsKernel → IterState → Text → Result IterStats
py_fsiter_state_from_struct k state current_dir = text_object k current_dir >>= λ dir.
    ok (record { stats_cnt = state.cnt; stats_bytes = state.cnt_bytes; current_directory = dir })

-- Whether the callback is called when the loop is not at its end; an increment of 0 is never.
unfoldable pub is_due : FsIter → Bool
is_due it = not (it.reporting_cb_increment == 0) && it.state.cnt % it.reporting_cb_increment == 0

call_back : Callback → FsIter → DirStack → IterStats → Result (Unit {0}) × FsIter
call_back cb it dirs stats = (cb dirs stats, record it { log = reported dirs stats ∷ it.log })

invoke : FsKernel → Callback → FsIter → Text → Result (Unit {0}) × FsIter
unfolding build_dir_stack_tuple py_fsiter_state_from_struct call_back
invoke k cb it current_dir = elim (build_dir_stack_tuple k it.dir_stack) [
  | ok dirs ↦ elim (py_fsiter_state_from_struct k it.state current_dir) [
    | ok stats ↦ call_back cb it dirs stats
    | raise e ↦ (raise e, it)
    | out_of_bounds ↦ (out_of_bounds, it)
  ]
  | raise e ↦ (raise e, it)
  | out_of_bounds ↦ (out_of_bounds, it)
]

unfoldable pub check_and_invoke_reporting_callback :
    FsKernel → FsIter → Text → Bool → Result (Unit {0}) × FsIter
unfolding is_due invoke
check_and_invoke_reporting_callback k it current_dir final = elim it.reporting_cb [
  | none ↦ (ok tt, it)
  | some cb ↦ if final || is_due it then invoke k cb it current_dir else (ok tt, it)
]

-- An entry of the `dir_stack` argument: its second part if it is a pair, an integer or not.
pub data StackItem : Type 0 where
  not_a_pair inode_no_int : StackItem
  inode : ℤ → StackItem

-- The `dir_stack` argument.
pub data StackArg : Type 0 where
  no_stack not_a_tuple : StackArg
  stack_of : List StackItem → StackArg

unfoldable pub cookie_of : StackItem → Result ℕ
cookie_of not_a_pair = raise (value_error bad_dir_stack_entry)
cookie_of inode_no_int = raise type_error
cookie_of (inode (pos n)) = if ltb n (2 ^ 64) then ok n else raise overflow_error
cookie_of (inode (negsuc n)) = raise overflow_error

unfoldable pub cookies_loop : List StackItem → Result (List ℕ)
unfolding cookie_of
cookies_loop [] = ok []
cookies_loop (x ∷ items) = cookie_of x >>= λ c. cookies_loop items >>= λ cookies. ok (c ∷ cookies)

unfoldable pub dir_stack_to_cookies : StackArg → Result (List ℕ)
unfolding cookies_loop
dir_stack_to_cookies no_stack = ok []
dir_stack_to_cookies not_a_tuple = raise type_error
dir_stack_to_cookies (stack_of items) = cookies_loop items
