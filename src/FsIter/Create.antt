-- ===== src/FsIter/Create.antt =====
-- src/cext/os/fsiter.c: `create_filesystem_iterator`, from the parsed arguments of
-- iter_filesystem_contents to the iterator at its root.
use truenas_pyos.Prelude.{
  ℕ, ◌^◌, Bool, true, false, not, Option, none, some, List, [], ◌∷◌, ◌++◌, length, leb, ltb,
}
use truenas_pyos.Prelude.Int.{ℤ, pos, negsuc, fits_long, u64_of}
use truenas_pyos.Py.{
  overflow_error, Result, ok, raise, value_error, path_too_long, type_error, not_a_directory,
  runtime_error, raise_if, ◌>>=◌, ◌>>◌,
}
use truenas_pyos.Nfs4.Valid.{s_isdir}
use truenas_pyos.Filter.Objects.{str_eq}
use truenas_pyos.Xattr.Calls.{or_os_error}
use truenas_pyos.FsIter.Entry.{mountpoint}
use truenas_pyos.FsIter.Objects.{
  Callback, FsIter, FsKernel, IterDir, IterEntry, IterState, Text, oflags_dir_iter, path_max,
  resolve_no_symlinks,
}
use truenas_pyos.FsIter.Sample.{root}
use truenas_pyos.FsIter.Stack.{StackArg, dir_stack_to_cookies}

-- The `reporting_callback` argument.
pub data CallbackArg : Type 0 where
  no_callback not_callable : CallbackArg
  callable : Callback → CallbackArg

unfoldable pub callback_of : CallbackArg → Result (Option Callback)
callback_of no_callback = ok none
callback_of not_callable = raise type_error
callback_of (callable cb) = ok (some cb)

-- An empty relative path is none.
unfoldable pub root_path : Text → Option Text → Text
root_path mountpoint none = mountpoint
root_path mountpoint (some []) = mountpoint
root_path mountpoint (some (c ∷ path)) = mountpoint ++ (b'/' ∷ c ∷ path)

-- The directory at the root: openat2, statx, the type, the source of its mount, and fdopendir.
unfoldable pub open_root : FsKernel → Text → Text → Result IterDir
open_root k path filesystem_name =
    or_os_error (k.openat2 none path oflags_dir_iter resolve_no_symlinks) >>= λ fd.
    or_os_error (k.statx fd) >>= λ st.
    raise_if (not (s_isdir st.stx_mode)) not_a_directory
    >> (or_os_error (k.sb_source st.stx_mnt_id) >>= λ source.
        raise_if (not (str_eq source filesystem_name)) runtime_error
        >> (or_os_error (k.fdopendir fd) >>= λ answers. ok (record {
          path = path;
          dirp = record { dir_fd = fd; answers = answers };
          ino = st.stx_ino;
        })))

abbrev no_entry : IterEntry
no_entry = record { name = []; st = none; fd = none; is_dir = false; is_mount = false }

abbrev pub new_iter : IterDir → IterState → ℕ → Option Callback → List ℕ → FsIter
new_iter root state increment cb cookies = record {
  dir_stack = root ∷ [];
  state = state;
  last = no_entry;
  cookies = cookies;
  restoring_from_cookie = elim cookies [ [] ↦ false | c ∷ rest ↦ true ];
  reporting_cb_increment = increment;
  reporting_cb = cb;
  skip_next_recursion = false;
  is_closed = false;
  log = [];
}

unfoldable pub create_filesystem_iterator :
    FsKernel → Text → Option Text → Text → IterState → ℕ → CallbackArg → StackArg → Result FsIter
unfolding callback_of dir_stack_to_cookies root_path open_root
create_filesystem_iterator k mountpoint relative_path filesystem_name state increment cb dirs =
    callback_of cb >>= λ callback. dir_stack_to_cookies dirs >>= λ cookies.
    let path = root_path mountpoint relative_path in
    raise_if (leb path_max (length path)) (value_error (path_too_long (length path)))
    >> (open_root k path filesystem_name >>= λ root.
        ok (new_iter root state increment callback cookies))

-- The arguments of iter_filesystem_contents as Python gives them, with their defaults put in.
pub record IterArgs : Type 0 where
  pub arg_mountpoint : Text
  pub arg_filesystem_name : Text
  pub arg_relative_path : Option Text
  pub arg_btime_cutoff : ℤ
  pub arg_cnt : ℤ
  pub arg_cnt_bytes : ℤ
  pub arg_file_open_flags : ℤ
  pub arg_increment : ℤ
  pub arg_callback : CallbackArg
  pub arg_dir_stack : StackArg
  pub arg_symlinks : Bool
  pub arg_mountpoints : Bool

-- The range of C's `int`.
abbrev fits_int : ℤ → Bool
fits_int (pos n) = ltb n (2 ^ 31)
fits_int (negsuc n) = ltb n (2 ^ 31)

-- "L" and "i" check the range of a number, "K" takes it modulo 2 ^ 64; the flags are cast to the 64
-- bits of a struct open_how.
unfoldable pub py_iter_filesystem_contents : FsKernel → IterArgs → Result FsIter
unfolding create_filesystem_iterator
py_iter_filesystem_contents k args =
    raise_if (not (fits_long args.arg_btime_cutoff)) overflow_error
    >> raise_if (not (fits_int args.arg_file_open_flags)) overflow_error
    >> create_filesystem_iterator k args.arg_mountpoint args.arg_relative_path
        args.arg_filesystem_name
        (record {
          config = record {
            btime_cutoff = args.arg_btime_cutoff;
            file_open_flags = u64_of args.arg_file_open_flags;
            include_symlinks = args.arg_symlinks;
            include_mountpoints = args.arg_mountpoints;
          };
          cnt = u64_of args.arg_cnt;
          cnt_bytes = u64_of args.arg_cnt_bytes;
        })
        (u64_of args.arg_increment) args.arg_callback args.arg_dir_stack
