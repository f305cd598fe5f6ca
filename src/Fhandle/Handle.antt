-- ===== src/Fhandle/Handle.antt =====
-- src/cext/os/fhandle.c: py_fhandle_t and its methods. What the kernel answers is a parameter.
use truenas_pyos.Prelude.{
  ℕ, suc, zero, ◌+◌, ◌-◌, ◌^◌, Bool, true, false, not, ◌&&◌, ◌||◌, Option, none, some, List, [],
  ◌∷◌, ◌++◌, length, take, drop, ltb, ◌==◌, bit_and, if◌then◌else◌,
}
use truenas_pyos.Prelude.Int.{ℤ, pos, negsuc, u32_of, eqb_ℤ}
use truenas_pyos.Prelude.Bytes.{le32, read_le32}
use truenas_pyos.Py.{
  Result, ok, raise, Exc, value_error, os_error, not_a_directory, not_implemented, load, raise_if,
  handle_too_small, handle_too_large, handle_length, uninitialized_handle, path_and_handle,
  mount_id_required, path_or_handle, dir_fd_with_absolute, empty_path_flags, unsupported_flags,
  other_filesystem, ◌>>=◌, ◌>>◌,
}
use truenas_pyos.Xattr.Calls.{Call, check_signals, retry, or_os_error}

-- MAX_HANDLE_SZ of <fcntl.h>, and the offset of f_handle behind handle_bytes and handle_type.
abbrev pub max_handle_sz : ℕ
max_handle_sz = 128

abbrev pub header_size : ℕ
header_size = 8

-- UINT64_MAX, the mount id of a handle that is not initialized.
abbrev pub no_mount_id : ℕ
no_mount_id = 2 ^ 64 - 1

abbrev pub at_fdcwd : ℤ
at_fdcwd = negsuc 99

abbrev pub at_empty_path : ℕ
at_empty_path = 0x1000

abbrev pub at_handle_mnt_id_unique : ℕ
at_handle_mnt_id_unique = 1

-- The bits of ~SUPPORTED_FLAGS.
abbrev pub unsupported_bits : ℕ
unsupported_bits = 2 ^ 32 - 1 - 0x1603

-- py_fhandle_t: `fhandle` points to `fhbuf`, and is_handle_fd is never set.
pub record Fhandle : Type 0 where
  pub mount_id : ℕ
  pub unique_mount_id : Bool
  pub fhbuf : List ℕ

-- name_to_handle_at(2) behind the tries that EINTR ended: its errno, if it failed, what it has written
-- to the struct and the mount id. A failing call may write to the struct too.
pub record NameToHandle : Type 0 where
  pub signals : List (Option Exc)
  pub errno : Option ℕ
  pub written : List ℕ
  pub mnt_id : ℕ

-- statx gives stx_mnt_id, for the unique id or the old one; open_by_handle_at reads the struct with as
-- many bytes of f_handle as its handle_bytes says.
pub record HandleKernel : Type 0 where
  pub name_to_handle_at : ℤ → List ℕ → ℕ → NameToHandle
  pub statx_mnt_id : ℤ → Bool → Call ℕ
  pub open_by_handle_at : ℤ → List ℕ → ℤ → Call ℕ

abbrev zeros : ℕ → List ℕ
zeros zero = []
zeros (suc n) = 0 ∷ zeros n

-- tp_alloc clears the object.
abbrev pub py_fhandle_new : Fhandle
py_fhandle_new = record {
  mount_id = no_mount_id;
  unique_mount_id = false;
  fhbuf = le32 max_handle_sz ++ zeros 132;
}

-- A write to the front of the buffer.
abbrev pub overlay : List ℕ → List ℕ → List ℕ
overlay bytes buf = bytes ++ drop (length bytes) buf

abbrev name_error : ℕ → Exc
name_error e = if e == 20 then not_a_directory else if e == 95 then not_implemented else os_error e

finish_name : Fhandle → ℕ → NameToHandle → Option ℕ → Result (Unit {0}) × Fhandle
finish_name self flags r none = (
  ok tt,
  record {
    mount_id = r.mnt_id;
    unique_mount_id = not (bit_and flags at_handle_mnt_id_unique == 0);
    fhbuf = overlay r.written self.fhbuf;
  },
)
finish_name self flags r (some e) =
    (raise (name_error e), record self { fhbuf = overlay r.written self.fhbuf })

after_signals : Fhandle → ℕ → NameToHandle → Result (Unit {0}) → Result (Unit {0}) × Fhandle
unfolding finish_name
after_signals self flags r (ok u) = finish_name self flags r r.errno
after_signals self flags r (raise e) = (raise e, self)
after_signals self flags r Result.out_of_bounds = (Result.out_of_bounds, self)

unfoldable pub do_name_to_handle_at :
    HandleKernel → Fhandle → List ℕ → ℤ → ℕ → Result (Unit {0}) × Fhandle
unfolding check_signals after_signals
do_name_to_handle_at k self path dir_fd flags =
    let r = k.name_to_handle_at dir_fd path flags in
    after_signals self flags r (check_signals r.signals)

-- The checks on the bytes of a handle.
unfoldable pub check_handle_bytes : List ℕ → Result (Unit {0})
check_handle_bytes buf =
    raise_if (ltb (length buf) header_size) (value_error handle_too_small)
    >> raise_if (ltb max_handle_sz (length buf)) (value_error handle_too_large)
    >> (load (read_le32 buf) >>= λ data_bytes.
        raise_if (ltb (length buf - header_size) data_bytes) (value_error handle_length))

unfoldable pub do_fhandle_from_bytes : Fhandle → List ℕ → ℕ → Bool → Result Fhandle
unfolding check_handle_bytes
do_fhandle_from_bytes self buf mount_id unique =
    check_handle_bytes buf
    >> ok (record { mount_id = mount_id; unique_mount_id = unique; fhbuf = overlay buf self.fhbuf })

-- The parsed arguments of Fhandle(); the mount id is UINT64_MAX where it is not given.
pub record FhandleArgs : Type 0 where
  pub path : Option (List ℕ)
  pub dir_fd : ℤ
  pub flags : ℤ
  pub handle_bytes : Option (List ℕ)
  pub mount_id_arg : ℕ
  pub unique_mount_id_arg : ℤ

abbrev is_absolute : List ℕ → Bool
is_absolute [] = false
is_absolute (c ∷ s) = c == b'/'

abbrev is_empty : List ℕ → Bool
is_empty [] = true
is_empty (c ∷ s) = false

abbrev is_some : {A : Type 0} → Option A → Bool
is_some none = false
is_some (some x) = true

-- The checks on a path with its directory and flags.
unfoldable pub check_path_args : List ℕ → ℤ → ℕ → Result (Unit {0})
check_path_args path dir_fd flags =
    raise_if (is_absolute path && not (eqb_ℤ dir_fd at_fdcwd)) (value_error dir_fd_with_absolute)
    >> raise_if (is_empty path && (bit_and flags at_empty_path == 0 || eqb_ℤ dir_fd at_fdcwd))
        (value_error empty_path_flags)
    >> raise_if (not (bit_and flags unsupported_bits == 0)) (value_error unsupported_flags)

checked_name :
    HandleKernel → Fhandle → List ℕ → ℤ → ℕ → Result (Unit {0}) → Result (Unit {0}) × Fhandle
unfolding do_name_to_handle_at
checked_name k self path dir_fd flags (ok u) = do_name_to_handle_at k self path dir_fd flags
checked_name k self path dir_fd flags (raise e) = (raise e, self)
checked_name k self path dir_fd flags Result.out_of_bounds = (Result.out_of_bounds, self)

from_result : Fhandle → Result Fhandle → Result (Unit {0}) × Fhandle
from_result self (ok h) = (ok tt, h)
from_result self (raise e) = (raise e, self)
from_result self Result.out_of_bounds = (Result.out_of_bounds, self)

init_from_path : HandleKernel → Fhandle → ℤ → ℕ → Option (List ℕ) → Result (Unit {0}) × Fhandle
unfolding check_path_args checked_name
init_from_path k self dir_fd flags none = (raise (value_error path_or_handle), self)
init_from_path k self dir_fd flags (some path) =
    checked_name k self path dir_fd flags (check_path_args path dir_fd flags)

unfoldable pub py_fhandle_init : HandleKernel → Fhandle → FhandleArgs → Result (Unit {0}) × Fhandle
unfolding do_fhandle_from_bytes from_result init_from_path
py_fhandle_init k self args = elim args.handle_bytes [
  | none ↦ init_from_path k self args.dir_fd (u32_of args.flags) args.path
  | some buf ↦ from_result self (
      raise_if (is_some args.path) (value_error path_and_handle)
      >> raise_if (args.mount_id_arg == no_mount_id) (value_error mount_id_required)
      >> do_fhandle_from_bytes self buf args.mount_id_arg
          (not (eqb_ℤ args.unique_mount_id_arg (pos 0))))
]

-- The struct with the bytes that it says it has.
unfoldable pub whole_struct : Fhandle → Result (List ℕ)
whole_struct self = load (read_le32 self.fhbuf) >>= λ data_bytes.
    if ltb (length self.fhbuf) (header_size + data_bytes)
    then Result.out_of_bounds
    else ok (take (header_size + data_bytes) self.fhbuf)

unfoldable pub py_fhandle_bytes : Fhandle → Result (List ℕ)
unfolding whole_struct
py_fhandle_bytes self =
    raise_if (self.mount_id == no_mount_id) (value_error uninitialized_handle) >> whole_struct self

unfoldable pub py_fhandle_open : HandleKernel → Fhandle → ℤ → ℤ → Result ℕ
unfolding whole_struct retry
py_fhandle_open k self mount_fd flags =
    raise_if (self.mount_id == no_mount_id) (value_error uninitialized_handle)
    >> (retry (k.statx_mnt_id mount_fd self.unique_mount_id) >>= λ reply.
        or_os_error reply >>= λ stx_mnt_id.
        raise_if (not (stx_mnt_id == self.mount_id)) (value_error other_filesystem)
        >> (whole_struct self >>= λ handle.
            retry (k.open_by_handle_at mount_fd handle flags) >>= λ opened. or_os_error opened))

unfoldable pub py_fhandle_mount_id : Fhandle → Option ℕ
py_fhandle_mount_id self = if self.mount_id == no_mount_id then none else some self.mount_id
