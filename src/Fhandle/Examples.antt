-- ===== src/Fhandle/Examples.antt =====
-- The theorem about src/cext/os/fhandle.c at a concrete handle, and tests.
use truenas_pyos.Prelude.{
  ℕ, zero, suc, ◌+◌, ◌≤◌, ◌<◌, ◌≡◌, refl, false, none, List, [], ◌∷◌, ◌++◌, arith,
}
use truenas_pyos.Prelude.Int.{ℤ, pos}
use truenas_pyos.Prelude.Bytes.{le32, read_le32}
use truenas_pyos.Py.{ok, raise, value_error, handle_too_large, path_or_handle, empty_path_flags}
use truenas_pyos.Fhandle.Handle.{
  max_handle_sz, header_size, at_fdcwd, Fhandle, HandleKernel, py_fhandle_new,
  do_fhandle_from_bytes, py_fhandle_bytes, py_fhandle_open, py_fhandle_init, check_path_args,
}
use truenas_pyos.Fhandle.HandleLaws.{IsHandle, struct_of, do_fhandle_from_bytes-py_fhandle_bytes}

abbrev nines : ℕ → List ℕ
nines zero = []
nines (suc n) = 9 ∷ nines n

-- A handle with 12 bytes of type 1, on mount 40.
abbrev handle : Fhandle
handle = record { mount_id = 40; unique_mount_id = false; fhbuf = le32 12 ++ (le32 1 ++ nines 128) }

handle-IsHandle : IsHandle handle 12
unfolding le32 read_le32
handle-IsHandle = record {
  has_mount_id = refl;
  has_header = refl;
  fits = omega arith;
  buffer_size = refl;
}

do_fhandle_from_bytes-py_fhandle_bytes_example :
    (py_fhandle_bytes handle ≡ ok (struct_of handle 12))
    × (header_size + 12 ≤ max_handle_sz
        → (h' : Fhandle) × (do_fhandle_from_bytes py_fhandle_new (struct_of handle 12) 40 false
            ≡ ok h')
          × (py_fhandle_bytes h' ≡ ok (struct_of handle 12))
          × ((k : HandleKernel)
              → (mount_fd flags : ℤ)
              → py_fhandle_open k h' mount_fd flags ≡ py_fhandle_open k handle mount_fd flags))
    × (max_handle_sz < header_size + 12
        → do_fhandle_from_bytes py_fhandle_new (struct_of handle 12) 40 false
          ≡ raise (value_error handle_too_large))
do_fhandle_from_bytes-py_fhandle_bytes_example =
    do_fhandle_from_bytes-py_fhandle_bytes handle py_fhandle_new 12 handle-IsHandle

empty_path : check_path_args [] at_fdcwd 0x1000 ≡ raise (value_error empty_path_flags)
unfolding check_path_args
empty_path = refl

nothing_given :
    (k : HandleKernel)
    → py_fhandle_init k py_fhandle_new (record {
      path = none;
      dir_fd = at_fdcwd;
      flags = pos 0;
      handle_bytes = none;
      mount_id_arg = 7;
      unique_mount_id_arg = pos 0;
    })
      ≡ (raise (value_error path_or_handle), py_fhandle_new)
unfolding py_fhandle_init
nothing_given k = refl
