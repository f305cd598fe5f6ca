-- ===== src/Lib.antt =====
-- The access-control code of the `truenas_os` C extension (src/cext/os): NFSv4 ACLs, POSIX.1e ACLs,
-- their xattr forms, the check of a path under other credentials, the iterator over a filesystem, file
-- handles and id-mapped user namespaces; and the filters of the `truenas_pyfilter` extension
-- (src/cext/filter_utils).
--
-- An ACL is a bytes object that a Python object wraps. `from_aces` sorts the entries that a caller
-- passes and writes the bytes; the readers decode them again; `generate_inherited_acl` makes the ACL of
-- a new file or directory from its parent's; `nfs4acl_valid` and `posixacl_valid` check bytes before
-- they are set on an open file.
--
-- - Prelude: Boolean tests, lists, C's integers (Prelude/Int), bit arithmetic (Prelude/Bits), and the
--   big-endian and little-endian words of the two formats (Prelude/Bytes).
-- - Py: what the extension sees of CPython. A function that returns a value or sets an exception
--   returns a `Result`; its third case, `out_of_bounds`, is a read past the end of a buffer.
--   `PyList_Sort` is a parameter (Py/Sort): a sort that is stable and orders by the comparison it is
--   given, where that is a total order; Py/InsertionSort is an instance.
-- - Nfs4: src/cext/os/nfs4acl.c. Types has `NFS4Ace_t`, the flag and type constants and the order of
--   `NFS4Ace_richcompare`; Slot the five words of an entry (`nfs4ace_encode`, `nfs4ace_decode`); Acl the
--   object, `NFS4ACL_from_aces` and the readers; Inherit `NFS4ACL_generate_inherited_acl`; Valid
--   `nfs4acl_valid`, with fstat(2) as a parameter.
-- - Posix: src/cext/os/posixacl.c. Types has `POSIXAce_t` and its order; Acl the object with its two
--   blobs, `POSIXACL_from_aces`, `parse_posix_aces` and `POSIXACL_generate_inherited_acl`; Valid
--   `validate_posix_blob` and `posixacl_valid`.
-- - Xattr: src/cext/os/acl.c. Calls has `do_fgetacl`, the ACL that it synthesizes from mode bits, the
--   setters and `do_fremoveacl`. What the kernel answers to each call is a parameter, the record
--   `XattrKernel`, with the interrupted tries of the call. Entry has the functions that
--   src/cext/os/truenas_os.c gives to Python for them: `py_fgetacl`, `py_fsetacl` and the others, which
--   check an ACL with `nfs4acl_valid` or `posixacl_valid` before they set it. Generic is
--   src/cext/os/xattr.c, `do_fgetxattr`, `do_flistxattr` and `do_fsetxattr`. `do_fgetxattr` has fuel for
--   its rounds, which nothing in the code bounds: each needs another change of the value.
-- - Access: src/cext/os/acl_check.c. Creds has `CredEntry` and the parsed arguments; Pipe `write_all`
--   and `drain_pipe`; Child `run_check_child`; Check the parent, from `run_check` to
--   `do_check_path_access`. The child and the parent share a pipe of 12-byte records. The system calls
--   are a parameter (`Kernel`, and `Os` for one run), and `KernelLaws` is what their man pages say, an
--   id of -1 included.
-- - Fhandle: src/cext/os/fhandle.c. Handle has `py_fhandle_t`, `py_fhandle_init` from a path or from
--   bytes, `py_fhandle_bytes` and `py_fhandle_open`; the kernel is the record `HandleKernel`.
-- - Userns: src/cext/os/userns.c. Maps has `do_create_idmap_mapping`, `parse_map_list` and
--   `format_map_text`; Clone the parent's side of `clone_and_collect_userns_fd`, with the calls on each
--   file as a finite script, and `do_create_idmap_userns`.
-- - FsIter: src/cext/os/fsiter.c. Objects has `FilesystemIteratorObject`, the system calls it makes (a
--   parameter, the record `FsKernel`) and what readdir(3) answers, a finite list for each directory
--   that is opened. Entry has `process_next_entry`; Stack `push_dir_stack`, `pop_dir_stack`, the cookies
--   and the reporting callback; Round one round of the loop of `FilesystemIterator_next`; Next that loop
--   and the other methods; Create `create_filesystem_iterator` and `py_iter_filesystem_contents` of
--   src/cext/os/truenas_os.c. The loop has fuel for its rounds; the theorems on whole iterations give a
--   call of `__next__` that returns at every place. Walk is the recursive walk that they compare it with,
--   and a consumer that calls `__next__` and `skip`.
-- - Filter: src/cext/filter_utils. Objects has the Python objects that the filters read: what CPython
--   and the caller's classes answer is a parameter, the record `Runtime`. Path has `split_path`,
--   `init_path_part` and `opt_split_keys`; Ops `parse_op`, `c_casefold` and `apply_op`; Alias
--   `resolve_alias_path`, `resolve_alias_keys` and what they call; Compile the tree of a filter and
--   `compile_filter`, up to `py_compile_filters`; Eval `eval_simple_from`, `eval_filter`,
--   `filter_list_run` and `match_item`; Order the directives of order_by, from `compile_order_specs` to
--   `apply_order`, over a `PyList_Sort` of pairs; Options `compile_select_specs`, `py_compile_options`
--   and `apply_options` behind the projection. Filters and options are compiled once and then applied
--   to many items. Sample is a small interpreter for the tests, and Tagged and SortPairs are for the
--   proofs about sorting.
--
-- The other modules under Nfs4, Posix, Xattr, Access, FsIter, Fhandle, Userns and Filter hold theorems,
-- and Examples their instances at concrete inputs.
--
-- Bytes and machine words are natural numbers. A C `long` has 64 bits, as on amd64 and arm64, and the
-- casts to `uint32_t` and `uint16_t` wrap. Loops are structural recursion on the number of rounds left,
-- which the code computes before the loop. A call of read(2), write(2) or waitpid(2) that is cut short
-- or interrupted stands in a finite script; `drain_pipe` has fuel for each scripted read, each byte and
-- the end of the file, and the theorem on it shows that this is enough. `compile_filter` counts down
-- the levels that FILTER_MAX_DEPTH leaves it, 65 at depth 0; `eval_filter` counts up as the code does. A
-- call of the interpreter does not change the objects that a filter still has to read.
--
-- Not modelled: failures of the allocator, the closing of descriptors in Xattr and Access,
-- reference counts, the overflow of the counters of `validate_posix_blob`, which have 31 bits,
-- failures of the calls that kill and wait for the child of a user namespace, the repr functions,
-- type registration and argument parsing; the projection of items by select, which writes into
-- dicts that may be shared, and with it tnfilter and match; and, of src/cext/os, the mount
-- information (mount.c, iter_mount.c), statx.c, and the files that pass their arguments to one call
-- of the kernel.
pub mod Prelude
pub mod Py
pub mod Access
pub mod Fhandle
pub mod Filter
pub mod FsIter
pub mod Nfs4
pub mod Posix
pub mod Userns
pub mod Xattr
