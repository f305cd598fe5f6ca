-- ===== src/Userns/Clone.antt =====
-- src/cext/os/userns.c: the child that holds a user namespace while its maps are written, and the
-- descriptor of the namespace. The system calls are a parameter.
use truenas_pyos.Prelude.{ℕ, Bool, true, false, ◌||◌, Option, none, some, List, [], ◌∷◌, ◌++◌}
use truenas_pyos.Py.{Result, ok, raise, value_error, os_error, empty_map, raise_if, ◌>>=◌, ◌>>◌}
use truenas_pyos.Xattr.Calls.{Reply, done, failed}
use truenas_pyos.Access.Pipe.{Transfer, Writer, write_all}
use truenas_pyos.Userns.Maps.{MapArg, MapEntry, format_map_text, parse_map_list}

-- The files of /proc/<pid> that are written.
pub data ProcFile : Type 0 where
  setgroups uid_map gid_map : ProcFile

-- How a file is opened, written and closed: an errno, the writes, an errno.
pub record FileCalls : Type 0 where
  pub open_errno : Option ℕ
  pub writes : List Transfer
  pub close_errno : Option ℕ

-- The system calls: clone3 gives a child, and the ioctl the descriptor of its namespace. waitpid is
-- called again until it returns.
pub record UsernsKernel : Type 0 where
  pub clone3 : Reply ℕ
  pub proc_file : ProcFile → FileCalls
  pub get_user_namespace : Reply ℕ

-- What is done to the child and to descriptors, in order.
pub data UsernsEvent : Type 0 where
  cloned : ℕ → UsernsEvent
  wrote : ProcFile → List ℕ → UsernsEvent
  got_namespace : ℕ → UsernsEvent
  killed reaped closed_pidfd : UsernsEvent

pub data Stage : Type 0 where
  clone_stage namespace_stage : Stage
  write_stage : ProcFile → Stage

-- SETGROUPS_DENY
abbrev pub deny : List ℕ
deny = b'd' ∷ b'e' ∷ b'n' ∷ b'y' ∷ []

unfoldable pub file_written : ProcFile → Option ℕ → Writer × Option ℕ → Option ℕ × List UsernsEvent
file_written file close_errno (w, none) = (close_errno, wrote file w.out ∷ [])
file_written file close_errno (w, some e) = (some e, wrote file w.out ∷ [])

-- write_path: `none` for 0, or the errno of -1. A file that cannot be opened is not written.
unfoldable pub write_path : ProcFile → FileCalls → List ℕ → Option ℕ × List UsernsEvent
unfolding write_all file_written
write_path file calls text = elim calls.open_errno [
  | some e ↦ (some e, [])
  | none ↦ file_written file calls.close_errno (write_all calls.writes [] text)
]

unfoldable pub after_write :
    ProcFile
    → Option ℕ × List UsernsEvent
    → Option (Stage × ℕ) × List UsernsEvent
    → Option (Stage × ℕ) × List UsernsEvent
after_write file (some e, events) rest = (some (write_stage file, e), events)
after_write file (none, events) (r, later) = (r, events ++ later)

-- The three files in their order; the first failure goes to the cleanup.
unfoldable pub write_maps :
    UsernsKernel → List (ProcFile × List ℕ) → Option (Stage × ℕ) × List UsernsEvent
unfolding write_path after_write
write_maps k [] = (none, [])
write_maps k ((file, text) ∷ files) =
    after_write file (write_path file (k.proc_file file) text) (write_maps k files)

-- cleanup_child and out: the child is killed and waited for, and the pidfd is closed. These are the
-- calls that are made; the code ignores what they answer, but for waitpid's EINTR, on which it is called
-- again.
abbrev pub cleanup : List UsernsEvent
cleanup = killed ∷ reaped ∷ closed_pidfd ∷ []

-- A namespace, or the stage that failed with its errno.
pub data Userns : Type 0 where
  namespace_fd : ℕ → Userns
  stage_failed : Stage → ℕ → Userns

unfoldable pub in_namespace : Reply ℕ → Userns × List UsernsEvent
in_namespace (done fd) = (namespace_fd fd, got_namespace fd ∷ [])
in_namespace (failed e) = (stage_failed namespace_stage e, [])

unfoldable pub with_child :
    UsernsKernel → Option (Stage × ℕ) × List UsernsEvent → Userns × List UsernsEvent
unfolding in_namespace
with_child k (some (stage, e), events) = (stage_failed stage e, events ++ cleanup)
with_child k (none, events) =
    let (r, more) = in_namespace k.get_user_namespace in (r, events ++ (more ++ cleanup))

abbrev pub map_files : List ℕ → List ℕ → List (ProcFile × List ℕ)
map_files uid_text gid_text = (setgroups, deny) ∷ (uid_map, uid_text) ∷ (gid_map, gid_text) ∷ []

unfoldable pub in_parent : ℕ → Userns × List UsernsEvent → Userns × List UsernsEvent
in_parent pid (r, events) = (r, cloned pid ∷ events)

-- The parent's side; the child waits until it is killed.
unfoldable pub clone_and_collect_userns_fd :
    UsernsKernel → List ℕ → List ℕ → Userns × List UsernsEvent
unfolding write_maps with_child in_parent
clone_and_collect_userns_fd k uid_text gid_text = elim k.clone3 [
  | failed e ↦ (stage_failed clone_stage e, [])
  | done pid ↦ in_parent pid (with_child k (write_maps k (map_files uid_text gid_text)))
]

abbrev is_empty : List MapEntry → Bool
is_empty [] = true
is_empty (e ∷ entries) = false

-- The texts of both maps, or the exception.
unfoldable pub map_texts : MapArg → MapArg → Result (List ℕ × List ℕ)
map_texts uid_seq gid_seq = parse_map_list uid_seq >>= λ uids. parse_map_list gid_seq >>= λ gids.
    raise_if (is_empty uids || is_empty gids) (value_error empty_map)
    >> (format_map_text uids >>= λ uid_text.
        format_map_text gids >>= λ gid_text. ok (uid_text, gid_text))

abbrev pub userns_result : Userns → Result ℕ
userns_result (namespace_fd fd) = ok fd
userns_result (stage_failed stage e) = raise (os_error e)

unfoldable pub cloned_with : UsernsKernel → Result (List ℕ × List ℕ) → Result ℕ × List UsernsEvent
unfolding clone_and_collect_userns_fd
cloned_with k (ok (uid_text, gid_text)) =
    let (r, events) = clone_and_collect_userns_fd k uid_text gid_text in (userns_result r, events)
cloned_with k (raise e) = (raise e, [])
cloned_with k Result.out_of_bounds = (Result.out_of_bounds, [])

unfoldable pub do_create_idmap_userns : UsernsKernel → MapArg → MapArg → Result ℕ × List UsernsEvent
unfolding map_texts cloned_with
do_create_idmap_userns k uid_seq gid_seq = cloned_with k (map_texts uid_seq gid_seq)
