-- ===== src/Access/Examples.antt =====
-- The theorems about src/cext/os/acl_check.c on a small kernel, and tests of the definitions.
use truenas_pyos.Prelude.{
  ℕ, Bool, All, length, sym, ◌&&◌, ltb, leb, lt→ltb, leb_of_le, ◌≤◌, false, ◌<◌, ◌^◌, ◌≡◌, refl,
  true, ◌||◌, Option, none, some, List, [], ◌∷◌, ◌++◌, arith, ◌==◌, if◌then◌else◌,
}
use truenas_pyos.Prelude.Int.{pos}
use truenas_pyos.Prelude.Bytes.{c_string, le32, read_le32}
use truenas_pyos.Py.{int, ok, raise, value_error, bad_mode}
use truenas_pyos.Access.Check.{
  Checked, Os, check_arguments, do_check_path_access, reap_child, wait_interrupted,
}
use truenas_pyos.Access.CheckLaws.{IsQuiet, do_check_path_access-refused_all, refused_all}
use truenas_pyos.Access.Child.{
  Kernel, done, exited, failed, probe_components, run_check_child, swap_creds,
}
use truenas_pyos.Access.KernelLaws.{KernelLaws, ngroups_max}
use truenas_pyos.Access.ChildLaws.{IsSwappable, bytes_of, denied_all, run_check_child-denied_all}
use truenas_pyos.Access.Creds.{
  Component, Cred, CredEntry, CredItem, bytes, cred_entry, do_create_cred_entry, parse_cred,
  parse_groups, str, uint32_max,
}
use truenas_pyos.Access.CredsLaws.{parse_cred-do_create_cred_entry}
use truenas_pyos.Access.Pipe.{
  FailureRec, Transfer, Writer, drain_error, drain_pipe, drained, eproto, interrupted, moves,
  rec_bytes,
}
use truenas_pyos.Access.PipeLaws.{drain_pipe-records_of, records_of}

abbrev rec_a : FailureRec
rec_a = record { cred_idx = 0; comp_idx = 1; err = 13 }

-- Two records, read in pieces of 5 bytes and less.
abbrev pieces : List Transfer
pieces = moves 4 ∷ interrupted ∷ moves 0 ∷ moves 11 ∷ []

drain_pipe-records_of_example :
    drain_pipe pieces (rec_bytes rec_a ++ rec_bytes rec_a)
    ≡ some (records_of (rec_bytes rec_a ++ rec_bytes rec_a))
drain_pipe-records_of_example =
    drain_pipe-records_of pieces (rec_bytes rec_a ++ rec_bytes rec_a) (tt, (tt, (tt, (tt, tt))))

two_records :
    drain_pipe pieces (rec_bytes rec_a ++ rec_bytes rec_a) ≡ some (drained (rec_a ∷ rec_a ∷ []))
unfolding drain_pipe le32 read_le32 rec_bytes
two_records = refl

cut_record : drain_pipe pieces (rec_bytes rec_a ++ (0 ∷ [])) ≡ some (drain_error eproto)
unfolding drain_pipe le32 read_le32 rec_bytes
cut_record = refl

-- A kernel that lets root and nobody else through, except for uid 1000 below a short path.
record Ids : Type 0 where
  user : ℕ
  saved : ℕ
  group : ℕ
  groups : List ℕ

abbrev allowed : ℕ → ℕ → List ℕ → List ℕ → ℕ → Option ℕ
allowed u g gs [] mode = none
allowed u g gs (b ∷ rest) mode = if u == 0 then none else if u == b then some 2 else some 13

-- An id of -1 leaves the old one.
abbrev next_id : ℕ → ℕ → ℕ
next_id old n = if n == uint32_max then old else n

abbrev are_ids : List ℕ → Bool
are_ids [] = true
are_ids (g ∷ gs) = ltb g uint32_max && are_ids gs

abbrev takes : List ℕ → Bool
takes gs = leb (length gs) ngroups_max && are_ids gs

ids_taken : (gs : List ℕ) → All (λ g. g < uint32_max) gs → are_ids gs ≡ true
ids_taken [] h = refl
ids_taken (g ∷ gs) h = rw (lt→ltb g uint32_max h.0, ids_taken gs h.1) refl

takes_small :
    (gs : List ℕ) → length gs ≤ ngroups_max → All (λ g. g < uint32_max) gs → takes gs ≡ true
takes_small gs size h = rw (leb_of_le (length gs) ngroups_max size, ids_taken gs h) refl

other_id : (old n : ℕ) → n < uint32_max → next_id old n ≡ n
other_id old n h = let differs : (n == uint32_max) ≡ false = ground arith in rw differs refl

abbrev small_kernel : Kernel Ids
small_kernel = record {
  setresuid = λ r e s t.
      if (t.user == 0) || (t.saved == 0)
      then done (record t { user = next_id t.user e; saved = next_id t.saved s })
      else failed 1;
  setresgid =
      λ r e s t. if t.user == 0 then done (record t { group = next_id t.group e }) else failed 1;
  setgroups = λ gs t.
      if t.user == 0
      then (if takes gs then done (record t { groups = gs }) else failed 22)
      else failed 1;
  faccessat2 = λ path mode t. allowed t.user t.group t.groups path mode;
}

abbrev small_laws : KernelLaws small_kernel
small_laws = record {
  IsRootable = λ t. t.saved ≡ 0;
  IsRoot = λ t. (t.user ≡ 0) × (t.saved ≡ 0);
  euid = λ t. t.user;
  egid = λ t. t.group;
  groups = λ t. t.groups;
  access = allowed;
  root_euid = λ t h. h.0;
  become_root = λ t h. (record t { user = 0; saved = 0 }, ground arith, (refl, refl));
  set_gid =
      λ t g h small. (record t { group = g }, rw (h.0, other_id t.group g small) refl, h, refl);
  set_groups = λ t gs h size small.
      (record t { groups = gs }, rw (h.0, takes_small gs size small) refl, h, refl, refl);
  set_uid = λ t u h small.
      (record t { user = u; saved = 0 }, rw (h.0, other_id 0 u small) refl, refl, refl, refl, refl);
  keep_uid = λ t h. (record t { user = 0; saved = 0 }, rw h.0 refl, refl, sym h.0, refl, refl);
  probe = λ t path mode. refl;
}

abbrev root_task : Ids
root_task = record { user = 0; saved = 0; group = 0; groups = [] }

abbrev someone : Cred
someone = record { id_name = str "someone"; uid = 1000; gid = 1000; groups = 100 ∷ [] }

swappable : IsSwappable someone
swappable = (omega arith, omega arith, omega arith, (omega arith, tt))

abbrev paths : List (List ℕ)
paths = (47 ∷ []) ∷ (47 ∷ 97 ∷ []) ∷ []

run_check_child-denied_all_example :
    (w' : Writer) × (run_check_child small_kernel true 1 paths 0
        (someone ∷ [])
        root_task
        (record { script = pieces; out = [] })
      ≡ (exited 0, w'))
    × (w'.out ≡ bytes_of (denied_all small_kernel small_laws true 1 paths 0 (someone ∷ [])))
run_check_child-denied_all_example =
    run_check_child-denied_all small_kernel small_laws true 1 paths 0 (someone ∷ []) root_task
      (record { script = pieces; out = [] }) refl (swappable, tt) (tt, (tt, (tt, (tt, tt))))

-- The user id 2 ^ 32 - 1 passes create_cred_entry, and is probed as root.
unchanged_uid_test :
    run_check_child small_kernel true 1 paths 0
      (record someone { uid = uint32_max } ∷ [])
      root_task
      (record { script = []; out = [] })
    ≡ (exited 0, record { script = []; out = [] })
unfolding run_check_child swap_creds probe_components c_string
unchanged_uid_test = refl

abbrev small_os : Os Ids
small_os = record {
  kernel = small_kernel;
  task = root_task;
  pipe2 = none;
  clone3 = none;
  writes = pieces;
  reads = pieces;
  waits = wait_interrupted ∷ [];
  killed = none;
}

abbrev caller_creds : List CredItem
caller_creds =
    cred_entry (record {
      id_name = str "someone";
      uid = int (pos 1000);
      gid = int (pos 1000);
      groups = some [];
    })
    ∷ []

-- Both components are refused, in order.
both_refused :
    do_check_path_access small_os
      (some caller_creds)
      (some (bytes (47 ∷ []) ∷ bytes (47 ∷ 97 ∷ []) ∷ []))
      true
      (pos 1)
    ≡ some (
        ok (
          record { id_name = str "someone"; failing_component = 47 ∷ []; errnum = 13 }
          ∷ record { id_name = str "someone"; failing_component = 47 ∷ 97 ∷ []; errnum = 13 }
          ∷ []))
unfolding do_check_path_access le32 read_le32
both_refused = refl

no_mode :
    do_check_path_access small_os (some caller_creds) none true (pos 0)
    ≡ some (raise (value_error bad_mode))
unfolding do_check_path_access
no_mode = refl

abbrev components : List Component
components = bytes (47 ∷ []) ∷ bytes (47 ∷ 97 ∷ []) ∷ []

abbrev parsed : Checked
parsed = record { creds = record someone { groups = [] } ∷ []; components = paths }

accepted_arguments : check_arguments (some caller_creds) (some components) (pos 1) ≡ ok parsed
unfolding check_arguments
accepted_arguments = refl

quiet_run : IsQuiet small_os small_laws
unfolding reap_child
quiet_run = record {
  pipe2_done = refl;
  clone3_done = refl;
  rootable = refl;
  writes_done = (tt, (tt, (tt, (tt, tt))));
  reads_done = (tt, (tt, (tt, (tt, tt))));
  waits_done = refl;
  not_killed = refl;
}

allowed-lt : (u g : ℕ) (gs path : List ℕ) (e : ℕ) → allowed u g gs path 1 ≡ some e → e < 2 ^ 32
allowed-lt u g gs [] e h = cc
allowed-lt u g gs (b ∷ rest) e h = ground arith

do_check_path_access-refused_all_example :
    do_check_path_access small_os (some caller_creds) (some components) true (pos 1)
    ≡ some (ok (refused_all small_os small_laws true 1 paths parsed.creds))
do_check_path_access-refused_all_example =
    do_check_path_access-refused_all small_os small_laws (some caller_creds) (some components) true
      (pos 1) accepted_arguments quiet_run ((omega arith, omega arith, omega arith, tt), tt)
      (omega arith) (omega arith) allowed-lt

abbrev made_entry : CredEntry
made_entry = record {
  id_name = str "someone";
  uid = int (pos 1000);
  gid = int (pos 100);
  groups = some (int (pos 4) ∷ int (pos 27) ∷ []);
}

entry_made :
    do_create_cred_entry (str "someone") 1000 100 (some (int (pos 4) ∷ int (pos 27) ∷ []))
    ≡ ok made_entry
unfolding do_create_cred_entry
entry_made = refl

parse_cred-do_create_cred_entry_example :
    (gs : List ℕ) × (parse_groups (some (int (pos 4) ∷ int (pos 27) ∷ [])) ≡ ok gs)
    × (parse_cred (cred_entry made_entry)
        ≡ ok (record { id_name = str "someone"; uid = 1000; gid = 100; groups = gs }))
parse_cred-do_create_cred_entry_example =
    parse_cred-do_create_cred_entry (str "someone") 1000 100
      (some (int (pos 4) ∷ int (pos 27) ∷ [])) entry_made
