-- ===== src/Userns/CloneLaws.antt =====
-- src/cext/os/userns.c: what becomes of the child and of the maps, whatever the system calls answer.
use truenas_pyos.Prelude.{
  ℕ, ◌≡◌, refl, ap, sym, ◌∙◌, ◌⊎◌, inl, inr, Bool, true, false, Option, none, some, List, [], ◌∷◌,
  ◌++◌, map, length, take, drop, All, take-append-drop, Option-cases,
}
use mathlib.Core.List.{append_assoc, append-nil}
use truenas_pyos.Xattr.Calls.{Reply, done, failed}
use truenas_pyos.Access.Pipe.{Transfer, Writer, write_all, moves, interrupted, fails}
use truenas_pyos.Py.{ok}
use truenas_pyos.Userns.Clone.{
  FileCalls, ProcFile, Stage, Userns, UsernsEvent, UsernsKernel, after_write,
  clone_and_collect_userns_fd, clone_stage, cloned, cloned_with, closed_pidfd, deny,
  do_create_idmap_userns, file_written, gid_map, got_namespace, in_namespace, in_parent, killed,
  map_files, map_texts, namespace_fd, namespace_stage, reaped, setgroups, stage_failed, uid_map,
  userns_result, with_child, write_maps, write_path, write_stage, wrote,
}
use truenas_pyos.Userns.MapText.{read_map}
use truenas_pyos.Userns.Maps.{MapArg, MapEntry, entry_item, entry_object, items_of}
use truenas_pyos.Userns.MapsLaws.{IsCreated, format_map_text-read_map, map_text}

-- A write that ends without an error has written everything.
write_all-out :
    (script : List Transfer) (out buf : List ℕ)
    → (write_all script out buf).1 ≡ none
    → (write_all script out buf).0.out ≡ out ++ buf
unfolding write_all
write_all-out script out [] h = sym (append-nil out)
write_all-out [] out (b ∷ buf) h = refl
write_all-out (interrupted ∷ script) out (b ∷ buf) h = write_all-out script out (b ∷ buf) h
write_all-out (fails e ∷ script) out (b ∷ buf) h = cc
write_all-out (moves n ∷ script) out (b ∷ buf) h =
    write_all-out script (out ++ take n (b ∷ buf)) (drop n (b ∷ buf)) h
    ∙ append_assoc out (take n (b ∷ buf)) (drop n (b ∷ buf))
    ∙ ap (λ l. out ++ l) (take-append-drop n (b ∷ buf))

abbrev pub is_write : UsernsEvent → Bool
is_write (wrote file text) = true
is_write _ = false

abbrev pub IsWrite : UsernsEvent → Type 0
IsWrite event = is_write event ≡ true

-- A file: its whole text is written, or the call fails.
abbrev pub WriteEnds : ProcFile → List ℕ → Option ℕ × List UsernsEvent → Type 0
WriteEnds file text r =
    ((e : ℕ) × (events : List UsernsEvent) × (r ≡ (some e, events)) × All IsWrite events)
    ⊎ (r ≡ (none, wrote file text ∷ []))

file_written-WriteEnds :
    (file : ProcFile) (close_errno : Option ℕ) (text : List ℕ) (r : Writer × Option ℕ)
    → (r.1 ≡ none → r.0.out ≡ text)
    → WriteEnds file text (file_written file close_errno r)
unfolding file_written
file_written-WriteEnds file none text (w, none) h =
    inr (ap (λ t. (none, wrote file t ∷ [])) (h refl))
file_written-WriteEnds file (some e) text (w, none) h =
    inl (e, wrote file w.out ∷ [], refl, (refl, tt))
file_written-WriteEnds file close_errno text (w, some e) h =
    inl (e, wrote file w.out ∷ [], refl, (refl, tt))

write_path-WriteEnds :
    (file : ProcFile) (calls : FileCalls) (text : List ℕ)
    → WriteEnds file text (write_path file calls text)
unfolding write_path
write_path-WriteEnds file calls text = elim (Option-cases calls.open_errno) [
  | inr (e, failing) ↦ inl (e, [], rw failing refl, tt)
  | inl opened ↦
      let ends =
        file_written-WriteEnds file calls.close_errno text (write_all calls.writes [] text)
          (write_all-out calls.writes [] text) in
      rw opened ends
]

abbrev pub all_written : List (ProcFile × List ℕ) → List UsernsEvent
all_written [] = []
all_written ((file, text) ∷ files) = wrote file text ∷ all_written files

abbrev pub MapsEnd : List (ProcFile × List ℕ) → Option (Stage × ℕ) × List UsernsEvent → Type 0
MapsEnd files r =
    ((stage : Stage) × (e : ℕ) × (events : List UsernsEvent) × (r ≡ (some (stage, e), events))
      × All IsWrite events)
    ⊎ (r ≡ (none, all_written files))

write_maps-MapsEnd :
    (k : UsernsKernel) (files : List (ProcFile × List ℕ)) → MapsEnd files (write_maps k files)
unfolding write_maps after_write
write_maps-MapsEnd k [] = inr refl
write_maps-MapsEnd k ((file, text) ∷ files) =
    elim (write_path-WriteEnds file (k.proc_file file) text) [
      | inl (e, events, r, writes) ↦
          inl (
            write_stage file,
            e,
            events,
            ap (λ w. after_write file w (write_maps k files)) r,
            writes,
          )
      | inr r ↦ elim (write_maps-MapsEnd k files) [
        | inl (stage, e, events, later, writes) ↦ inl (
          stage,
          e,
          wrote file text ∷ events,
          ap (λ w. after_write file w (write_maps k files)) r
              ∙ ap (after_write file (none, wrote file text ∷ [])) later,
          (refl, writes),
        )
        | inr later ↦ inr (
            ap (λ w. after_write file w (write_maps k files)) r
            ∙ ap (after_write file (none, wrote file text ∷ [])) later)
      ]
    ]

Reply-cases {ℓ} : {A : Type ℓ} (r : Reply A) → ((x : A) × (r ≡ done x)) ⊎ ((e : ℕ) × (r ≡ failed e))
Reply-cases (done x) = inl (x, refl)
Reply-cases (failed e) = inr (e, refl)

-- How clone_and_collect_userns_fd ends: there is no child; or there is one, and a later stage fails; or
-- the namespace is there.
pub data CloneEnds (uid_text gid_text : List ℕ) (r : Userns × List UsernsEvent) : Type 0 where
  no_child : (e : ℕ) → r ≡ (stage_failed clone_stage e, []) → CloneEnds uid_text gid_text r
  cleaned_up :
      (pid : ℕ) (stage : Stage) (e : ℕ) (before : List UsernsEvent)
      → r ≡ (stage_failed stage e, cloned pid ∷ (before ++ (killed ∷ reaped ∷ closed_pidfd ∷ [])))
      → All IsWrite before
      → CloneEnds uid_text gid_text r
  has_namespace :
      (pid fd : ℕ)
      → r ≡ (
        namespace_fd fd,
        cloned pid
            ∷ wrote setgroups deny
            ∷ wrote uid_map uid_text
            ∷ wrote gid_map gid_text
            ∷ got_namespace fd
            ∷ killed
            ∷ reaped
            ∷ closed_pidfd
            ∷ [],
      )
      → CloneEnds uid_text gid_text r

with_child-CloneEnds :
    (k : UsernsKernel) (uid_text gid_text : List ℕ) (pid : ℕ)
    → CloneEnds uid_text gid_text
        (in_parent pid (with_child k (write_maps k (map_files uid_text gid_text))))
unfolding with_child in_namespace in_parent
with_child-CloneEnds k uid_text gid_text pid =
    elim (write_maps-MapsEnd k (map_files uid_text gid_text)) [
      | inl (stage, e, events, r, writes) ↦
          cleaned_up pid stage e events (ap (λ w. in_parent pid (with_child k w)) r) writes
      | inr r ↦ elim (Reply-cases k.get_user_namespace) [
        | inl (fd, n) ↦
            has_namespace pid fd (ap (λ w. in_parent pid (with_child k w)) r ∙ rw n refl)
        | inr (e, n) ↦
            cleaned_up pid namespace_stage e (all_written (map_files uid_text gid_text))
              (ap (λ w. in_parent pid (with_child k w)) r ∙ rw n refl) (refl, (refl, (refl, tt)))
      ]
    ]

-- Whatever the system calls answer: without a child nothing is done; a child is killed and waited for
-- and its pidfd closed, once each and last of all; if a stage fails behind clone3, nothing but the
-- files has been written before that, and there is no descriptor of a namespace; and where one is
-- returned, "deny" and the whole texts of both maps had been written before it, in this order.
clone_and_collect_userns_fd-CloneEnds :
    (k : UsernsKernel) (uid_text gid_text : List ℕ)
    → CloneEnds uid_text gid_text (clone_and_collect_userns_fd k uid_text gid_text)
unfolding clone_and_collect_userns_fd
clone_and_collect_userns_fd-CloneEnds k uid_text gid_text = elim (Reply-cases k.clone3) [
  | inl (pid, c) ↦ let ends = with_child-CloneEnds k uid_text gid_text pid in rw c ends
  | inr (e, c) ↦ no_child e (rw c refl)
]

abbrev pub created_items : List MapEntry → MapArg
created_items entries = items_of (map (λ e. entry_item (entry_object e)) entries)

map_texts-IsCreated :
    (u g : MapEntry) (uids gids : List MapEntry)
    → All IsCreated (u ∷ uids)
    → All IsCreated (g ∷ gids)
    → map_texts (created_items (u ∷ uids)) (created_items (g ∷ gids))
      ≡ ok (map_text (u ∷ uids), map_text (g ∷ gids))
unfolding map_texts
map_texts-IsCreated u g uids gids hu hg =
    let (parsed_uids, uid_text, _, _) = format_map_text-read_map (u ∷ uids) hu in
    let (parsed_gids, gid_text, _, _) = format_map_text-read_map (g ∷ gids) hg in
    rw (parsed_uids, parsed_gids, uid_text, gid_text) refl

-- With maps of at least one entry that create_idmap_mapping has made, create_idmap_userns returns or
-- raises what clone_and_collect_userns_fd ends with on texts that read as these maps. So where it
-- returns a descriptor, the files of the child hold "deny" and both maps; and a child that there was
-- is gone.
pub do_create_idmap_userns-CloneEnds :
    (k : UsernsKernel) (u g : MapEntry) (uids gids : List MapEntry)
    → All IsCreated (u ∷ uids)
    → All IsCreated (g ∷ gids)
    → (r : Userns × List UsernsEvent) × (do_create_idmap_userns k
          (created_items (u ∷ uids))
          (created_items (g ∷ gids))
        ≡ (userns_result r.0, r.1))
      × CloneEnds (map_text (u ∷ uids)) (map_text (g ∷ gids)) r
      × (read_map (length (u ∷ uids)) (map_text (u ∷ uids)) ≡ u ∷ uids)
      × (read_map (length (g ∷ gids)) (map_text (g ∷ gids)) ≡ g ∷ gids)
unfolding do_create_idmap_userns cloned_with
do_create_idmap_userns-CloneEnds k u g uids gids hu hg =
    let (_, _, _, read_uids) = format_map_text-read_map (u ∷ uids) hu in
    let (_, _, _, read_gids) = format_map_text-read_map (g ∷ gids) hg in
    (
      clone_and_collect_userns_fd k (map_text (u ∷ uids)) (map_text (g ∷ gids)),
      ap (cloned_with k) (map_texts-IsCreated u g uids gids hu hg),
      clone_and_collect_userns_fd-CloneEnds k (map_text (u ∷ uids)) (map_text (g ∷ gids)),
      read_uids,
      read_gids,
    )
