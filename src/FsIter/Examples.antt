-- ===== src/FsIter/Examples.antt =====
-- The theorems about src/cext/os/fsiter.c on a small file system, and tests of the iterator.
use truenas_pyos.Prelude.{ℕ, suc, ◌≡◌, refl, ap, Bool, true, false, none, some, [], ◌∷◌, arith}
use truenas_pyos.Prelude.Int.{pos, minus_one}
use truenas_pyos.Py.{ok, raise, value_error, overflow_error, closed_iterator}
use truenas_pyos.FsIter.Create.{
  callback_of, create_filesystem_iterator, new_iter, no_callback, open_root, root_path,
}
use truenas_pyos.FsIter.CreateLaws.{create_filesystem_iterator-Consumed}
use truenas_pyos.FsIter.Entry.{
  btime_cut, entry_outcome, mountpoint, open_failed, open_flags, stat_entry,
}
use truenas_pyos.FsIter.Limits.{close_lem, next-max_depth, next_round-root_only, skip-mountpoint}
use truenas_pyos.FsIter.Looping.{begin_next}
use truenas_pyos.FsIter.Next.{
  cleanup_dirs, cleanup_last, close, closing, enter, get_stats, iter_dir_stack, next, next_loop,
  next_round, skip,
}
use truenas_pyos.FsIter.Objects.{FsIter, IterInstance, Text, closed_dir, closed_fd, entry}
use truenas_pyos.FsIter.RestoreLaws.{create_filesystem_iterator-Trail, inner_first, no_dirs}
use truenas_pyos.FsIter.Round.{aborted, close_last, continues, handler_raised, raised, yielded}
use truenas_pyos.FsIter.Running.{at, running}
use truenas_pyos.FsIter.Sample.{
  disk, dup_of, empty_dirs, fd_of, fresh, length-empty_dirs, listing, named, nothing_held, root,
  stat_of, tank, with_mountpoints,
}
use truenas_pyos.FsIter.Stack.{
  build_dir_stack_tuple, cookie_of, cookies_loop, dir_stack_to_cookies, full_path, inode, no_stack,
  open_dirp, stack_of,
}
use truenas_pyos.FsIter.Trail.{restoring, trail_end, trail_into, trail_past}
use truenas_pyos.FsIter.Walk.{Consumed, Walk, instance_of, walk_dot, walk_end, walk_file, walk_into}

abbrev keep : IterInstance → Bool
keep inst = false

abbrev item : Text → ℕ → Bool → IterInstance
item parent c is_mount = instance_of parent (c ∷ []) (fd_of c) (stat_of c) is_mount

abbrev in_a : Text
in_a = b'/' ∷ b'/' ∷ b'a' ∷ []

-- What stands behind the directory "a" at the root.
behind_a :
    Walk disk with_mountpoints keep 1
      (b'/' ∷ [])
      (fd_of b'/')
      (entry (named b'f' 8) [] ∷ entry (named b'm' 4) [] ∷ [])
      (item (b'/' ∷ []) b'f' false ∷ item (b'/' ∷ []) b'm' true ∷ [])
unfolding entry_outcome open_flags open_failed stat_entry btime_cut mountpoint handler_raised
behind_a =
    walk_file (named b'f' 8) [] (fd_of b'f') (stat_of b'f') false refl refl refl refl
      (walk_file (named b'm' 4) [] (fd_of b'm') (stat_of b'm') true refl refl refl refl walk_end)

inside_a :
    Walk disk with_mountpoints keep 0 in_a (dup_of b'a') (listing b'a') (item in_a b'g' false ∷ [])
unfolding entry_outcome open_flags stat_entry btime_cut handler_raised
inside_a =
    walk_file (named b'g' 8) [] (fd_of b'g') (stat_of b'g') false refl refl refl refl walk_end

all_items : Walk disk with_mountpoints keep 1 (b'/' ∷ []) (fd_of b'/') (listing b'/') (
    item (b'/' ∷ []) b'a' false
    ∷ item in_a b'g' false
    ∷ item (b'/' ∷ []) b'f' false
    ∷ item (b'/' ∷ []) b'm' true
    ∷ [])
unfolding entry_outcome open_flags stat_entry btime_cut handler_raised open_dirp full_path
all_items = walk_dot (named b'.' 4) [] refl (
    walk_into (named b'a' 4) (none ∷ []) (fd_of b'a') (stat_of b'a')
      (record { dir_fd = dup_of b'a'; answers = listing b'a' }) refl refl refl refl refl refl
      inside_a behind_a)

-- A whole iteration: the directory, what is in it, the file and the mount point.
create_filesystem_iterator-Consumed_example :
    (it : FsIter) × (create_filesystem_iterator disk
        (b'/' ∷ [])
        none
        tank
        fresh
        2
        no_callback
        no_stack
      ≡ ok it)
    × Consumed disk keep it (
        item (b'/' ∷ []) b'a' false
        ∷ item in_a b'g' false
        ∷ item (b'/' ∷ []) b'f' false
        ∷ item (b'/' ∷ []) b'm' true
        ∷ [])
unfolding callback_of dir_stack_to_cookies root_path open_root
create_filesystem_iterator-Consumed_example =
    create_filesystem_iterator-Consumed disk (b'/' ∷ []) none tank fresh 2 no_callback no_stack none
      root keep refl refl (omega arith) refl (λ s. refl) tt all_items (omega arith)

-- Restored inside "a": the file in it, and what stands behind "a".
create_filesystem_iterator-Trail_example :
    (it : FsIter) × (create_filesystem_iterator disk
        (b'/' ∷ [])
        none
        tank
        fresh
        2
        no_callback
        (stack_of (inode (pos b'/') ∷ inode (pos b'a') ∷ []))
      ≡ ok it)
    × Consumed disk keep it
        (item in_a b'g' false ∷ item (b'/' ∷ []) b'f' false ∷ item (b'/' ∷ []) b'm' true ∷ [])
unfolding callback_of dir_stack_to_cookies cookies_loop cookie_of root_path open_root entry_outcome
    open_flags stat_entry btime_cut handler_raised open_dirp full_path
create_filesystem_iterator-Trail_example =
    create_filesystem_iterator-Trail disk (b'/' ∷ []) none tank fresh 2 no_callback
      (stack_of (inode (pos b'/') ∷ inode (pos b'a') ∷ [])) none root keep b'/' b'a' refl refl
      (omega arith) refl (λ s. refl) tt (refl, tt)
      (trail_past (named b'.' 4) [] refl (
        trail_into (named b'a' 4) (none ∷ []) (fd_of b'a') (stat_of b'a')
          (record { dir_fd = dup_of b'a'; answers = listing b'a' }) refl refl refl refl refl refl
          trail_end))
      (omega arith)
      (inner_first inside_a (omega arith) (inner_first behind_a (omega arith) no_dirs))

next-max_depth_example :
    (it : FsIter) × (next_loop disk 1 (
        running with_mountpoints 0 none
          (at (b'/' ∷ []) (fd_of b'/') (entry (named b'a' 4) [] ∷ []) 1 ∷ empty_dirs 2046)
          nothing_held
          0
          0
          [])
      ≡ some (yielded (item (b'/' ∷ []) b'a' false), it))
    × ((fuel : ℕ) → next disk (suc fuel) it ≡ some (aborted, close_last it))
unfolding entry_outcome open_flags stat_entry btime_cut handler_raised open_dirp
next-max_depth_example =
    next-max_depth disk with_mountpoints 0 none (b'/' ∷ []) (fd_of b'/') (named b'a' 4) [] [] 1
      (empty_dirs 2046) nothing_held 0 0 [] (fd_of b'a') (stat_of b'a')
      (record { dir_fd = dup_of b'a'; answers = listing b'a' }) (λ s. refl) tt
      (ap (λ n. suc (suc n)) (length-empty_dirs 2046)) refl refl refl refl refl

skip-mountpoint_example :
    (it it' : FsIter) × (next_loop disk 1 (
        running with_mountpoints 0 none
          (at (b'/' ∷ []) (fd_of b'/') (entry (named b'm' 4) [] ∷ entry (named b'f' 8) [] ∷ []) 1
            ∷ [])
          nothing_held
          0
          0
          [])
      ≡ some (yielded (item (b'/' ∷ []) b'm' true), it))
    × (skip it ≡ ok it')
    × ((begin_next it').dir_stack ≡ [])
unfolding entry_outcome open_flags open_failed mountpoint handler_raised
skip-mountpoint_example =
    skip-mountpoint disk with_mountpoints 0 none (b'/' ∷ []) (fd_of b'/') (named b'm' 4) []
      (entry (named b'f' 8) [] ∷ []) 1 [] nothing_held 0 0 [] (fd_of b'm') (stat_of b'm')
      (λ s. refl) tt (omega arith) refl refl refl refl

next_round-root_only_example :
    next_round disk (
      restoring with_mountpoints 0 none
        (b'/' ∷ [])
        (at (b'/' ∷ []) (fd_of b'/') (entry (named b'a' 4) [] ∷ []) b'/' ∷ [])
        nothing_held
        0
        0
        [])
    ≡ continues (
        running with_mountpoints 0 none
          (at in_a (dup_of b'a') (listing b'a') b'a' ∷ at (b'/' ∷ []) (fd_of b'/') [] b'/' ∷ [])
          (record nothing_held { name = b'a' ∷ []; st = some (stat_of b'a'); is_dir = true })
          0
          0
          (closed_fd (fd_of b'a') ∷ []))
unfolding entry_outcome open_flags stat_entry btime_cut handler_raised open_dirp full_path
next_round-root_only_example =
    next_round-root_only disk with_mountpoints 0 none b'/' (b'/' ∷ []) (fd_of b'/') (named b'a' 4)
      [] [] b'/' nothing_held 0 0 [] (fd_of b'a') (stat_of b'a')
      (record { dir_fd = dup_of b'a'; answers = listing b'a' }) refl refl refl refl refl

abbrev opened : FsIter
opened = new_iter root fresh 0 none []

close_lem_example :
    (next disk 0 (close opened) ≡ some (raised (value_error closed_iterator), close opened))
    × (get_stats disk (close opened) ≡ raise (value_error closed_iterator))
    × (skip (close opened) ≡ raise (value_error closed_iterator))
    × (iter_dir_stack disk (close opened) ≡ raise (value_error closed_iterator))
    × (enter (close opened) ≡ raise (value_error closed_iterator))
    × (close (close opened) ≡ close opened)
close_lem_example = close_lem disk opened 0

-- The stack of an open iterator, and the closing of its directory.
dir_stack_root : iter_dir_stack disk opened ≡ ok ((b'/' ∷ [], b'/') ∷ [])
unfolding iter_dir_stack build_dir_stack_tuple
dir_stack_root = refl

close_root : (close opened).log ≡ closed_dir (fd_of b'/') ∷ []
unfolding close closing cleanup_dirs cleanup_last
close_root = refl

cookie_negative : dir_stack_to_cookies (stack_of (inode minus_one ∷ [])) ≡ raise overflow_error
unfolding dir_stack_to_cookies cookies_loop cookie_of
cookie_negative = refl
