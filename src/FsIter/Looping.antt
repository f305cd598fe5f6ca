-- ===== src/FsIter/Looping.antt =====
-- src/cext/os/fsiter.c: a consumer in the middle of a call of `__next__`.
use truenas_pyos.Prelude.{
  ℕ, suc, ◌≡◌, refl, ap, sym, ◌∙◌, Bool, true, false, Option, none, some, List, if◌then◌else◌, [],
  ◌∷◌,
}
use truenas_pyos.Py.{value_error, closed_iterator}
use mathlib.Core.Path.{subst}
use truenas_pyos.FsIter.Next.{next, next_loop, next_round, skip, take_skip}
use truenas_pyos.FsIter.Objects.{
  Callback, Event, Fd, FsIter, FsKernel, IterConfig, IterDir, IterEntry, IterInstance, closed_dir,
  closed_fd,
}
use truenas_pyos.FsIter.Round.{
  close_held, close_last, continues, raised, returns, stop_iteration, yielded,
}
use truenas_pyos.FsIter.Running.{running}
use truenas_pyos.FsIter.Stack.{pop_dir_stack}
use truenas_pyos.FsIter.Walk.{Consumed, after_item, finished, prunes, skip_if, taken}

-- A consumer in the middle of a call of `__next__`, before a round of its loop.
pub data Looping (k : FsKernel) (prune : IterInstance → Bool)
    : FsIter → List IterInstance → Type 0 where
  loop_ends :
      {it : FsIter} (it' : FsIter) (fuel : ℕ)
      → next_loop k fuel it ≡ some (stop_iteration, it')
      → Looping k prune it []
  loop_gives :
      {it : FsIter} {items : List IterInstance} (it' : FsIter) (fuel : ℕ) (inst : IterInstance)
      → next_loop k fuel it ≡ some (yielded inst, it')
      → Consumed k prune (after_item prune inst it') items
      → Looping k prune it (inst ∷ items)

-- What `__next__` does before its loop.
abbrev pub begin_next : FsIter → FsIter
begin_next it = take_skip (close_last it)

module _ (k : FsKernel) (prune : IterInstance → Bool) where
  pub Looping-continues :
      {items : List IterInstance} (it it' : FsIter)
      → next_round k it ≡ continues it'
      → Looping k prune it' items
      → Looping k prune it items
  unfolding next_loop
  Looping-continues it it' r (loop_ends last fuel e) =
      loop_ends last (suc fuel) (rw (next_loop, r) e)
  Looping-continues it it' r (loop_gives last fuel inst e rest) =
      loop_gives last (suc fuel) inst (rw (next_loop, r) e) rest

  next-begin_next :
      (fuel : ℕ) (it : FsIter)
      → it.is_closed ≡ false
      → next k fuel it ≡ next_loop k fuel (begin_next it)
  unfolding next
  next-begin_next fuel it opened =
      ap
        (λ b.
          if b
          then some (raised (value_error closed_iterator), it)
          else next_loop k fuel (begin_next it))
        opened

  pub Consumed-begin_next :
      {items : List IterInstance} (it : FsIter)
      → it.is_closed ≡ false
      → Looping k prune (begin_next it) items
      → Consumed k prune it items
  Consumed-begin_next it opened (loop_ends last fuel e) =
      finished last fuel (next-begin_next fuel it opened ∙ e)
  Consumed-begin_next it opened (loop_gives last fuel inst e rest) =
      taken last fuel inst (next-begin_next fuel it opened ∙ e) rest

  pub Looping-returns :
      {items : List IterInstance} (it it' : FsIter) (inst : IterInstance)
      → next_round k it ≡ returns (yielded inst) it'
      → (after_item prune inst it').is_closed ≡ false
      → Looping k prune (begin_next (after_item prune inst it')) items
      → Looping k prune it (inst ∷ items)
  unfolding next_loop
  Looping-returns it it' inst r opened rest =
      loop_gives it' 1 inst (rw (next_loop, r) refl) (Consumed-begin_next _ opened rest)

-- An entry whose descriptor Python has had.
abbrev pub done_with : IterEntry → IterEntry
done_with last = record last { fd = none }

skip_if-true :
    (it : FsIter)
    → it.is_closed ≡ false
    → it.last.is_dir ≡ true
    → skip_if true it ≡ record it { skip_next_recursion = true }
unfolding skip_if skip
skip_if-true it opened isdir = rw (opened, isdir) refl

-- The iterator behind an item, when the next call of `__next__` begins its loop: at the same stack, or
-- at the one below where the consumer has skipped.
abbrev pub resumed :
    IterConfig → ℕ → Option Callback → List IterDir → IterEntry → Fd → ℕ → ℕ → List Event → FsIter
resumed config increment cb dirs last fd cnt bytes log =
    running config increment cb dirs (done_with last) cnt bytes (closed_fd fd ∷ log)

module _ (k : FsKernel) (config : IterConfig) (increment : ℕ) (cb : Option Callback) (fd : Fd)
    (last : IterEntry) (cnt bytes : ℕ) (log : List Event) (inst : IterInstance)
    (prune : IterInstance → Bool) where
  abbrev pub given : List IterDir → FsIter
  given dirs = running config increment cb dirs last cnt bytes log

  pub Looping-stays :
      {items : List IterInstance} (it : FsIter) (dirs : List IterDir)
      → next_round k it ≡ returns (yielded inst) (given dirs)
      → last.fd ≡ some fd
      → prunes prune inst ≡ false
      → Looping k prune (resumed config increment cb dirs last fd cnt bytes log) items
      → Looping k prune it (inst ∷ items)
  unfolding take_skip close_last skip_if
  Looping-stays it dirs r held p rest =
      Looping-returns k prune it (given dirs) inst r (rw p refl) (rw (p, held) rest)

  begin_next-skips :
      (top : IterDir) (dirs : List IterDir)
      → last.fd ≡ some fd
      → last.is_dir ≡ true
      → prunes prune inst ≡ true
      → begin_next (after_item prune inst (given (top ∷ dirs)))
        ≡ running config increment cb dirs
            (done_with last)
            cnt
            bytes
            (closed_dir top.dirp.dir_fd ∷ closed_fd fd ∷ log)
  unfolding take_skip close_last pop_dir_stack
  begin_next-skips top dirs held isdir p =
      let skipping = record (given (top ∷ dirs)) { skip_next_recursion = true } in
      ap (λ b. begin_next (skip_if b (given (top ∷ dirs)))) p
      ∙ ap begin_next (skip_if-true (given (top ∷ dirs)) refl isdir)
      ∙ ap (λ o. take_skip (close_held skipping o)) held

  pub Looping-skips :
      {items : List IterInstance} (it : FsIter) (top : IterDir) (dirs : List IterDir)
      → next_round k it ≡ returns (yielded inst) (given (top ∷ dirs))
      → last.fd ≡ some fd
      → last.is_dir ≡ true
      → prunes prune inst ≡ true
      → Looping k prune
          (running config increment cb dirs
            (done_with last)
            cnt
            bytes
            (closed_dir top.dirp.dir_fd ∷ closed_fd fd ∷ log))
          items
      → Looping k prune it (inst ∷ items)
  Looping-skips {items = items} it top dirs r held isdir p rest =
      Looping-returns k prune it (given (top ∷ dirs)) inst r
        (rw (p, skip_if-true (given (top ∷ dirs)) refl isdir) refl)
        (subst (λ x. Looping k prune x items) (sym (begin_next-skips top dirs held isdir p)) rest)
