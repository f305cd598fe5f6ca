-- ===== src/FsIter/PlainRounds.antt =====
-- src/cext/os/fsiter.c: the rounds that give nothing, at entries that are passed over.
use truenas_pyos.Prelude.{ℕ, suc, ◌<◌, ◌≡◌, refl, ◌∙◌, false, Option, List, ◌∷◌, length, leb_of_lt}
use truenas_pyos.Py.{Exc}
use truenas_pyos.FsIter.Entry.{is_dot, process_next_entry}
use truenas_pyos.FsIter.Next.{next_round}
use truenas_pyos.FsIter.Objects.{
  Callback, Dirent, Event, Fd, FsKernel, IterConfig, IterDir, IterEntry, Readdir, Text, entry,
  max_depth,
}
use truenas_pyos.FsIter.Round.{cookie_at, handler_raised, round_action, round_dirent, round_entry}
use truenas_pyos.FsIter.Running.{at, running}

pub next_round-entry :
    (k : FsKernel) (config : IterConfig) (increment : ℕ) (cb : Option Callback) (path : Text)
    (dir_fd : Fd) (d : Dirent) (signals : List (Option Exc)) (rest : List Readdir) (ino : ℕ)
    (below : List IterDir) (last : IterEntry) (cnt bytes : ℕ) (log : List Event)
    → suc (length below) < max_depth
    → next_round k (
        running config increment cb
          (at path dir_fd (entry d signals ∷ rest) ino ∷ below)
          last
          cnt
          bytes
          log)
      ≡ round_dirent k
          (running config increment cb (at path dir_fd rest ino ∷ below) last cnt bytes log)
          (at path dir_fd (entry d signals ∷ rest) ino)
          d
          signals
unfolding next_round
next_round-entry k config increment cb path dir_fd d signals rest ino below last cnt bytes log h =
    rw (leb_of_lt max_depth (suc (length below)) h) refl

-- An entry that no cookie keeps back is processed.
round_dirent-running :
    (k : FsKernel) (config : IterConfig) (increment : ℕ) (cb : Option Callback) (cur_dir : IterDir)
    (d : Dirent) (signals : List (Option Exc)) (dirs : List IterDir) (last : IterEntry)
    (cnt bytes : ℕ) (log : List Event)
    → is_dot d.d_name ≡ false
    → handler_raised signals ≡ false
    → round_dirent k (running config increment cb dirs last cnt bytes log) cur_dir d signals
      ≡ round_action k cur_dir (
          process_next_entry k
            (running config increment cb dirs last cnt bytes log)
            cur_dir.dirp.dir_fd
            d)
unfolding round_dirent cookie_at round_entry
round_dirent-running k config increment cb cur_dir d signals dirs last cnt bytes log dot quiet =
    rw (dot, quiet) refl

pub next_round-processed :
    (k : FsKernel) (config : IterConfig) (increment : ℕ) (cb : Option Callback) (path : Text)
    (dir_fd : Fd) (d : Dirent) (signals : List (Option Exc)) (rest : List Readdir) (ino : ℕ)
    (below : List IterDir) (last : IterEntry) (cnt bytes : ℕ) (log : List Event)
    → suc (length below) < max_depth
    → is_dot d.d_name ≡ false
    → handler_raised signals ≡ false
    → next_round k (
        running config increment cb
          (at path dir_fd (entry d signals ∷ rest) ino ∷ below)
          last
          cnt
          bytes
          log)
      ≡ round_action k (at path dir_fd (entry d signals ∷ rest) ino) (
          process_next_entry k
            (running config increment cb (at path dir_fd rest ino ∷ below) last cnt bytes log)
            dir_fd
            d)
next_round-processed k config increment cb path dir_fd d signals rest ino below last cnt bytes log h
      dot quiet =
    next_round-entry k config increment cb path dir_fd d signals rest ino below last cnt bytes log h
    ∙ round_dirent-running k config increment cb (at path dir_fd (entry d signals ∷ rest) ino) d
        signals (at path dir_fd rest ino ∷ below) last cnt bytes log dot quiet
