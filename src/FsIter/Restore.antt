-- ===== src/FsIter/Restore.antt =====
-- src/cext/os/fsiter.c: an iterator that is restored from the `dir_stack` of another.
use truenas_pyos.Prelude.{
  ℕ, suc, ◌<◌, ◌≡◌, refl, ap, sym, ◌∙◌, inl, inr, true, false, not, ◌||◌, Option, some, List, [],
  ◌∷◌, ◌++◌, length, arith, leb_of_lt, leb_of_le, Bool-cases, ◌==◌, length-append,
}
use truenas_pyos.Py.{Exc}
use truenas_pyos.Nfs4.Valid.{s_isdir}
use truenas_pyos.Xattr.Calls.{done}
use truenas_pyos.FsIter.Entry.{entry_outcome, fill_entry, found, is_dot}
use truenas_pyos.FsIter.Looping.{done_with}
use truenas_pyos.FsIter.Next.{next_round}
use truenas_pyos.FsIter.Objects.{
  Callback, Dirent, Dirp, Event, Fd, FsKernel, IterConfig, IterDir, IterEntry, Readdir, Statx, Text,
  closed_fd, entry, max_depth,
}
use truenas_pyos.FsIter.Round.{
  close_held, close_last, continues, handler_raised, push_then, restored, round_action, round_dir,
  round_dirent, round_entry,
}
use truenas_pyos.FsIter.Running.{at, running}
use truenas_pyos.FsIter.Stack.{full_path, open_dirp}
use truenas_pyos.FsIter.Trail.{
  clear_cookie-append, cookie_at-append, cookies_assoc, process_next_entry-found,
  push_dir_stack-pushed, restoring, seeking,
}
use truenas_pyos.FsIter.Walk.{stored_name}

module _ (k : FsKernel) (config : IterConfig) (increment : ℕ) (cb : Option Callback) where
  -- One answer of readdir while a cookie is looked for.
  next_round-restoring :
      (cookies : List ℕ) (path : Text) (dir_fd : Fd) (d : Dirent) (signals : List (Option Exc))
      (rest : List Readdir) (ino : ℕ) (below : List IterDir) (last : IterEntry) (cnt bytes : ℕ)
      (log : List Event)
      → suc (length below) < max_depth
      → next_round k (
          restoring config increment cb cookies
            (at path dir_fd (entry d signals ∷ rest) ino ∷ below)
            last
            cnt
            bytes
            log)
        ≡ round_dirent k
            (restoring config increment cb cookies
              (at path dir_fd rest ino ∷ below)
              last
              cnt
              bytes
              log)
            (at path dir_fd (entry d signals ∷ rest) ino)
            d
            signals
  unfolding next_round
  next_round-restoring cookies path dir_fd d signals rest ino below last cnt bytes log h =
      rw (leb_of_lt max_depth (suc (length below)) h) refl

  pub next_round-past :
      (before : List ℕ) (c : ℕ) (cookies : List ℕ) (path : Text) (dir_fd : Fd) (d : Dirent)
      (signals : List (Option Exc)) (rest : List Readdir) (ino : ℕ) (below : List IterDir)
      (last : IterEntry) (cnt bytes : ℕ) (log : List Event)
      → suc (length below) < max_depth
      → length before ≡ suc (length below)
      → (c == 0) ≡ false
      → is_dot d.d_name || not (d.d_ino == c) ≡ true
      → next_round k (
          restoring config increment cb
            (before ++ (c ∷ cookies))
            (at path dir_fd (entry d signals ∷ rest) ino ∷ below)
            last
            cnt
            bytes
            log)
        ≡ continues (
            restoring config increment cb
              (before ++ (c ∷ cookies))
              (at path dir_fd rest ino ∷ below)
              last
              cnt
              bytes
              log)
  unfolding round_dirent
  next_round-past before c cookies path dir_fd d signals rest ino below last cnt bytes log h level
        nonzero past =
      next_round-restoring (before ++ (c ∷ cookies)) path dir_fd d signals rest ino below last cnt
        bytes log h
      ∙ elim (Bool-cases (is_dot d.d_name)) [
        | inl dot ↦ rw dot refl
        | inr dot ↦
            let other : not (d.d_ino == c) ≡ true =
              ap (λ b. b || not (d.d_ino == c)) (sym dot) ∙ past in
            rw (dot, cookie_at-append before c cookies (suc (length below)) level, nonzero, other)
              refl
      ]

  restored-seeking :
      (before cookies : List ℕ) (dirs : List IterDir) (last : IterEntry) (fd : Fd) (cnt bytes : ℕ)
      (log : List Event)
      → last.fd ≡ some fd
      → length dirs ≡ suc (length before)
      → restored (restoring config increment cb (before ++ (0 ∷ cookies)) dirs last cnt bytes log)
        ≡ seeking config increment cb
            (before ++ (0 ∷ []))
            cookies
            dirs
            (done_with last)
            cnt
            bytes
            (closed_fd fd ∷ log)
  unfolding restored close_last
  restored-seeking before [] dirs last fd cnt bytes log held level =
      rw
        (leb_of_le (length (before ++ (0 ∷ []))) (length dirs)
          (omega (arith, length-append before (0 ∷ []))))
        (ap (close_held (running config increment cb dirs last cnt bytes log)) held)
  restored-seeking before (c ∷ cookies) dirs last fd cnt bytes log held level =
      rw
        (
          leb_of_lt (length (before ++ (0 ∷ c ∷ cookies))) (length dirs)
              (omega (arith, length-append before (0 ∷ c ∷ cookies))),
          cookies_assoc before 0 (c ∷ cookies),
        )
        (ap
          (close_held
            (restoring config increment cb (before ++ (0 ∷ c ∷ cookies)) dirs last cnt bytes log))
          held)

  pub next_round-into :
      (before : List ℕ) (c : ℕ) (cookies : List ℕ) (path : Text) (dir_fd : Fd) (d : Dirent)
      (signals : List (Option Exc)) (rest : List Readdir) (ino : ℕ) (below : List IterDir)
      (last : IterEntry) (cnt bytes : ℕ) (log : List Event) (fd : Fd) (st : Statx) (dirp : Dirp)
      → suc (length below) < max_depth
      → length before ≡ suc (length below)
      → (c == 0) ≡ false
      → is_dot d.d_name ≡ false
      → (d.d_ino == c) ≡ true
      → handler_raised signals ≡ false
      → entry_outcome k config dir_fd d ≡ found fd st false
      → s_isdir st.stx_mode ≡ true
      → open_dirp k fd ≡ done dirp
      → next_round k (
          restoring config increment cb
            (before ++ (c ∷ cookies))
            (at path dir_fd (entry d signals ∷ rest) ino ∷ below)
            last
            cnt
            bytes
            log)
        ≡ continues (
            seeking config increment cb
              (before ++ (0 ∷ []))
              cookies
              (at (full_path path (stored_name d)) dirp.dir_fd dirp.answers st.stx_ino
                ∷ at path dir_fd rest ino
                ∷ below)
              (done_with (fill_entry last d (found fd st false)))
              cnt
              bytes
              (closed_fd fd ∷ log))
  unfolding round_dirent round_entry round_action round_dir push_then
  next_round-into before c cookies path dir_fd d signals rest ino below last cnt bytes log fd st
        dirp h level nonzero dot same quiet e isdir opened =
      let cur_dir = at path dir_fd (entry d signals ∷ rest) ino in
      let found_dir = fill_entry last d (found fd st false) in
      let cleared =
        restoring config increment cb (before ++ (0 ∷ cookies)) (at path dir_fd rest ino ∷ below)
          last cnt bytes log in
      let filled = record cleared { last = found_dir } in
      next_round-restoring (before ++ (c ∷ cookies)) path dir_fd d signals rest ino below last cnt
        bytes log h
      ∙ rw
          (
            dot,
            cookie_at-append before c cookies (suc (length below)) level,
            nonzero,
            same,
            quiet,
            sym level,
            clear_cookie-append before c cookies,
          )
          refl
      ∙ ap (round_action k cur_dir) (process_next_entry-found k cleared dir_fd d fd st e isdir)
      ∙ ap (push_then (λ pushed. continues (restored pushed)))
          (push_dir_stack-pushed k filled cur_dir fd st dirp h opened)
      ∙ ap continues (
          restored-seeking before cookies
            (at (full_path path (stored_name d)) dirp.dir_fd dirp.answers st.stx_ino
              ∷ at path dir_fd rest ino
              ∷ below)
            found_dir fd cnt bytes log refl (omega arith))
