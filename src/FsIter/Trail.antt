-- ===== src/FsIter/Trail.antt =====
-- src/cext/os/fsiter.c: an iterator that looks for the directories of its cookies.
use truenas_pyos.Prelude.{
  ℕ, ◌<◌, ◌≡◌, refl, ap, sym, ◌∙◌, true, false, not, ◌||◌, Option, some, List, [], ◌∷◌, ◌++◌,
  length, get_elem?, leb_of_lt, map, ◌==◌,
}
use truenas_pyos.Py.{ok, Exc}
use truenas_pyos.Nfs4.Valid.{s_isdir}
use truenas_pyos.Xattr.Calls.{done}
use truenas_pyos.FsIter.Entry.{
  action_of, closed_by, entry_outcome, fill_entry, found, is_dot, process_next_entry, yield_dir,
}
use truenas_pyos.FsIter.Objects.{
  Callback, Dirent, Dirp, Event, Fd, FsIter, FsKernel, IterConfig, IterDir, IterEntry, Readdir,
  Statx, Text, closed_fd, entry, max_depth,
}
use truenas_pyos.FsIter.Round.{clear_cookie, cookie_at, handler_raised}
use truenas_pyos.FsIter.Running.{at, running}
use truenas_pyos.FsIter.Stack.{full_path, open_dirp, push_dir_stack}
use truenas_pyos.FsIter.Walk.{stored_name}

-- An iterator in its loop that still looks for the directories of its cookies.
abbrev pub restoring :
    IterConfig
    → ℕ
    → Option Callback
    → List ℕ
    → List IterDir
    → IterEntry
    → ℕ
    → ℕ
    → List Event
    → FsIter
restoring config increment cb cookies dirs last cnt bytes log =
    record (running config increment cb dirs last cnt bytes log) {
      cookies = cookies;
      restoring_from_cookie = true;
    }

-- The way from a directory to the one of the last inode: in each, the entries before the next inode,
-- and the directory that has it. It leaves a stack of directories, the innermost first.
pub data Trail (k : FsKernel) (config : IterConfig)
    : Text → Fd → List Readdir → ℕ → List ℕ → List IterDir → Type 0 where
  trail_end :
      {path : Text} {dir_fd : Fd} {answers : List Readdir} {ino : ℕ}
      → Trail k config path dir_fd answers ino [] (at path dir_fd answers ino ∷ [])
  trail_past :
      {path : Text} {dir_fd : Fd} {rest : List Readdir} {ino c : ℕ} {cookies : List ℕ}
      {dirs : List IterDir} (d : Dirent) (signals : List (Option Exc))
      → is_dot d.d_name || not (d.d_ino == c) ≡ true
      → Trail k config path dir_fd rest ino (c ∷ cookies) dirs
      → Trail k config path dir_fd (entry d signals ∷ rest) ino (c ∷ cookies) dirs
  trail_into :
      {path : Text} {dir_fd : Fd} {rest : List Readdir} {ino c : ℕ} {cookies : List ℕ}
      {dirs : List IterDir} (d : Dirent) (signals : List (Option Exc)) (fd : Fd) (st : Statx)
      (dirp : Dirp)
      → is_dot d.d_name ≡ false
      → (d.d_ino == c) ≡ true
      → handler_raised signals ≡ false
      → entry_outcome k config dir_fd d ≡ found fd st false
      → s_isdir st.stx_mode ≡ true
      → open_dirp k fd ≡ done dirp
      → Trail k config
          (full_path path (stored_name d))
          dirp.dir_fd
          dirp.answers
          st.stx_ino
          cookies
          dirs
      → Trail k config path dir_fd
          (entry d signals ∷ rest)
          ino
          (c ∷ cookies)
          (dirs ++ (at path dir_fd rest ino ∷ []))

get_elem?-append :
    (before : List ℕ) (c : ℕ) (cookies : List ℕ)
    → get_elem? (before ++ (c ∷ cookies)) (length before) ≡ some c
get_elem?-append [] c cookies = refl
get_elem?-append (x ∷ before) c cookies = get_elem?-append before c cookies

pub clear_cookie-append :
    (before : List ℕ) (c : ℕ) (cookies : List ℕ)
    → clear_cookie (before ++ (c ∷ cookies)) (length before) ≡ before ++ (0 ∷ cookies)
unfolding clear_cookie
clear_cookie-append [] c cookies = refl
clear_cookie-append (x ∷ before) c cookies = ap (λ l. x ∷ l) (clear_cookie-append before c cookies)

pub cookie_at-append :
    (before : List ℕ) (c : ℕ) (cookies : List ℕ) (depth : ℕ)
    → length before ≡ depth
    → cookie_at (before ++ (c ∷ cookies)) depth ≡ c
unfolding cookie_at
cookie_at-append before c cookies depth h =
    rw (sym h, cookie_at, get_elem?-append before c cookies) refl

pub cookies_assoc :
    (before : List ℕ) (x : ℕ) (cookies : List ℕ)
    → (before ++ (x ∷ [])) ++ cookies ≡ before ++ (x ∷ cookies)
cookies_assoc [] x cookies = refl
cookies_assoc (y ∷ before) x cookies = ap (λ l. y ∷ l) (cookies_assoc before x cookies)

pub dirs_assoc :
    (dirs : List IterDir) (d : IterDir) (below : List IterDir)
    → (dirs ++ (d ∷ [])) ++ below ≡ dirs ++ (d ∷ below)
dirs_assoc [] d below = refl
dirs_assoc (x ∷ dirs) d below = ap (λ l. x ∷ l) (dirs_assoc dirs d below)

pub process_next_entry-found :
    (k : FsKernel) (it : FsIter) (dir_fd : Fd) (d : Dirent) (fd : Fd) (st : Statx)
    → entry_outcome k it.state.config dir_fd d ≡ found fd st false
    → s_isdir st.stx_mode ≡ true
    → process_next_entry k it dir_fd d
      ≡ (yield_dir fd st, record it { last = fill_entry it.last d (found fd st false) })
unfolding process_next_entry
process_next_entry-found k it dir_fd d fd st e isdir =
    let act : action_of (found fd st false) ≡ yield_dir fd st = rw isdir refl in
    ap
      (λ o. (
        action_of o,
        record it { last = fill_entry it.last d o; log = map closed_fd (closed_by o) ++ it.log },
      ))
      e
    ∙ ap (λ a. (a, record it { last = fill_entry it.last d (found fd st false) })) act

pub push_dir_stack-pushed :
    (k : FsKernel) (it : FsIter) (cur_dir : IterDir) (fd : Fd) (st : Statx) (dirp : Dirp)
    → length it.dir_stack < max_depth
    → open_dirp k fd ≡ done dirp
    → push_dir_stack k it cur_dir fd st ≡ (
      ok tt,
      record it {
        dir_stack =
            at (full_path cur_dir.path it.last.name) dirp.dir_fd dirp.answers st.stx_ino
            ∷ it.dir_stack;
      },
    )
unfolding push_dir_stack
push_dir_stack-pushed k it cur_dir fd st dirp h opened =
    rw (leb_of_lt max_depth (length it.dir_stack) h, opened) refl

-- The iterator while the cookies behind `before` are still to be found.
abbrev pub seeking :
    IterConfig
    → ℕ
    → Option Callback
    → List ℕ
    → List ℕ
    → List IterDir
    → IterEntry
    → ℕ
    → ℕ
    → List Event
    → FsIter
seeking config increment cb before [] = running config increment cb
seeking config increment cb before (c ∷ cookies) =
    restoring config increment cb (before ++ (c ∷ cookies))
