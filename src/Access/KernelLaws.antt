-- ===== src/Access/KernelLaws.antt =====
-- What src/cext/os/acl_check.c relies on from the system calls of its child.
use truenas_pyos.Prelude.{ℕ, ◌<◌, ◌≤◌, ◌≡◌, Option, List, length, All}
use truenas_pyos.Access.Child.{Kernel, done}
use truenas_pyos.Access.Creds.{uint32_max}

-- NGROUPS_MAX of the kernel.
abbrev pub ngroups_max : ℕ
ngroups_max = 65536

-- What setresuid(2), setresgid(2), setgroups(2) and faccessat2(2) say of a task in the initial user
-- namespace that may become root again: IsRootable is that of its saved user id, IsRoot that its
-- effective one is 0. An id of -1, which is 2 ^ 32 - 1, is left unchanged by the first two and
-- refused by setgroups, which takes NGROUPS_MAX groups at most. `access` answers for an identity.
pub record KernelLaws {Task : Type 0} (kernel : Kernel Task) : Type 1 where
  pub IsRootable : Task → Type 0
  pub IsRoot : Task → Type 0
  pub euid : Task → ℕ
  pub egid : Task → ℕ
  pub groups : Task → List ℕ
  pub access : ℕ → ℕ → List ℕ → List ℕ → ℕ → Option ℕ
  pub root_euid : (t : Task) → IsRoot t → euid t ≡ 0
  pub become_root :
      (t : Task) → IsRootable t → (t' : Task) × (kernel.setresuid 0 0 0 t ≡ done t') × IsRoot t'
  pub set_gid :
      (t : Task) (g : ℕ)
      → IsRoot t
      → g < uint32_max
      → (t' : Task) × (kernel.setresgid g g 0 t ≡ done t') × IsRoot t' × (egid t' ≡ g)
  pub set_groups :
      (t : Task) (gs : List ℕ)
      → IsRoot t
      → length gs ≤ ngroups_max
      → All (λ g. g < uint32_max) gs
      → (t' : Task) × (kernel.setgroups gs t ≡ done t')
        × IsRoot t'
        × (egid t' ≡ egid t)
        × (groups t' ≡ gs)
  pub set_uid :
      (t : Task) (u : ℕ)
      → IsRoot t
      → u < uint32_max
      → (t' : Task) × (kernel.setresuid u u 0 t ≡ done t')
        × IsRootable t'
        × (euid t' ≡ u)
        × (egid t' ≡ egid t)
        × (groups t' ≡ groups t)
  pub keep_uid :
      (t : Task)
      → IsRoot t
      → (t' : Task) × (kernel.setresuid uint32_max uint32_max 0 t ≡ done t')
        × IsRootable t'
        × (euid t' ≡ euid t)
        × (egid t' ≡ egid t)
        × (groups t' ≡ groups t)
  pub probe :
      (t : Task) (path : List ℕ) (mode : ℕ)
      → kernel.faccessat2 path mode t ≡ access (euid t) (egid t) (groups t) path mode
