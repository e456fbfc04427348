-- ===== src/Mmap/Calls.antt =====
-- The system calls of p5/xv6-public for mappings: sys_mmap of sysfile.c and sys_munmap of sysproc.c.
-- `none` among the arguments is an argint that fails, `none` for the descriptor an argfd that fails.
use cs537projects.Base.{ℕ, ◌+◌, Bool, false, Option, none, some, ◌==◌, if◌then◌else◌}
use cs537projects.Base.Int.{ℤ}
use cs537projects.Mmap.{Vma, Maps, ummap, has_flag, map_anonymous}
use cs537projects.Mmap.Pages.{Space}
use cs537projects.Mmap.Unmap.{umunmap}

pub record MmapArgs : Type 0 where
  pub addr : ℕ
  pub length : ℕ
  pub prot : ℕ
  pub flags : ℕ
  pub offset : ℕ

-- filedup
abbrev pub filedup : ℕ → (ℕ → ℕ) → ℕ → ℕ
filedup f refs g = if g == f then refs g + 1 else refs g

unfoldable pub sys_mmap :
    (ℤ → Vma) → Option MmapArgs → Option ℕ → Maps → (ℕ → ℕ) → Option ℕ × Maps × (ℕ → ℕ)
unfolding ummap
sys_mmap outside none fd m refs = (none, m, refs)
sys_mmap outside (some a) none m refs =
    if has_flag a.flags map_anonymous
    then (let (r, m') = ummap outside m a.addr a.length a.prot a.flags a.offset none in
        (r, m', refs))
    else (none, m, refs)
sys_mmap outside (some a) (some f) m refs =
    let (r, m') = ummap outside m a.addr a.length a.prot a.flags a.offset (some f) in
    (r, m', filedup f refs)

unfoldable pub sys_munmap : (ℤ → Vma) → Bool → Option (ℕ × ℕ) → Space → Bool × Space
unfolding umunmap
sys_munmap outside write_ok none s = (false, s)
sys_munmap outside write_ok (some (addr, length)) s = umunmap outside write_ok addr length s
