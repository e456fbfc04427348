-- ===== src/Sched/Life/Fork.antt =====
-- What `allocproc` and `fork` promise.
use mathlib.Core.Option
use cs537projects.Base.{
  ℕ, zero, suc, ◌+◌, ◌≡◌, refl, ◌≢◌, ap, sym, ◌∙◌, Option, none, some, List, [], ◌∷◌, get_elem?,
  ◌==◌, if◌then◌else◌, arith,
}
use cs537projects.Base.Int.{pos}
use cs537projects.Sched.Table.{
  Proc, runnable, Kernel, modify, find_unused, alloc_at, allocproc, kalloc, kfree, embryo_slot,
  fresh_slot,
}
use cs537projects.Sched.Table.Slots.{
  FirstUnused, AllInUse, get_elem?-modify_self, get_elem?-modify_ne,
}
use cs537projects.Sched.Life.{dup_files, fork, fork_into, child_of, abandon}

-- The table after `fork`, apart from the slot `i`.
abbrev pub SameBut : ℕ → List Proc → List Proc → Type 0
SameBut i t u = (j : ℕ) → i ≢ j → get_elem? u j ≡ get_elem? t j

find_unused-eq_some : (i : ℕ) (t : List Proc) → FirstUnused i t → find_unused t ≡ some i
unfolding find_unused
find_unused-eq_some i [] h = absurd h
find_unused-eq_some zero (p ∷ ps) h = rw h
find_unused-eq_some (suc i) (p ∷ ps) h = rw (h.0, find_unused-eq_some i ps h.1)

find_unused-eq_none : (t : List Proc) → AllInUse t → find_unused t ≡ none
unfolding find_unused
find_unused-eq_none [] h = refl
find_unused-eq_none (p ∷ ps) h = rw (h.0, find_unused-eq_none ps h.1)

-- The kernel after `allocproc` in the slot `i`, with a page for the stack.
abbrev allocated : ℕ → ℕ → List ℕ → Kernel → Kernel
allocated i page pages k = record k {
  table = modify i (fresh_slot page) (modify i (embryo_slot k.next_pid) k.table);
  next_pid = k.next_pid + 1;
  freelist = pages;
}

allocproc-allocated :
    (i page : ℕ) (pages : List ℕ) (k : Kernel)
    → FirstUnused i k.table
    → k.freelist ≡ page ∷ pages
    → allocproc k ≡ (some i, allocated i page pages k)
unfolding allocproc kalloc
allocproc-allocated i page pages k first memory =
    rw (find_unused-eq_some i k.table first, allocproc)
      (ap (λ (pages' : List ℕ). alloc_at i (record k { freelist = pages' })) memory)

slot_of_allocated :
    (i page : ℕ) (pages : List ℕ) (q : Proc) (k : Kernel)
    → get_elem? k.table i ≡ some q
    → get_elem? (allocated i page pages k).table i
      ≡ some (fresh_slot page (embryo_slot k.next_pid q))
slot_of_allocated i page pages q k e =
    get_elem?-modify_self i (fresh_slot page) (modify i (embryo_slot k.next_pid) k.table)
    ∙ ap (Option.map (fresh_slot page)) (
        get_elem?-modify_self i (embryo_slot k.next_pid) k.table
        ∙ ap (Option.map (embryo_slot k.next_pid)) e)

allocated-SameBut :
    (i page : ℕ) (pages : List ℕ) (k : Kernel) → SameBut i k.table (allocated i page pages k).table
allocated-SameBut i page pages k j h =
    get_elem?-modify_ne i j (fresh_slot page) (modify i (embryo_slot k.next_pid) k.table) h
    ∙ get_elem?-modify_ne i j (embryo_slot k.next_pid) k.table h

-- How often the file `f` stands in a table of open files.
abbrev pub times_open : ℕ → List (Option ℕ) → ℕ
times_open f [] = 0
times_open f (none ∷ fs) = times_open f fs
times_open f (some g ∷ fs) = (if f == g then 1 else 0) + times_open f fs

dup_files-counts :
    (fs : List (Option ℕ)) (refs : ℕ → ℕ) (f : ℕ) → dup_files fs refs f ≡ refs f + times_open f fs
unfolding dup_files
dup_files-counts [] refs f = omega arith
dup_files-counts (none ∷ fs) refs f = dup_files-counts fs refs f
dup_files-counts (some g ∷ fs) refs f =
    let more : ℕ → ℕ = λ h. if h == g then refs h + 1 else refs h in
    dup_files-counts fs more f ∙ one_open f g (refs f) (times_open f fs)
  where
    one_open :
        (a b r n : ℕ) → (if a == b then r + 1 else r) + n ≡ r + ((if a == b then 1 else 0) + n)
    one_open a b r n = ground arith

one_more : (a : ℕ) (refs : ℕ → ℕ) → (if a == a then refs a + 1 else refs a) ≡ refs a + 1
one_more a refs = ground arith

fork_lem :
    (cur : ℕ) (p : Proc) (copied : Option ℕ) (i : ℕ) (k k' : Kernel)
    → allocproc k ≡ (some i, k')
    → fork cur p copied k ≡ fork_into cur p copied i k'
unfolding fork
fork_lem cur p copied i k k' e = ap (λ (a : Option ℕ × Kernel). fork_on a) e
  where
    fork_on : Option ℕ × Kernel → Option ℕ × Kernel
    fork_on a = elim a.0 [ none ↦ (none, a.1) | some np ↦ fork_into cur p copied np a.1 ]

-- A new process `c`: RUNNABLE, with the parent in the slot `cur`, the memory `pgdir`, the stack `page`
-- and the pid `pid`; what it has from its parent `p`; and its own clocks and priority at 0.
pub record ChildOf (cur : ℕ) (p : Proc) (pgdir page pid : ℕ) (c : Proc) : Type 0 where
  pub ready : c.state ≡ runnable
  pub named : c.pid ≡ pid
  pub of_parent : c.parent ≡ some cur
  pub memory : (c.pgdir ≡ pgdir) × (c.sz ≡ p.sz)
  pub stack : c.kstack ≡ page
  pub inherited : (c.ofile ≡ p.ofile) × (c.cwd ≡ p.cwd) × (c.name ≡ p.name)
  pub own : (c.priority ≡ pos 0) × (c.nice ≡ pos 0) × (c.sleeptime ≡ pos 0) × (c.ticks ≡ 0)

-- When `i` is the first UNUSED slot, the free list starts with `page`, and `copyuvm` has made `pgdir`:
-- `fork` returns `nextpid` as it was, and adds 1 to it; the slot `i` then holds a RUNNABLE process with
-- that pid, the caller's slot as parent, the copied memory, the page as kernel stack, the caller's
-- size, files, directory and name, and priority, nice, sleeptime and ticks 0; no other slot changes,
-- the page leaves the free list, the directory has one reference more, and each file as many more as
-- it stands in the caller's table of open files.
pub fork-child :
    (cur : ℕ) (p q : Proc) (pgdir page i : ℕ) (pages : List ℕ) (k : Kernel)
    → FirstUnused i k.table
    → get_elem? k.table i ≡ some q
    → k.freelist ≡ page ∷ pages
    → ((fork cur p (some pgdir) k).0 ≡ some k.next_pid)
      × ((c : Proc) × (get_elem? (fork cur p (some pgdir) k).1.table i ≡ some c)
          × ChildOf cur p pgdir page k.next_pid c)
      × SameBut i k.table (fork cur p (some pgdir) k).1.table
      × ((fork cur p (some pgdir) k).1.next_pid ≡ k.next_pid + 1)
      × ((fork cur p (some pgdir) k).1.freelist ≡ pages)
      × ((fork cur p (some pgdir) k).1.inode_ref p.cwd ≡ k.inode_ref p.cwd + 1)
      × ((f : ℕ) → (fork cur p (some pgdir) k).1.file_ref f ≡ k.file_ref f + times_open f p.ofile)
unfolding fork_into
fork-child cur p q pgdir page i pages k first e memory =
    let k' : Kernel = allocated i page pages k in
    let slot : get_elem? k'.table i ≡ some (fresh_slot page (embryo_slot k.next_pid q)) =
      slot_of_allocated i page pages q k e in
    rw (fork_lem cur p (some pgdir) i k k' (allocproc-allocated i page pages k first memory)) (
      ap (λ (o : Option Proc). some (elim o [ none ↦ 0 | some r ↦ r.pid ])) slot,
      (
        child_of cur p pgdir (fresh_slot page (embryo_slot k.next_pid q)),
        get_elem?-modify_self i (child_of cur p pgdir) k'.table
            ∙ ap (Option.map (child_of cur p pgdir)) slot,
        record {
          ready = refl;
          named = refl;
          of_parent = refl;
          memory = (refl, refl);
          stack = refl;
          inherited = (refl, refl, refl);
          own = (refl, refl, refl, refl);
        },
      ),
      λ j h.
          get_elem?-modify_ne i j (child_of cur p pgdir) k'.table h
          ∙ allocated-SameBut i page pages k j h,
      refl,
      refl,
      one_more p.cwd k.inode_ref,
      λ f. dup_files-counts p.ofile k.file_ref f,
    )

-- If `copyuvm` fails, `fork` returns -1, gives the page of the kernel stack back to the front of the
-- free list, leaves the slot UNUSED, and changes no other slot, no reference count, and no state of
-- the allocator but the pid counter.
fork-no_memory :
    (cur : ℕ) (p q : Proc) (page i : ℕ) (pages : List ℕ) (k : Kernel)
    → FirstUnused i k.table
    → get_elem? k.table i ≡ some q
    → k.freelist ≡ page ∷ pages
    → let (result, k') = fork cur p none k in
      (result ≡ none)
      × (get_elem? k'.table i ≡ some (abandon (fresh_slot page (embryo_slot k.next_pid q))))
      × SameBut i k.table k'.table
      × (k'.freelist ≡ k.freelist)
      × (k'.file_ref ≡ k.file_ref)
      × (k'.inode_ref ≡ k.inode_ref)
unfolding fork_into kfree
fork-no_memory cur p q page i pages k first e memory =
    let k' : Kernel = allocated i page pages k in
    let slot : get_elem? k'.table i ≡ some (fresh_slot page (embryo_slot k.next_pid q)) =
      slot_of_allocated i page pages q k e in
    rw (fork_lem cur p none i k k' (allocproc-allocated i page pages k first memory)) (
      refl,
      get_elem?-modify_self i abandon k'.table ∙ ap (Option.map abandon) slot,
      λ j h. get_elem?-modify_ne i j abandon k'.table h ∙ allocated-SameBut i page pages k j h,
      ap (λ (o : Option Proc). elim o [ none ↦ 0 | some r ↦ r.kstack ] ∷ pages) slot ∙ sym memory,
      refl,
      refl,
    )
