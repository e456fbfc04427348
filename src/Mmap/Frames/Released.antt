-- ===== src/Mmap/Frames/Released.antt =====
-- umunmap and clear_maps of p5/xv6-public/sys_mmap.c keep each page frame in one place.
use cs537projects.Base.{
  ℕ, zero, suc, Bool, true, false, Option, none, some, ◌==◌, if◌then◌else◌, ltb, leb,
}
use cs537projects.Base.Int.{ℤ, pos_part}
use cs537projects.Mmap.{Vma, vma_at, last_vma, max_vmas, pg_round_up}
use cs537projects.Mmap.Pages.{Space}
use cs537projects.Mmap.Frames.{Tables}
use cs537projects.Mmap.Frames.Owned.{SpaceOk, free_pages-SpaceOk}
use cs537projects.Mmap.Unmap.{
  umunmap, unmap_at, remove, write_back, writes_back, find_vma, clear_from, clear_maps, rounds_of,
}

if_SpaceOk :
    (b : Bool) (i : ℕ) (all : Tables) (x y : Space)
    → SpaceOk i all x
    → SpaceOk i all y
    → SpaceOk i all (if b then x else y)
if_SpaceOk true i all x y h k = h
if_SpaceOk false i all x y h k = k

if_SpaceOk_snd :
    (b : Bool) (i : ℕ) (all : Tables) (x y : Bool × Space)
    → SpaceOk i all x.1
    → SpaceOk i all y.1
    → SpaceOk i all (if b then x else y).1
if_SpaceOk_snd true i all x y h k = h
if_SpaceOk_snd false i all x y h k = k

module _ (outside : ℤ → Vma) (write_ok : Bool) (i : ℕ) (all : Tables) where
  remove-SpaceOk :
      (k addr size : ℕ) (s : Space) → SpaceOk i all s → SpaceOk i all (remove outside k addr size s)
  unfolding remove
  remove-SpaceOk k addr size s ok =
      let a = vma_at k s.vmas in
      let freed =
        free_pages-SpaceOk i all (rounds_of (if ltb a.len size then a.len else size)) addr s ok in
      if_SpaceOk (leb a.len size) i all _ _ freed freed

  unmap_at-SpaceOk :
      (k addr size : ℕ) (s : Space)
      → SpaceOk i all s
      → SpaceOk i all (unmap_at outside write_ok k addr size s).1
  unfolding unmap_at
  unmap_at-SpaceOk k addr size s ok =
      let a = vma_at k s.vmas in
      if_SpaceOk_snd (a.len == 0) i all _ _ ok (
        if_SpaceOk_snd (writes_back a) i all _ _
          (if_SpaceOk_snd write_ok i all _ _ (remove-SpaceOk k addr size (write_back a s) ok) ok)
          (remove-SpaceOk k addr size s ok))

  unmap_found : Option ℕ → ℕ → ℕ → Space → Bool × Space
  unfolding unmap_at
  unmap_found o addr size s = elim o [
    | none ↦ (false, s)
    | some k ↦ unmap_at outside write_ok k addr size s
  ]

  unmap_found-SpaceOk :
      (o : Option ℕ) (addr size : ℕ) (s : Space)
      → SpaceOk i all s
      → SpaceOk i all (unmap_found o addr size s).1
  unfolding unmap_found
  unmap_found-SpaceOk none addr size s ok = ok
  unmap_found-SpaceOk (some k) addr size s ok = unmap_at-SpaceOk k addr size s ok

  pub umunmap-SpaceOk :
      (addr size : ℕ) (s : Space)
      → SpaceOk i all s
      → SpaceOk i all (umunmap outside write_ok addr size s).1
  unfolding umunmap unmap_found
  umunmap-SpaceOk addr size s ok =
      unmap_found-SpaceOk (find_vma max_vmas 0 s.vmas (pg_round_up addr)) addr (pg_round_up size) s
        ok

  clear_from-SpaceOk :
      (rounds : ℕ) (s : Space)
      → SpaceOk i all s
      → SpaceOk i all (clear_from outside write_ok rounds s)
  unfolding clear_from
  clear_from-SpaceOk zero s ok = ok
  clear_from-SpaceOk (suc rounds) s ok =
      let last = last_vma outside (record { vmas = s.vmas; total = s.total }) in
      clear_from-SpaceOk rounds
        (if last.ref_count == 0 then (umunmap outside write_ok last.addr last.len s).1 else s)
        (if_SpaceOk (last.ref_count == 0) i all _ _ (umunmap-SpaceOk last.addr last.len s ok) ok)

  pub clear_maps-SpaceOk :
      (s : Space) → SpaceOk i all s → SpaceOk i all (clear_maps outside write_ok s)
  unfolding clear_maps
  clear_maps-SpaceOk s ok = clear_from-SpaceOk (pos_part s.total) s ok
