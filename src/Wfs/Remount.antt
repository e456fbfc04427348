-- ===== src/Wfs/Remount.antt =====
-- A second mount of the disk of p7/mount.wfs.c: the superblock's `head` is the one that mkfs wrote.
use cs537projects.Base.{
  ℕ, zero, suc, ◌+◌, ◌-◌, ◌≡◌, refl, sym, ap, ◌∙◌, ◌≢◌, subst, false, none, List, [], ◌∷◌, ◌++◌,
  arith, ◌==◌, inl, inr,
}
use cs537projects.Wfs.Log.{LogEntry, number_to_inode, unless_deleted, last_from, delete_at}
use cs537projects.Wfs.Path.{path_to_inode}
use cs537projects.Wfs.Ops.{Wfs, make_node, make_in, wfs_write, write_in, mkfs, below_head, remount}
use cs537projects.Wfs.Live.{live}
use cs537projects.Wfs.Invariant.{
  Reach, fresh, make, write, Lookup-cases, done_injective, make_at, write_at,
}

-- The log starts with an entry of the root without bytes, and the saved head is behind it.
abbrev RootFirst : List LogEntry → Type 0
RootFirst [] = ⊥
RootFirst (e ∷ es) = (e.inode_number ≡ 0) × (e.size ≡ 0)

record Saved (fs : Wfs) : Type 0 where
  saved : fs.saved_head ≡ 52
  first : RootFirst fs.log

RootFirst-append : (xs ys : List LogEntry) → RootFirst xs → RootFirst (xs ++ ys)
RootFirst-append [] ys h = absurd h
RootFirst-append (x ∷ xs) ys h = h

RootFirst-delete_at : (i : ℕ) (xs : List LogEntry) → RootFirst xs → RootFirst (delete_at i xs)
RootFirst-delete_at i [] h = absurd h
RootFirst-delete_at zero (x ∷ xs) h = h
RootFirst-delete_at (suc i) (x ∷ xs) h = h

Reach-Saved : (dirname basename : List ℕ → List ℕ) (fs : Wfs) → Reach dirname basename fs → Saved fs
unfolding make_node make_in wfs_write write_in mkfs
Reach-Saved dirname basename fs (fresh c) = record { saved = refl; first = (refl, refl) }
Reach-Saved dirname basename fs (make {fs = before} mode c junk path reach room e) =
    let ok = Reach-Saved dirname basename before reach in
    elim (Lookup-cases (path_to_inode (dirname path) before.log)) [
      | inl (p, at) ↦
          subst Saved
            (done_injective (sym (ap (λ l. make_at mode c junk (basename path) before l) at) ∙ e))
            (record {
              saved = ok.saved;
              first = RootFirst-append (delete_at p before.log ++ _ ∷ []) _ (
                  RootFirst-append (delete_at p before.log) _
                    (RootFirst-delete_at p before.log ok.first));
            })
      | inr (inl at) ↦ absurd (cc (ap (λ l. make_at mode c junk (basename path) before l) at, e))
      | inr (inr at) ↦ absurd (cc (ap (λ l. make_at mode c junk (basename path) before l) at, e))
    ]
Reach-Saved dirname basename fs (write {fs = before} c path buffer size offset n reach small e) =
    let ok = Reach-Saved dirname basename before reach in
    elim (Lookup-cases (path_to_inode path before.log)) [
      | inl (p, at) ↦
          subst Saved
            (ap (λ (r : ℕ × Wfs). r.1)
              (done_injective (sym (ap (λ l. write_at c buffer size offset before l) at) ∙ e)))
            (record {
              saved = ok.saved;
              first =
                  RootFirst-append (delete_at p before.log) _
                    (RootFirst-delete_at p before.log ok.first);
            })
      | inr (inl at) ↦ absurd (cc (ap (λ l. write_at c buffer size offset before l) at, e))
      | inr (inr at) ↦ absurd (cc (ap (λ l. write_at c buffer size offset before l) at, e))
    ]

below_head-zero : (xs : List LogEntry) → below_head 0 xs ≡ []
unfolding below_head
below_head-zero [] = refl
below_head-zero (x ∷ xs) = refl

live-only : (n : ℕ) (e : LogEntry) → e.inode_number ≡ 0 → n ≢ 0 → live n (e ∷ []) ≡ none
unfolding live number_to_inode last_from unless_deleted
live-only n e root ne =
    let other : (e.inode_number == n) ≡ false = ground (arith, root, ne) in rw (other, live) refl

below_first :
    (n room : ℕ) (log : List LogEntry)
    → room ≡ 44
    → RootFirst log
    → n ≢ 0
    → live n (below_head room log) ≡ none
unfolding below_head
below_first n room [] e h ne = absurd h
below_first n room (x ∷ xs) e h ne =
    ap (λ r. live n (below_head r (x ∷ xs))) e
    ∙ ap (λ l. live n (x ∷ l)) (ap (λ s. below_head (44 - (44 + s)) xs) h.1 ∙ below_head-zero xs)
    ∙ live-only n x h.0 ne

-- After any calls on a fresh disk, a second mount finds no inode but the root's: every file and
-- directory made since mkfs is gone.
pub remount-loses :
    (dirname basename : List ℕ → List ℕ) (fs : Wfs) (n : ℕ)
    → Reach dirname basename fs
    → n ≢ 0
    → live n (remount fs).log ≡ none
unfolding remount
remount-loses dirname basename fs n reach ne =
    let ok = Reach-Saved dirname basename fs reach in
    below_first n (fs.saved_head - 8) fs.log (omega (arith, ok.saved)) ok.first ne
