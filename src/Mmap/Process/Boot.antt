-- ===== src/Mmap/Process/Boot.antt =====
-- The kernel of p5/xv6-public before any call: each page frame is in one place.
use cs537projects.Base.{
  ℕ, zero, suc, ◌/◌, ◌%◌, ◌-◌, ◌≡◌, ◌≢◌, refl, sym, ap, ◌∙◌, subst, true, false, Option, none, some,
  ◌==◌, ==_iff, Bool-cases, inl, inr, ◌⊎◌, arith,
}
use cs537projects.Sched.Table.{is_unused}
use cs537projects.Mmap.Pages.{Pte}
use cs537projects.Mmap.Frames.{NotIn, NoDup}
use cs537projects.Mmap.Process.{Task, System}
use cs537projects.Mmap.Process.Owners.{owners, stack_table, stack_index, entry_of, ==_false}
use cs537projects.Mmap.Process.Kept.{SystemOk}

-- The first process alone has a stack, and no page of a mapping is there.
pub record Booted (m : System) : Type 0 where
  pub no_pages : (i q : ℕ) → (m.tasks i).space.ptes q ≡ none
  pub free_once : NoDup m.free
  pub no_null : NotIn 0 m.free
  pub first_stack : (m.tasks 0).kstack ≢ 0
  pub stack_not_free : NotIn (m.tasks 0).kstack m.free
  pub others : (i : ℕ) → ((m.tasks (suc i)).kstack ≡ 0) × (is_unused (m.tasks (suc i)).state ≡ true)

-- Who has a page after boot: the null page, or the first stack.
abbrev BootOwner : System → ℕ → ℕ → Pte → Type 0
BootOwner m k q e =
    ((k ≡ 0) × (q ≡ 0) × (e.frame ≡ 0)) ⊎ ((k ≡ 2) × (q ≡ 0) × (e.frame ≡ (m.tasks 0).kstack))

frame_of : (a b : Pte) → some a ≡ some b → a.frame ≡ b.frame
frame_of a b e = ap (λ (o : Option Pte). elim o [ none ↦ a.frame | some c ↦ c.frame ]) e

null_frame :
    (tasks : ℕ → Task) (k q : ℕ) (e : Pte)
    → (k == 0) ≡ true
    → (q == 0) ≡ true
    → owners tasks k q ≡ some e
    → e.frame ≡ 0
null_frame tasks k q e null first h =
    let here : some (entry_of 0) ≡ some e = sym (rw (null, first) refl) ∙ h in
    sym (frame_of (entry_of 0) e here)

stack_owner :
    (m : System) (j k q : ℕ) (e : Pte)
    → Booted m
    → k ≡ stack_index j
    → stack_table (m.tasks j).kstack q ≡ some e
    → BootOwner m k q e
stack_owner m zero k q e b at h = elim (Bool-cases ((m.tasks 0).kstack == 0)) [
  | inl null ↦ absurd (b.first_stack ((==_iff (m.tasks 0).kstack 0).0 null))
  | inr some_page ↦ elim (Bool-cases (q == 0)) [
    | inl first ↦
        let here : some (entry_of (m.tasks 0).kstack) ≡ some e =
          sym (rw (some_page, first) refl) ∙ h in
        inr (
          omega (arith, at),
          (==_iff q 0).0 first,
          sym (frame_of (entry_of (m.tasks 0).kstack) e here),
        )
    | inr later ↦
        let gone : none ≡ some e = sym (rw (some_page, later) refl) ∙ h in absurd (cc gone)
  ]
]
stack_owner m (suc j) k q e b at h =
    let gone : none ≡ some e = ap (λ s. stack_table s q) (sym (b.others j).0) ∙ h in
    absurd (cc gone)

boot_owner :
    (m : System) (k q : ℕ) (e : Pte) → Booted m → owners m.tasks k q ≡ some e → BootOwner m k q e
boot_owner m k q e b h = elim (Bool-cases (k == 0)) [
  | inl null ↦ elim (Bool-cases (q == 0)) [
    | inl first ↦
        inl ((==_iff k 0).0 null, (==_iff q 0).0 first, null_frame m.tasks k q e null first h)
    | inr later ↦ let gone : none ≡ some e = sym (rw (null, later) refl) ∙ h in absurd (cc gone)
  ]
  | inr other ↦ elim (Bool-cases (k % 2 == 1)) [
    | inl odd ↦
        let held : (m.tasks ((k - 1) / 2)).space.ptes q ≡ some e = sym (rw (other, odd) refl) ∙ h in
        absurd (cc (b.no_pages ((k - 1) / 2) q, held))
    | inr even ↦
        let held : stack_table (m.tasks ((k - 1) / 2)).kstack q ≡ some e =
          sym (rw (other, even) refl) ∙ h in
        let index : k ≡ stack_index ((k - 1) / 2) =
          omega (arith, ==_false (k % 2) 1 even, ==_false k 0 other) in
        stack_owner m ((k - 1) / 2) k q e b index held
  ]
]

boot_stacked :
    (m : System) (i : ℕ) → Booted m → is_unused (m.tasks i).state ≡ false → (m.tasks i).kstack ≢ 0
boot_stacked m zero b used = b.first_stack
boot_stacked m (suc i) b used = absurd (cc ((b.others i).1, used))

pub Booted-SystemOk : (m : System) → Booted m → SystemOk m
Booted-SystemOk m b = record {
  frames = record {
    free_once = b.free_once;
    mapped_not_free = λ k q e h. elim (boot_owner m k q e b h) [
      | inl (at, first, is_null) ↦ subst (λ f. NotIn f m.free) (sym is_null) b.no_null
      | inr (at, first, is_stack) ↦ subst (λ f. NotIn f m.free) (sym is_stack) b.stack_not_free
    ];
    mapped_once = λ k q l r e f h g same. elim (boot_owner m k q e b h) [
      | inl (at, first, is_null) ↦ elim (boot_owner m l r f b g) [
        | inl (at', first', is_null') ↦ (at ∙ sym at', first ∙ sym first')
        | inr (at', first', is_stack') ↦ absurd (b.first_stack (sym is_stack' ∙ sym same ∙ is_null))
      ]
      | inr (at, first, is_stack) ↦ elim (boot_owner m l r f b g) [
        | inl (at', first', is_null') ↦ absurd (b.first_stack (sym is_stack ∙ same ∙ is_null'))
        | inr (at', first', is_stack') ↦ (at ∙ sym at', first ∙ sym first')
      ]
    ];
  };
  stacked = λ i used. boot_stacked m i b used;
}
