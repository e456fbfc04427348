-- ===== src/Wsh/Pipes/Opened.antt =====
-- The pipes that pipe_dealer of p3/wsh.c opens, on descriptors of their own.
use cs537projects.Base.{
  ℕ, zero, suc, ◌+◌, ◌<◌, ◌≡◌, ◌≢◌, refl, ap, sym, ◌∙◌, Bool, true, false, ◌||◌, Option, none, some,
  List, [], ◌∷◌, ◌==◌, if◌then◌else◌, length, Bool-cases, Option-cases, inl, inr, arith, ==_iff,
}
use cs537projects.Wsh.Pipes.{
  File, read_end, write_end, Files, close, open_pipe, cons_pipe, open_pipes, close_pipes, pipe_at,
}

-- pipe picks two descriptors that are not open.
abbrev pub Picked : ℕ × ℕ → Files → Type 0
Picked (r, w) t = (t r ≡ none) × (t w ≡ none) × (r ≢ w)

-- pipe does so in each of the rounds.
abbrev pub PicksFree : ℕ → ℕ → (ℕ → Option (ℕ × ℕ)) → Files → Type 0
PicksFree zero i pipes t = Unit {0}
PicksFree (suc rounds) i pipes t =
    (p : ℕ × ℕ) → pipes i ≡ some p → Picked p t × PicksFree rounds (i + 1) pipes (open_pipe i p t)

-- Whether a descriptor is one of the ends.
abbrev pub is_end : ℕ → List (ℕ × ℕ) → Bool
is_end k [] = false
is_end k ((r, w) ∷ pipefd) = (k == r) || ((k == w) || is_end k pipefd)

pub close_pipes_lem :
    (pipefd : List (ℕ × ℕ)) (t : Files) (k : ℕ)
    → close_pipes pipefd t k ≡ (if is_end k pipefd then none else t k)
unfolding close_pipes
close_pipes_lem [] t k = refl
close_pipes_lem ((r, w) ∷ pipefd) t k =
    close_pipes_lem pipefd (close w (close r t)) k ∙ elim (Bool-cases (is_end k pipefd)) [
      | inl among ↦ ground (arith, among)
      | inr other ↦ ground (arith, other)
    ]

-- After the pipes are open: which ends are new, and what they are.
abbrev pub Opened : ℕ → List (ℕ × ℕ) → Files → Files → Type 0
Opened i pipefd t t' =
    ((k : ℕ) → is_end k pipefd ≡ false → t' k ≡ t k)
    × ((k : ℕ) → is_end k pipefd ≡ true → t k ≡ none)
    × ((j : ℕ) → j < length pipefd → t' (pipe_at pipefd j).0 ≡ some (read_end (i + j)))
    × ((j : ℕ) → j < length pipefd → t' (pipe_at pipefd j).1 ≡ some (write_end (i + j)))

abbrev pub OpenedBy : ℕ → ℕ → (ℕ → Option (ℕ × ℕ)) → Files → Option (List (ℕ × ℕ) × Files) → Type 0
OpenedBy rounds i pipes t none = (j : ℕ) × (j < i + rounds) × (pipes j ≡ none)
OpenedBy rounds i pipes t (some (pipefd, t')) = (length pipefd ≡ rounds) × Opened i pipefd t t'

open_pipe-read : (i r w : ℕ) (t : Files) → open_pipe i (r, w) t r ≡ some (read_end i)
open_pipe-read i r w t = rw ((==_iff r r).1 refl) refl

==_differ : (a b : ℕ) → a ≢ b → (a == b) ≡ false
==_differ a b ne = elim (Bool-cases (a == b)) [
  | inl same ↦ absurd (ne ((==_iff a b).0 same))
  | inr other ↦ other
]

open_pipe-write : (i r w : ℕ) (t : Files) → r ≢ w → open_pipe i (r, w) t w ≡ some (write_end i)
open_pipe-write i r w t ne = rw (==_differ w r (λ e. ne (sym e))) (rw ((==_iff w w).1 refl) refl)

-- A descriptor that is open is not picked later.
not_later :
    (k : ℕ) (pipefd : List (ℕ × ℕ)) (t : Files) (f : File)
    → ((k : ℕ) → is_end k pipefd ≡ true → t k ≡ none)
    → t k ≡ some f
    → is_end k pipefd ≡ false
not_later k pipefd t f fresh open_there = elim (Bool-cases (is_end k pipefd)) [
  | inl among ↦ absurd (cc (fresh k among, open_there))
  | inr other ↦ other
]

or_cases : (a b : Bool) → (a || b) ≡ false → (a ≡ false) × (b ≡ false)
or_cases true b h = absurd (cc h)
or_cases false b h = (refl, h)

end_at :
    (part : ℕ × ℕ → ℕ) (make : ℕ → File) (i : ℕ) (p : ℕ × ℕ) (pipefd : List (ℕ × ℕ)) (t : Files)
    → t (part p) ≡ some (make i)
    → ((j : ℕ) → j < length pipefd → t (part (pipe_at pipefd j)) ≡ some (make (i + 1 + j)))
    → (j : ℕ) → j < suc (length pipefd)
    → t (part (pipe_at (p ∷ pipefd) j)) ≡ some (make (i + j))
end_at part make i p pipefd t first later zero h =
    let e : i ≡ i + 0 = omega arith in first ∙ ap (λ k. some (make k)) e
end_at part make i p pipefd t first later (suc j) h =
    let e : i + 1 + j ≡ i + suc j = omega arith in
    later j (omega (arith, h)) ∙ ap (λ k. some (make k)) e

Opened-cons :
    (i r w : ℕ) (pipefd : List (ℕ × ℕ)) (t t' : Files)
    → Picked (r, w) t
    → Opened (i + 1) pipefd (open_pipe i (r, w) t) t'
    → Opened i ((r, w) ∷ pipefd) t t'
Opened-cons i r w pipefd t t' (r_free, w_free, ne) (others, fresh, reads, writes) =
    let read_now = open_pipe-read i r w t in
    let write_now = open_pipe-write i r w t ne in
    let later_r = not_later r pipefd (open_pipe i (r, w) t) (read_end i) fresh read_now in
    let later_w = not_later w pipefd (open_pipe i (r, w) t) (write_end i) fresh write_now in
    (
      λ k h.
          let (not_r, rest) = or_cases (k == r) ((k == w) || is_end k pipefd) h in
          let (not_w, later) = or_cases (k == w) (is_end k pipefd) rest in
          others k later ∙ rw (not_r, not_w) refl,
      λ k h. elim (Bool-cases (k == r)) [
        | inl is_r ↦ ap t ((==_iff k r).0 is_r) ∙ r_free
        | inr not_r ↦ elim (Bool-cases (k == w)) [
          | inl is_w ↦ ap t ((==_iff k w).0 is_w) ∙ w_free
          | inr not_w ↦
              let among : is_end k pipefd ≡ true = sym (rw (not_r, not_w) refl) ∙ h in
              let still : open_pipe i (r, w) t k ≡ t k = rw (not_r, not_w) refl in
              sym still ∙ fresh k among
        ]
      ],
      end_at (λ p. p.0) read_end i (r, w) pipefd t' (others r later_r ∙ read_now) reads,
      end_at (λ p. p.1) write_end i (r, w) pipefd t' (others w later_w ∙ write_now) writes,
    )

cons_pipe-OpenedBy :
    (rounds i : ℕ) (pipes : ℕ → Option (ℕ × ℕ)) (t : Files) (p : ℕ × ℕ)
    (o : Option (List (ℕ × ℕ) × Files))
    → Picked p t
    → OpenedBy rounds (i + 1) pipes (open_pipe i p t) o
    → OpenedBy (suc rounds) i pipes t (cons_pipe p o)
cons_pipe-OpenedBy rounds i pipes t p none picked (j, bound, fails) =
    (j, omega (arith, bound), fails)
cons_pipe-OpenedBy rounds i pipes t (r, w) (some (pipefd, t')) picked (len, opened) =
    (ap suc len, Opened-cons i r w pipefd t t' picked opened)

pub open_pipes-OpenedBy :
    (rounds i : ℕ) (pipes : ℕ → Option (ℕ × ℕ)) (t : Files)
    → PicksFree rounds i pipes t
    → OpenedBy rounds i pipes t (open_pipes rounds i pipes t)
unfolding open_pipes
open_pipes-OpenedBy zero i pipes t free = (
  refl,
  (
    λ k h. refl,
    λ k h. absurd (cc h),
    λ j h. absurd (omega (arith, h)),
    λ j h. absurd (omega (arith, h)),
  ),
)
open_pipes-OpenedBy (suc rounds) i pipes t free = elim (Option-cases (pipes i)) [
  | inl fails ↦ rw (fails, open_pipes) (i, omega arith, fails)
  | inr (p, at) ↦
      let (picked, more) = free p at in
      rw (at, open_pipes)
        (cons_pipe-OpenedBy rounds i pipes t p (open_pipes rounds (i + 1) pipes (open_pipe i p t))
          picked (open_pipes-OpenedBy rounds (i + 1) pipes (open_pipe i p t) more))
]
