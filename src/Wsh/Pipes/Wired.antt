-- ===== src/Wsh/Pipes/Wired.antt =====
-- The processes that pipe_dealer of p3/wsh.c makes: each is wired to its neighbours' pipes and holds
-- no other end of a pipe.
use cs537projects.Base.{
  ℕ, zero, suc, ◌+◌, ◌-◌, ◌<◌, ◌≡◌, refl, ap, sym, ◌∙◌, subst, true, false, none, some, List, [],
  ◌∷◌, ◌==◌, ltb, if◌then◌else◌, length, Bool-cases, ltb→lt, inl, inr, arith, ==_iff,
}
use cs537projects.Wsh.Pipes.{File, read_end, write_end, Files, dup2, pipe_at, child_files}
use cs537projects.Wsh.Pipes.Opened.{is_end, Opened, close_pipes_lem}

-- The descriptors that the child `i` of `n` is meant to have: it reads from the pipe before it and
-- writes to the one behind it, and has else what the shell had.
abbrev pub wired : Files → ℕ → ℕ → Files
wired t n i k =
    if k == 0
    then (if ltb 0 i then some (read_end (i - 1)) else t 0)
    else (if k == 1 then (if ltb i (n - 1) then some (write_end i) else t 1) else t k)

is_end-write :
    (pipefd : List (ℕ × ℕ)) (j : ℕ) → j < length pipefd → is_end (pipe_at pipefd j).1 pipefd ≡ true
is_end-write [] j h = absurd (omega (arith, h))
is_end-write ((r, w) ∷ pipefd) zero h = elim (Bool-cases (w == r)) [
  | inl same ↦ rw same refl
  | inr other ↦ rw (other, (==_iff w w).1 refl) refl
]
is_end-write ((r, w) ∷ pipefd) (suc j) h =
    let later = is_end-write pipefd j (omega (arith, h)) in
    elim (Bool-cases ((pipe_at pipefd j).1 == r)) [
      | inl same ↦ rw same refl
      | inr other ↦ elim (Bool-cases ((pipe_at pipefd j).1 == w)) [
        | inl same ↦ rw (other, same) refl
        | inr neither ↦ rw (other, neither) later
      ]
    ]

-- The descriptors after the first dup2, and after both.
abbrev with_input : ℕ → List (ℕ × ℕ) → Files → Files
with_input i pipefd t = if ltb 0 i then dup2 (pipe_at pipefd (i - 1)).0 0 t else t

abbrev redirected : ℕ → ℕ → List (ℕ × ℕ) → Files → Files
redirected n i pipefd t =
    if ltb i (n - 1)
    then dup2 (pipe_at pipefd i).1 1 (with_input i pipefd t)
    else with_input i pipefd t

module _ (n : ℕ) (pipefd : List (ℕ × ℕ)) (t t' : Files) (a b : File) (input : t 0 ≡ some a)
    (output : t 1 ≡ some b) (opened : Opened 0 pipefd t t') (count : length pipefd ≡ n - 1) where
  -- A descriptor that the shell had is no end of the pipes.
  not_end : (k : ℕ) (f : File) → t k ≡ some f → is_end k pipefd ≡ false
  not_end k f had = elim (Bool-cases (is_end k pipefd)) [
    | inl among ↦ absurd (cc (opened.1 k among, had))
    | inr other ↦ other
  ]

  -- The write end of a pipe is not at standard input.
  write_not_input : (j : ℕ) → j < n - 1 → ((pipe_at pipefd j).1 == 0) ≡ false
  write_not_input j h = elim (Bool-cases ((pipe_at pipefd j).1 == 0)) [
    | inl same ↦
        let among : is_end 0 pipefd ≡ true =
          ap (λ k. is_end k pipefd) (sym ((==_iff (pipe_at pipefd j).1 0).0 same))
          ∙ is_end-write pipefd j (omega (arith, h, count)) in
        absurd (cc (opened.1 0 among, input))
    | inr other ↦ other
  ]

  with_input-input : (i : ℕ) → i < n → with_input i pipefd t' 0 ≡ wired t n i 0
  with_input-input i h = elim (Bool-cases (ltb 0 i)) [
    | inl later ↦
        let bound : i - 1 < length pipefd = omega (arith, h, count, ltb→lt 0 i later) in
        let e : 0 + (i - 1) ≡ i - 1 = omega arith in
        rw later (opened.2 (i - 1) bound ∙ ap (λ k. some (read_end k)) e)
    | inr first ↦ rw first (opened.0 0 (not_end 0 a input))
  ]

  with_input-other : (i k : ℕ) → (k == 0) ≡ false → with_input i pipefd t' k ≡ t' k
  with_input-other i k other = elim (Bool-cases (ltb 0 i)) [
    | inl later ↦ rw (later, other) refl
    | inr first ↦ rw first refl
  ]

  redirected-input : (i : ℕ) → i < n → redirected n i pipefd t' 0 ≡ wired t n i 0
  redirected-input i h = elim (Bool-cases (ltb i (n - 1))) [
    | inl inner ↦ rw inner (with_input-input i h)
    | inr last ↦ rw last (with_input-input i h)
  ]

  redirected-output : (i : ℕ) → redirected n i pipefd t' 1 ≡ wired t n i 1
  redirected-output i = elim (Bool-cases (ltb i (n - 1))) [
    | inl inner ↦
        let bound = ltb→lt i (n - 1) inner in
        let e : 0 + i ≡ i = omega arith in
        rw inner (
          with_input-other i (pipe_at pipefd i).1 (write_not_input i bound)
          ∙ opened.3 i (omega (arith, bound, count))
          ∙ ap (λ k. some (write_end k)) e)
    | inr last ↦ rw last (with_input-other i 1 refl ∙ opened.0 1 (not_end 1 b output))
  ]

  redirected-other :
      (i k : ℕ)
      → (k == 0) ≡ false
      → (k == 1) ≡ false
      → is_end k pipefd ≡ false
      → redirected n i pipefd t' k ≡ t k
  redirected-other i k not_input not_output other = elim (Bool-cases (ltb i (n - 1))) [
    | inl inner ↦ rw (inner, not_output) (with_input-other i k not_input ∙ opened.0 k other)
    | inr last ↦ rw last (with_input-other i k not_input ∙ opened.0 k other)
  ]

  wired-other : (i k : ℕ) → (k == 0) ≡ false → (k == 1) ≡ false → wired t n i k ≡ t k
  wired-other i k not_input not_output = rw (not_input, not_output) refl

  pub child_files-wired : (i : ℕ) → i < n → (k : ℕ) → child_files n i pipefd t' k ≡ wired t n i k
  unfolding child_files
  child_files-wired i h k =
      close_pipes_lem pipefd (redirected n i pipefd t') k ∙ elim (Bool-cases (k == 0)) [
        | inl is_input ↦
            subst
              (λ m. (if is_end m pipefd then none else redirected n i pipefd t' m) ≡ wired t n i m)
              (sym ((==_iff k 0).0 is_input)) (rw (not_end 0 a input) (redirected-input i h))
        | inr not_input ↦ elim (Bool-cases (k == 1)) [
          | inl is_output ↦
              subst
                (λ m.
                  (if is_end m pipefd then none else redirected n i pipefd t' m) ≡ wired t n i m)
                (sym ((==_iff k 1).0 is_output)) (rw (not_end 1 b output) (redirected-output i))
          | inr not_output ↦ elim (Bool-cases (is_end k pipefd)) [
            | inl among ↦
                rw among (sym (opened.1 k among) ∙ sym (wired-other i k not_input not_output))
            | inr other ↦ rw other (
                redirected-other i k not_input not_output other
                ∙ sym (wired-other i k not_input not_output))
          ]
        ]
      ]
