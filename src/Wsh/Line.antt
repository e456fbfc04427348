-- ===== src/Wsh/Line.antt =====
-- The words of a command line of p3/wsh.c: the strsep loop of main, and the pipeline of pipe_dealer.
use cs537projects.Base.{
  ℕ, suc, ◌+◌, ◌≡◌, refl, ap, ap₂, sym, ◌∙◌, Bool, true, false, ◌||◌, List, [], ◌∷◌, ◌++◌, ◌==◌,
  if◌then◌else◌, length, Bool-cases, inl, inr, arith,
}
use cs537projects.CString.{str_eq}

-- " \t\n"
abbrev is_delimiter : ℕ → Bool
is_delimiter c = (c == 32) || ((c == 9) || (c == 10))

-- The tokens of strsep, with the empty ones: the part up to the next delimiter, and the rest.
abbrev push_byte : ℕ → List ℕ × List (List ℕ) → List ℕ × List (List ℕ)
push_byte c (t, ts) = (c ∷ t, ts)

abbrev next_token : List ℕ × List (List ℕ) → List ℕ × List (List ℕ)
next_token (t, ts) = ([], t ∷ ts)

unfoldable pub strsep_all : List ℕ → List ℕ × List (List ℕ)
strsep_all [] = ([], [])
strsep_all (c ∷ s) =
    let rest = strsep_all s in if is_delimiter c then next_token rest else push_byte c rest

-- if (*token)
unfoldable pub keep_words : List (List ℕ) → List (List ℕ)
keep_words [] = []
keep_words ([] ∷ ts) = keep_words ts
keep_words ((c ∷ t) ∷ ts) = (c ∷ t) ∷ keep_words ts

-- `args` of a line.
unfoldable pub split_args : List ℕ → List (List ℕ)
unfolding strsep_all keep_words
split_args input = let (t, ts) = strsep_all input in keep_words (t ∷ ts)

abbrev pub bar : List ℕ
bar = b'|' ∷ []

-- `num_cmd`
unfoldable pub num_cmd : List (List ℕ) → ℕ
num_cmd [] = 1
num_cmd (a ∷ more) = let rest = num_cmd more in if str_eq a bar then suc rest else rest

-- `cmds` of pipe_dealer: the first command, and those behind the bars.
unfoldable pub split_pipe : List (List ℕ) → List (List ℕ) × List (List (List ℕ))
split_pipe [] = ([], [])
split_pipe (a ∷ more) =
    let (cmd, cmds) = split_pipe more in if str_eq a bar then ([], cmd ∷ cmds) else (a ∷ cmd, cmds)

-- The commands with bars between them.
abbrev pub joined : List (List ℕ) → List (List (List ℕ)) → List (List ℕ)
joined cmd [] = cmd
joined cmd (c ∷ cs) = cmd ++ bar ∷ joined c cs

str_eq-true : (s t : List ℕ) → str_eq s t ≡ true → s ≡ t
unfolding str_eq
str_eq-true [] [] h = refl
str_eq-true [] (d ∷ t) h = absurd (cc h)
str_eq-true (c ∷ s) [] h = absurd (cc h)
str_eq-true (c ∷ s) (d ∷ t) h = ap₂ ◌∷◌ (ground arith) (str_eq-true s t (ground arith))

joined-cons :
    (a : List ℕ) (cmd : List (List ℕ)) (cmds : List (List (List ℕ)))
    → joined (a ∷ cmd) cmds ≡ a ∷ joined cmd cmds
joined-cons a cmd [] = refl
joined-cons a cmd (c ∷ cs) = refl

-- The commands that pipe_dealer makes, with a bar between each two, are the arguments, and there are
-- as many of them as main has counted.
pub split_pipe-joined :
    (args : List (List ℕ))
    → (joined (split_pipe args).0 (split_pipe args).1 ≡ args)
      × (length (split_pipe args).1 + 1 ≡ num_cmd args)
unfolding split_pipe num_cmd
split_pipe-joined [] = (refl, refl)
split_pipe-joined (a ∷ more) =
    let rest = split_pipe-joined more in
    elim (Bool-cases (str_eq a bar)) [
      | inl is_bar ↦
          rw is_bar (ap₂ ◌∷◌ (sym (str_eq-true a bar is_bar)) rest.0, omega (arith, rest.1))
      | inr word ↦
          rw word
            (joined-cons a (split_pipe more).0 (split_pipe more).1 ∙ ap (◌∷◌ a) rest.0, rest.1)
    ]

-- A word of a line: not empty, and without a delimiter.
abbrev pub IsWord : List ℕ → Type 0
IsWord [] = ⊥
IsWord (c ∷ []) = is_delimiter c ≡ false
IsWord (c ∷ d ∷ s) = (is_delimiter c ≡ false) × IsWord (d ∷ s)

abbrev pub AreWords : List (List ℕ) → Type 0
AreWords [] = Unit {0}
AreWords (w ∷ ws) = IsWord w × AreWords ws

-- Words with a space behind each.
abbrev spaced : List (List ℕ) → List ℕ
spaced [] = []
spaced (w ∷ ws) = w ++ 32 ∷ spaced ws

strsep_all-word :
    (w rest : List ℕ)
    → IsWord w
    → strsep_all (w ++ 32 ∷ rest) ≡ (w, (strsep_all rest).0 ∷ (strsep_all rest).1)
unfolding strsep_all
strsep_all-word [] rest h = absurd h
strsep_all-word (c ∷ []) rest h = rw h refl
strsep_all-word (c ∷ d ∷ s) rest h = rw h.0 (ap (push_byte c) (strsep_all-word (d ∷ s) rest h.1))

keep_words-cons :
    (w : List ℕ) (ts : List (List ℕ)) → IsWord w → keep_words (w ∷ ts) ≡ w ∷ keep_words ts
unfolding keep_words
keep_words-cons [] ts h = absurd h
keep_words-cons (c ∷ s) ts h = refl

keep_nothing : split_args [] ≡ []
unfolding split_args strsep_all keep_words
keep_nothing = refl

-- A line of words with a space behind each is split into just these words.
split_args-spaced : (ws : List (List ℕ)) → AreWords ws → split_args (spaced ws) ≡ ws
unfolding split_args
split_args-spaced [] h = keep_nothing
split_args-spaced (w ∷ ws) h =
    ap (λ (p : List ℕ × List (List ℕ)). keep_words (p.0 ∷ p.1)) (strsep_all-word w (spaced ws) h.0)
    ∙ keep_words-cons w _ h.0
    ∙ ap (◌∷◌ w) (split_args-spaced ws h.1)
