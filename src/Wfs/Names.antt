-- ===== src/Wfs/Names.antt =====
-- Paths as path_to_inode of p7/mount.wfs.c takes them apart: strtok gives the names back that a path
-- was put together from.
use cs537projects.Base.{
  ℕ, ◌≡◌, refl, ap, ◌∙◌, true, false, List, [], ◌∷◌, ◌++◌, ◌==◌, if◌then◌else◌,
}
use cs537projects.CString.{str_eq}
use cs537projects.Wfs.Path.{tokens, at_separator, cons_head}

abbrev NoSlash : List ℕ → Type 0
NoSlash [] = Unit {0}
NoSlash (c ∷ s) = ((c == b'/') ≡ false) × NoSlash s

-- A name that can stand in a path.
abbrev pub Component : List ℕ → Type 0
Component [] = ⊥
Component (c ∷ s) = NoSlash (c ∷ s)

abbrev pub Components : List (List ℕ) → Type 0
Components [] = Unit {0}
Components (name ∷ names) = Component name × Components names

abbrev slashed : List (List ℕ) → List ℕ
slashed [] = []
slashed (name ∷ names) = b'/' ∷ (name ++ slashed names)

-- The absolute path of the names below the root.
abbrev pub path_of : List (List ℕ) → List ℕ
path_of [] = b'/' ∷ []
path_of (name ∷ names) = slashed (name ∷ names)

tokens_cons :
    (c : ℕ) (s : List ℕ)
    → tokens (c ∷ s) ≡ (
        if c == b'/'
        then tokens s
        else (if at_separator s then (c ∷ []) ∷ tokens s else cons_head c (tokens s)))
unfolding tokens
tokens_cons c s = refl

at_separator-slashed : (names : List (List ℕ)) → at_separator (slashed names) ≡ true
at_separator-slashed [] = refl
at_separator-slashed (name ∷ names) = refl

tokens-name :
    (c : ℕ) (s : List ℕ) (names : List (List ℕ))
    → NoSlash (c ∷ s)
    → tokens (c ∷ (s ++ slashed names)) ≡ (c ∷ s) ∷ tokens (slashed names)
tokens-name c [] names h =
    tokens_cons c (slashed names) ∙ rw h.0 (rw (at_separator-slashed names) refl)
tokens-name c (d ∷ s) names h =
    tokens_cons c (d ∷ (s ++ slashed names))
    ∙ rw h.0 (rw h.1.0 (ap (cons_head c) (tokens-name d s names h.1)))

pub tokens-slashed : (names : List (List ℕ)) → Components names → tokens (slashed names) ≡ names
unfolding tokens
tokens-slashed [] h = refl
tokens-slashed ([] ∷ names) h = absurd h.0
tokens-slashed ((c ∷ s) ∷ names) h =
    tokens-name c s names h.0 ∙ ap (◌∷◌ (c ∷ s)) (tokens-slashed names h.1)

pub str_eq-path_of :
    (name : List ℕ) (names : List (List ℕ))
    → Component name
    → str_eq (path_of (name ∷ names)) (b'/' ∷ []) ≡ false
unfolding str_eq
str_eq-path_of [] names h = absurd h
str_eq-path_of (c ∷ s) names h = refl
