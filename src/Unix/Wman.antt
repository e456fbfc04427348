-- ===== src/Unix/Wman.antt =====
-- p1/tests/wman.c: the search of the manual's sections for a page. What stat and fopen find at a
-- path, and the bytes of the file there, are a parameter.
use cs537projects.Base.{
  ℕ, zero, suc, ◌+◌, ◌<◌, ◌≤◌, ◌≡◌, refl, subst, true, ◌||◌, List, [], ◌∷◌, ◌++◌, ◌==◌, ltb,
  if◌then◌else◌, length, arith, Bool-cases, inl, inr, ◌⊎◌, lt→ltb, length-append,
}
use cs537projects.Base.Int.{pos, ltb_ℤ, pos_part}
use cs537projects.CString.{atoi}

-- stat fails; stat succeeds and fopen fails; or the file's bytes.
pub data File : Type 0 where
  absent : File
  unreadable : File
  contents : List ℕ → File

-- What is printed before `main` ends; `past_path` is a write past the end of `path`.
pub data Answer : Type 0 where
  asks_page : Answer
  no_entry : Answer
  no_entry_in : ℕ → Answer
  invalid_section : Answer
  cannot_open : Answer
  past_path : Answer
  prints : List ℕ → Answer

-- "./man_pages/man%d/%s.%d", for a section from 1 to 9.
abbrev pub path : ℕ → List ℕ → List ℕ
path i name =
    (b'.'
      ∷ b'/'
      ∷ b'm'
      ∷ b'a'
      ∷ b'n'
      ∷ b'_'
      ∷ b'p'
      ∷ b'a'
      ∷ b'g'
      ∷ b'e'
      ∷ b's'
      ∷ b'/'
      ∷ b'm'
      ∷ b'a'
      ∷ b'n'
      ∷ (b'0' + i)
      ∷ b'/'
      ∷ [])
    ++ (name ++ (b'.' ∷ (b'0' + i) ∷ []))

-- The copy to the output ends at the first byte that a `char` cannot tell from EOF.
unfoldable pub put_chars : List ℕ → List ℕ
put_chars [] = []
put_chars (c ∷ s) = if c == 255 then [] else c ∷ put_chars s

module _ (file_at : List ℕ → File) where
  -- The loop over the sections from `i` on, for `rounds` of them.
  unfoldable pub search : ℕ → ℕ → List ℕ → Answer
  unfolding put_chars
  search zero i name = no_entry
  search (suc rounds) i name =
      let rest = search rounds (suc i) name in
      if ltb (length (path i name)) 256
      then (elim (file_at (path i name)) [
        | absent ↦ rest
        | unreadable ↦ cannot_open
        | contents bytes ↦ prints (put_chars bytes)
      ])
      else past_path

  unfoldable pub in_section : ℕ → List ℕ → Answer
  unfolding put_chars
  in_section sec name =
      if ltb (length (path sec name)) 256
      then (elim (file_at (path sec name)) [
        | absent ↦ no_entry_in sec
        | unreadable ↦ cannot_open
        | contents bytes ↦ prints (put_chars bytes)
      ])
      else past_path

  -- `main` with its arguments behind the program's name; more than two are ignored.
  unfoldable pub wman : List (List ℕ) → Answer
  unfolding search in_section atoi
  wman [] = asks_page
  wman (name ∷ []) = search 9 1 name
  wman (section ∷ name ∷ more) =
      let sec = atoi section in
      if ltb_ℤ sec (pos 1) || ltb_ℤ (pos 9) sec
      then invalid_section
      else in_section (pos_part sec) name

  -- The sections from `i` up to `k` have no such page.
  abbrev AbsentBetween : ℕ → ℕ → List ℕ → Type 0
  AbsentBetween i k name = (j : ℕ) → i ≤ j → j < k → file_at (path j name) ≡ absent

  -- What an answer says of the sections from `i` up to `last`.
  abbrev pub Searched : ℕ → ℕ → List ℕ → Answer → Type 0
  Searched i last name no_entry = AbsentBetween i last name
  Searched i last name cannot_open =
      (k : ℕ) × ((i ≤ k)
        × ((k < last) × (AbsentBetween i k name × (file_at (path k name) ≡ unreadable))))
  Searched i last name (prints out) =
      (k : ℕ) × ((i ≤ k)
        × ((k < last)
            × (AbsentBetween i k name
                × ((bytes : List ℕ) × ((file_at (path k name) ≡ contents bytes)
                      × (out ≡ put_chars bytes))))))
  Searched i last name asks_page = ⊥
  Searched i last name (no_entry_in k) = ⊥
  Searched i last name invalid_section = ⊥
  Searched i last name past_path = ⊥

  absent_before :
      (i k : ℕ) (name : List ℕ)
      → file_at (path i name) ≡ absent
      → AbsentBetween (suc i) k name
      → AbsentBetween i k name
  absent_before i k name here behind j low high = elim (Bool-cases (j == i)) [
    | inl e ↦
        let same : i ≡ j = ground arith in subst (λ m. file_at (path m name) ≡ absent) same here
    | inr e ↦ behind j (ground arith) high
  ]

  Searched-absent :
      (i last : ℕ) (name : List ℕ) (a : Answer)
      → file_at (path i name) ≡ absent
      → Searched (suc i) last name a
      → Searched i last name a
  Searched-absent i last name no_entry here h = absent_before i last name here h
  Searched-absent i last name cannot_open here (k, (low, (high, (before, found)))) =
      (k, (omega arith, (high, (absent_before i k name here before, found))))
  Searched-absent i last name (prints out) here (k, (low, (high, (before, found)))) =
      (k, (omega arith, (high, (absent_before i k name here before, found))))
  Searched-absent i last name asks_page here h = h
  Searched-absent i last name (no_entry_in k) here h = h
  Searched-absent i last name invalid_section here h = h
  Searched-absent i last name past_path here h = h

  file_cases :
      (f : File) → (f ≡ absent) ⊎ ((f ≡ unreadable) ⊎ ((bytes : List ℕ) × (f ≡ contents bytes)))
  file_cases absent = inl refl
  file_cases unreadable = inr (inl refl)
  file_cases (contents bytes) = inr (inr (bytes, refl))

  path_fits : (i : ℕ) (name : List ℕ) → length name < 237 → ltb (length (path i name)) 256 ≡ true
  path_fits i name short =
      lt→ltb (length (path i name)) 256
        (omega (arith, short, length-append name (b'.' ∷ (b'0' + i) ∷ [])))

  search-Searched :
      (rounds i : ℕ) (name : List ℕ)
      → length name < 237
      → Searched i (i + rounds) name (search rounds i name)
  unfolding search
  search-Searched zero i name short = λ j low high. absurd (omega (arith, low, high))
  search-Searched (suc rounds) i name short = elim (file_cases (file_at (path i name))) [
    | inl e ↦
        rw (path_fits i name short, e, search)
          (Searched-absent i (i + suc rounds) name (search rounds (suc i) name) e (
            subst (λ m. Searched (suc i) m name (search rounds (suc i) name)) (omega arith)
              (search-Searched rounds (suc i) name short)))
    | inr found ↦ elim found [
      | inl e ↦
          rw (path_fits i name short, e, search)
            (
              i,
              (omega arith, (omega arith, ((λ j low high. absurd (omega (arith, low, high))), e))),
            )
      | inr (bytes, e) ↦
          rw (path_fits i name short, e, search)
            (
              i,
              (
                omega arith,
                (
                  omega arith,
                  ((λ j low high. absurd (omega (arith, low, high))), (bytes, (e, refl))),
                ),
              ),
            )
    ]
  ]

  -- With a page's name of less than 237 bytes, `wman <page>` answers from the first of the sections
  -- 1 to 9 that has the page: it prints the file's bytes up to the first 255, or reports that the
  -- file cannot be opened; it reports that there is no entry exactly when no section has the page.
  pub wman-Searched : (name : List ℕ) → length name < 237 → Searched 1 10 name (wman (name ∷ []))
  unfolding wman
  wman-Searched name short = search-Searched 9 1 name short
