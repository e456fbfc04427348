-- ===== src/Unix/Apropos/Found.antt =====
-- Which pages wapropos (p1/tests/wapropos.c) reports: those with the keyword in a line of their NAME
-- or DESCRIPTION part.
use cs537projects.Base.{
  ℕ, ◌≡◌, refl, ap, ◌∙◌, sym, subst, Bool, true, false, ◌&&◌, ◌||◌, Option, none, some, List, [],
  ◌∷◌, if◌then◌else◌, Bool-cases, Option-cases, inl, inr, ◌⊎◌, arith,
}
use cs537projects.CString.{starts_with, str_eq, strtok, token_end, NoByte}
use cs537projects.Unix.Apropos.{
  Manual, bold, name_header, description_header, is_dash, cut, after_header, count_line,
  save_one_liner, contains, is_one, scan_line, scan_lines, fresh_manual,
}

-- Whether the last header, this line included, is that of the NAME or the DESCRIPTION part.
unfoldable pub inside_after : Bool → List ℕ → Bool
inside_after inside line =
    if str_eq line name_header
    then true
    else (if str_eq line description_header
        then true
        else (if starts_with bold line then false else inside))

-- A line of one of the two parts has the keyword, in front of its first dash at least.
abbrev pub Somewhere : List ℕ → Bool → List (List ℕ) → Type 0
Somewhere keyword inside [] = ⊥
Somewhere keyword inside (line ∷ lines) =
    ((inside_after inside line ≡ true)
      × ((contains keyword line ≡ true) ⊎ (contains keyword (cut line) ≡ true)))
    ⊎ Somewhere keyword (inside_after inside line) lines

-- No line of the two parts that is without a dash has the keyword.
abbrev pub Nowhere : List ℕ → Bool → List (List ℕ) → Type 0
Nowhere keyword inside [] = Unit {0}
Nowhere keyword inside (line ∷ lines) =
    (inside_after inside line ≡ true → NoByte b'-' line → contains keyword line ≡ false)
    × Nowhere keyword (inside_after inside line) lines

abbrev pub Scanned : List ℕ → Bool → List (List ℕ) → Option Manual → Type 0
Scanned keyword inside lines none = Nowhere keyword inside lines
Scanned keyword inside lines (some m) = Somewhere keyword inside lines

abbrev in_part : Manual → Bool
in_part m = m.in_description || m.in_name

or-true : (a : Bool) → (a || true) ≡ true
or-true true = refl
or-true false = refl

in_part-after_header :
    (line : List ℕ) (m : Manual) → in_part (after_header line m) ≡ inside_after (in_part m) line
unfolding after_header inside_after
in_part-after_header line m = elim (Bool-cases (str_eq line name_header)) [
  | inl e ↦ rw e (or-true m.in_description)
  | inr e ↦ elim (Bool-cases (str_eq line description_header)) [
    | inl h ↦ rw (e, h) refl
    | inr h ↦ elim (Bool-cases (starts_with bold line)) [
      | inl b ↦ rw (e, h, b) refl
      | inr b ↦ rw (e, h, b) refl
    ]
  ]
]

in_part-count_line : (m : Manual) → in_part (count_line m) ≡ in_part m
unfolding count_line
in_part-count_line m = elim (Bool-cases m.in_name) [
  | inl e ↦ rw (e, count_line) refl
  | inr e ↦ rw (e, count_line) refl
]

in_part-save_one_liner : (line : List ℕ) (m : Manual) → in_part (save_one_liner line m) ≡ in_part m
unfolding save_one_liner
in_part-save_one_liner line m = elim (Option-cases (strtok is_dash line)) [
  | inl e ↦ rw (e, save_one_liner) refl
  | inr ((token, rest), e) ↦ elim (Option-cases (strtok is_dash rest)) [
    | inl h ↦ rw (e, h, save_one_liner) refl
    | inr ((second, more), h) ↦ rw (e, h, save_one_liner) refl
  ]
]

token_end-NoByte : (s : List ℕ) → NoByte b'-' s → (token_end is_dash s).0 ≡ s
unfolding token_end
token_end-NoByte [] h = refl
token_end-NoByte (c ∷ s) h =
    let no_dash : is_dash c ≡ false = ground (arith, h.0) in
    rw (no_dash, token_end) (ap (λ r. c ∷ r) (token_end-NoByte s h.1))

cut-NoByte : (s : List ℕ) → NoByte b'-' s → cut s ≡ s
unfolding cut
cut-NoByte [] h = refl
cut-NoByte (c ∷ s) h =
    let no_dash : is_dash c ≡ false = ground (arith, h.0) in
    rw (no_dash, cut) (ap (λ r. c ∷ r) (token_end-NoByte s h.1))

in_part-scan_line :
    (keyword line : List ℕ) (m : Manual)
    → in_part (scan_line keyword line m).0 ≡ inside_after (in_part m) line
unfolding scan_line
in_part-scan_line keyword line m =
    let counted = count_line (after_header line m) in
    let same = in_part-count_line (after_header line m) ∙ in_part-after_header line m in
    elim (Bool-cases (is_one counted.liner)) [
      | inl e ↦ rw (e, scan_line) (in_part-save_one_liner line counted ∙ same)
      | inr e ↦ rw (e, scan_line) same
    ]

and-true : (a b : Bool) → (a && b) ≡ true → (a ≡ true) × (b ≡ true)
and-true true true h = (refl, refl)
and-true true false h = absurd (cc (h))
and-true false b h = absurd (cc (h))

and-missed : (a b : Bool) → (a && b) ≡ false → a ≡ true → b ≡ false
and-missed true b h e = h
and-missed false b h e = absurd (cc (e))

abbrev searched : List ℕ → List ℕ → Manual → Bool
searched keyword line counted =
    if is_one counted.liner then contains keyword (cut line) else contains keyword line

scan_line-searched :
    (keyword line : List ℕ) (m : Manual)
    → (scan_line keyword line m).1
      ≡ (inside_after (in_part m) line && searched keyword line (count_line (after_header line m)))
unfolding scan_line
scan_line-searched keyword line m =
    let counted = count_line (after_header line m) in
    let same = in_part-count_line (after_header line m) ∙ in_part-after_header line m in
    elim (Bool-cases (is_one counted.liner)) [
      | inl e ↦ rw (e, scan_line) (ap (λ a. a && contains keyword (cut line)) same)
      | inr e ↦ rw (e, scan_line) (ap (λ a. a && contains keyword line) same)
    ]

either_true : (b x y : Bool) → (if b then x else y) ≡ true → (y ≡ true) ⊎ (x ≡ true)
either_true true x y h = inr h
either_true false x y h = inl h

searched-found :
    (keyword line : List ℕ) (m : Manual)
    → searched keyword line m ≡ true
    → (contains keyword line ≡ true) ⊎ (contains keyword (cut line) ≡ true)
searched-found keyword line m h =
    either_true (is_one m.liner) (contains keyword (cut line)) (contains keyword line) h

searched-NoByte :
    (keyword line : List ℕ) (m : Manual)
    → NoByte b'-' line
    → searched keyword line m ≡ contains keyword line
searched-NoByte keyword line m h = elim (Bool-cases (is_one m.liner)) [
  | inl e ↦ rw e (ap (contains keyword) (cut-NoByte line h))
  | inr e ↦ rw e refl
]

Scanned-behind :
    (keyword line : List ℕ) (inside : Bool) (lines : List (List ℕ)) (o : Option Manual)
    → (inside_after inside line ≡ true → NoByte b'-' line → contains keyword line ≡ false)
    → Scanned keyword (inside_after inside line) lines o
    → Scanned keyword inside (line ∷ lines) o
Scanned-behind keyword line inside lines none missed h = (missed, h)
Scanned-behind keyword line inside lines (some m) missed h = inr h

-- From any place of a page on: a report means that a line of the NAME or DESCRIPTION part has the
-- keyword; without a report no line of these parts that is without a dash has it.
scan_lines-Scanned :
    (keyword : List ℕ) (lines : List (List ℕ)) (m : Manual)
    → Scanned keyword (in_part m) lines (scan_lines keyword lines m)
unfolding scan_lines
scan_lines-Scanned keyword [] m = tt
scan_lines-Scanned keyword (line ∷ lines) m =
    let counted = count_line (after_header line m) in
    let by_searched = scan_line-searched keyword line m in
    elim (Bool-cases (scan_line keyword line m).1) [
      | inl e ↦
          let both =
            and-true (inside_after (in_part m) line) (searched keyword line counted)
              (sym by_searched ∙ e) in
          rw (e, scan_lines) (inl (both.0, searched-found keyword line counted both.1))
      | inr e ↦
          rw (e, scan_lines)
            (Scanned-behind keyword line (in_part m) lines
              (scan_lines keyword lines (scan_line keyword line m).0)
              (λ inside no_dash.
                sym (searched-NoByte keyword line counted no_dash)
                ∙ and-missed (inside_after (in_part m) line) (searched keyword line counted)
                    (sym by_searched ∙ e) inside)
              (subst
                (λ b.
                  Scanned keyword b lines (scan_lines keyword lines (scan_line keyword line m).0))
                (in_part-scan_line keyword line m)
                (scan_lines-Scanned keyword lines (scan_line keyword line m).0)))
    ]

-- A page is reported only if a line of its NAME or DESCRIPTION part has the keyword, and a page that
-- is not reported has no such line without a dash.
pub scan_lines-fresh_manual :
    (keyword : List ℕ) (lines : List (List ℕ))
    → Scanned keyword false lines (scan_lines keyword lines fresh_manual)
scan_lines-fresh_manual keyword lines = scan_lines-Scanned keyword lines fresh_manual
