-- ===== src/Unix/Groff/Document.antt =====
-- What main of p1/tests/wgroff.c makes of a whole file, against the format that p1/README.md
-- describes line by line.
use cs537projects.Base.{
  ℕ, suc, ◌+◌, ◌≤◌, ◌<◌, ◌≡◌, refl, ap, ap₂, ◌∙◌, sym, Bool, false, Option, none, some, List, [],
  ◌∷◌, ◌++◌, ◌==◌, if◌then◌else◌, length, drop, arith, Bool-cases, Option-cases, inl, inr, ◌⊎◌,
  append_assoc, append-nil,
}
use cs537projects.CString.{starts_with, str_eq}
use cs537projects.Unix.Convert.{max_line_length}
use cs537projects.Unix.Convert.Passes.{slashes}
use cs537projects.Unix.Convert.Result.{converted, convert_line-line}
use cs537projects.Unix.Groff.{
  Groff, Run, improper, going, fputs, section_header, section_mark, section_line, text_line, indent,
  handle_line, handle_lines,
}

-- What a line behind the title adds to the page; `none` if its format is improper.
unfoldable pub rendered : List ℕ → Option (List ℕ)
unfolding starts_with str_eq
rendered s =
    if starts_with (b'#' ∷ []) s
    then some []
    else (if starts_with section_mark s
        then (if str_eq (drop 4 s) (10 ∷ []) then none else some (10 ∷ section_header (drop 4 s)))
        else some (indent ++ converted s))

abbrev put_before : List ℕ → ℕ ⊎ List ℕ → ℕ ⊎ List ℕ
put_before t (inl k) = inl k
put_before t (inr page) = inr (t ++ page)

-- The body of the page, or the number of the first improper line; the first line's number is `n`.
unfoldable pub body : ℕ → List (List ℕ) → ℕ ⊎ List ℕ
unfolding rendered
body n [] = inr []
body n (s ∷ lines) =
    let rest = body (suc n) lines in elim (rendered s) [ none ↦ inl n | some t ↦ put_before t rest ]

abbrev pub AllRoom : List (List ℕ) → Type 0
AllRoom [] = Unit {0}
AllRoom (s ∷ lines) = (length s + slashes s < max_line_length) × AllRoom lines

slashes-length : (s : List ℕ) → slashes s ≤ length s
unfolding slashes
slashes-length [] = omega arith
slashes-length (x ∷ s) = ground (arith, slashes-length s)

-- A page that is open, after `n + 1` lines.
abbrev pub opened : ℕ → List ℕ → List ℕ → List ℕ → Groff
opened n written file date = record {
  line_number = suc n;
  output = some written;
  output_filename = file;
  date_copy = date;
}

abbrev after_line : ℕ → List ℕ → List ℕ → List ℕ → Option (List ℕ) → Run
after_line n written file date none = improper (suc (suc n))
after_line n written file date (some t) = going (opened (suc n) (written ++ t) file date)

text_line-converted :
    (s : List ℕ) (n : ℕ) (w file date : List ℕ)
    → length s + slashes s < max_line_length
    → text_line s (opened n w file date) ≡ going (opened n (w ++ (indent ++ converted s)) file date)
unfolding text_line fputs
text_line-converted s n w file date room =
    let few : slashes s < max_line_length = omega (arith, room, slashes-length s) in
    rw (convert_line-line max_line_length s few room, text_line)
      (ap (λ r. going (opened n r file date)) (append_assoc w indent (converted s)))

section_line-written :
    (name : List ℕ) (n : ℕ) (w file date : List ℕ)
    → str_eq name (10 ∷ []) ≡ false
    → section_line name (opened n w file date)
      ≡ going (opened n (w ++ (10 ∷ section_header name)) file date)
unfolding section_line fputs
section_line-written name n w file date proper =
    rw proper
      (ap (λ r. going (opened n r file date)) (append_assoc w (10 ∷ []) (section_header name)))

not_first : (n : ℕ) → (suc (suc n) == 1) ≡ false
not_first n = ground arith

abbrev pub after_lines : ℕ → List ℕ → List ℕ → List ℕ → ℕ ⊎ List ℕ → Run
after_lines n w file date (inl k) = improper k
after_lines n w file date (inr page) = going (opened n (w ++ page) file date)

after_lines-put_before :
    (n : ℕ) (w t file date : List ℕ) (r : ℕ ⊎ List ℕ)
    → after_lines n (w ++ t) file date r ≡ after_lines n w file date (put_before t r)
after_lines-put_before n w t file date (inl k) = refl
after_lines-put_before n w t file date (inr page) =
    ap (λ r. going (opened n r file date)) (append_assoc w t page)

module _ (date_ok creates : List ℕ → Bool) where
  handle_line-rendered :
      (s : List ℕ) (n : ℕ) (w file date : List ℕ)
      → length s + slashes s < max_line_length
      → handle_line date_ok creates s (opened n w file date) ≡ after_line n w file date (rendered s)
  unfolding handle_line rendered
  handle_line-rendered s n w file date room = elim (Bool-cases (starts_with (b'#' ∷ []) s)) [
    | inl e ↦ rw e (ap (λ r. going (opened (suc n) r file date)) (sym (append-nil w)))
    | inr e ↦ elim (Bool-cases (starts_with section_mark s)) [
      | inl h ↦ elim (Bool-cases (str_eq (drop 4 s) (10 ∷ []))) [
        | inl improper_name ↦ rw (e, h, not_first n, improper_name) refl
        | inr proper ↦
            let is_rendered : (if str_eq (drop 4 s) (10 ∷ [])
                  then none
                  else some (10 ∷ section_header (drop 4 s)))
                ≡ some (10 ∷ section_header (drop 4 s)) =
              rw proper refl in
            rw (e, h, not_first n)
              (section_line-written (drop 4 s) (suc n) w file date proper
                ∙ ap (after_line n w file date) (sym is_rendered))
      ]
      | inr h ↦ rw (e, h, not_first n) (text_line-converted s (suc n) w file date room)
    ]
  ]

  pub handle_lines-body :
      (lines : List (List ℕ)) (n : ℕ) (w file date : List ℕ)
      → AllRoom lines
      → handle_lines date_ok creates lines (opened n w file date)
        ≡ after_lines (n + length lines) w file date (body (suc (suc n)) lines)
  unfolding handle_lines body
  handle_lines-body [] n w file date room =
      ap₂ (λ m r. going (opened m r file date)) (omega arith) (sym (append-nil w))
  handle_lines-body (s ∷ lines) n w file date room = elim (Option-cases (rendered s)) [
    | inl e ↦ rw (handle_line-rendered s n w file date room.0, e, body) refl
    | inr (t, e) ↦
        rw (handle_line-rendered s n w file date room.0, e, body)
          (handle_lines-body lines (suc n) (w ++ t) file date room.1
            ∙ after_lines-put_before (suc n + length lines) w t file date
                (body (suc (suc (suc n))) lines)
            ∙ ap (λ m. after_lines m w file date (put_before t (body (suc (suc (suc n))) lines)))
                (omega arith))
  ]
