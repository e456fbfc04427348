-- ===== src/Unix/Groff/Page.antt =====
-- A whole run of wgroff (main of p1/tests/wgroff.c) on a file that starts with a title line.
use cs537projects.Base.{
  ℕ, ◌+◌, ◌≡◌, refl, ap, ◌∙◌, Bool, true, false, List, [], ◌∷◌, ◌++◌, inl, inr, ◌⊎◌, length, arith,
}
use cs537projects.CString.{starts_with}
use cs537projects.Unix.Groff.{
  Run, improper, going, then_run, fputs, handle_line, handle_lines, wgroff, title, footer, start,
}
use cs537projects.Unix.Groff.Title.{IsTitle, title_line-IsTitle}
use cs537projects.Unix.Groff.Document.{body, AllRoom, opened, after_lines, handle_lines-body}

-- How a run ends, for the body that `body` finds.
abbrev pub page : List ℕ → List ℕ → List ℕ → ℕ → ℕ ⊎ List ℕ → Run
page command section date n (inl bad) = improper bad
page command section date n (inr text) =
    going
      (opened n ((title command section ++ text) ++ footer date) (command ++ (b'.' ∷ section)) date)

with_footer :
    (command section date : List ℕ) (n : ℕ) (r : ℕ ⊎ List ℕ)
    → then_run
        (after_lines n (title command section) (command ++ (b'.' ∷ section)) date r)
        (λ g. fputs (footer g.date_copy) g)
      ≡ page command section date n r
unfolding fputs
with_footer command section date n (inl bad) = refl
with_footer command section date n (inr text) = refl

module _ (date_ok creates : List ℕ → Bool) where
  first_line :
      (command section date s : List ℕ)
      → IsTitle date_ok creates command section date s
      → handle_line date_ok creates s start
        ≡ going (opened 0 (title command section) (command ++ (b'.' ∷ section)) date)
  unfolding handle_line starts_with
  first_line command section date s h =
      let not_comment : starts_with (b'#' ∷ []) s ≡ false = ap (starts_with (b'#' ∷ [])) h.text in
      rw not_comment (
        title_line-IsTitle date_ok creates command section date s (record start { line_number = 1 })
          h)

  -- On a file whose first line is a title that fits, and whose other lines have room for their
  -- escapes, wgroff creates the page: the title, what each line is rendered to in order, and the
  -- footer; or it stops with the number of the first line whose format is improper.
  pub wgroff-page :
      (command section date s : List ℕ) (lines : List (List ℕ))
      → IsTitle date_ok creates command section date s
      → AllRoom lines
      → wgroff date_ok creates 2 true true (s ∷ lines)
        ≡ page command section date (length lines) (body 2 lines)
  unfolding wgroff handle_lines
  wgroff-page command section date s lines h room =
      rw
        (
          first_line command section date s h,
          handle_lines-body date_ok creates lines 0 (title command section)
              (command ++ (b'.' ∷ section)) date room,
        )
        (with_footer command section date (0 + length lines) (body 2 lines)
          ∙ ap (λ n. page command section date n (body 2 lines)) (omega arith))
