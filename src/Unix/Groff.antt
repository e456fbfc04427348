-- ===== src/Unix/Groff.antt =====
-- main of p1/tests/wgroff.c: a page in the source format becomes the formatted page. The lines are
-- what fgets returns, each its bytes before the NUL. The date's pattern (regexec) and whether fopen
-- can create a file are parameters.
pub mod Title
pub mod Page
pub mod Document
use cs537projects.Base.{
  ℕ, zero, suc, ◌+◌, ◌-◌, ◌*◌, ◌%◌, ◌^◌, ◌≡◌, refl, Bool, true, false, not, ◌&&◌, ◌||◌, Option,
  none, some, List, [], ◌∷◌, ◌++◌, map, ◌==◌, ltb, leb, if◌then◌else◌, length, drop, replicate,
}
use cs537projects.Base.Int.{ℤ, pos, ltb_ℤ}
use cs537projects.CString.{starts_with, str_eq, strtok, atoi}
use cs537projects.Unix.Convert.{
  Converted, unfinished, overflow, line, convert_line, max_line_length,
}

-- What `main` keeps between two lines; the output is NULL, or what was written to the file.
pub record Groff : Type 0 where
  pub line_number : ℕ
  pub output : Option (List ℕ)
  pub output_filename : List ℕ
  pub date_copy : List ℕ

-- How `main` ends, or goes on. `null_file` is a write through NULL, `endless` a count of spaces
-- beyond the range of `int`.
pub data Run : Type 0 where
  usage : Run
  missing : Run
  unreadable : Run
  improper : ℕ → Run
  not_created : Run
  null_file : Run
  past_buffer : Run
  endless : Run
  no_fuel : Run
  going : Groff → Run

abbrev pub is_blank : ℕ → Bool
is_blank c = c == 32

abbrev pub is_blank_or_newline : ℕ → Bool
is_blank_or_newline c = (c == 32) || (c == 10)

-- `toupper` in the C locale
abbrev toupper : ℕ → ℕ
toupper c = if leb b'a' c && leb c b'z' then c - 32 else c

-- A write to output_file.
unfoldable pub fputs : List ℕ → Groff → Run
fputs s g = elim g.output [
  | none ↦ null_file
  | some written ↦ going (record g { output = some (written ++ s) })
]

abbrev pub then_run : Run → (Groff → Run) → Run
then_run (going g) k = k g
then_run usage k = usage
then_run missing k = missing
then_run unreadable k = unreadable
then_run (improper n) k = improper n
then_run not_created k = not_created
then_run null_file k = null_file
then_run past_buffer k = past_buffer
then_run endless k = endless
then_run no_fuel k = no_fuel

-- 80 - 2 * (strlen(command) + strlen(section) + 2), in size_t.
abbrev pub title_spaces : List ℕ → List ℕ → ℕ
title_spaces command section = (80 + 2 ^ 64 - 2 * (length command + length section + 2)) % 2 ^ 64

-- "<command>(<section>)"
abbrev pub title_name : List ℕ → List ℕ → List ℕ
title_name command section = command ++ (b'(' ∷ (section ++ (b')' ∷ [])))

-- The first line of the output.
unfoldable pub title : List ℕ → List ℕ → List ℕ
title command section =
    title_name command section
    ++ (replicate (title_spaces command section) 32 ++ (title_name command section ++ (10 ∷ [])))

-- ".TH " and ".SH "
abbrev pub title_mark : List ℕ
title_mark = b'.' ∷ b'T' ∷ b'H' ∷ 32 ∷ []

abbrev pub section_mark : List ℕ
section_mark = b'.' ∷ b'S' ∷ b'H' ∷ 32 ∷ []

-- section_name[strlen(section_name) - 1] = '\0'; on "" the byte before it changes.
abbrev without_last : List ℕ → List ℕ
without_last [] = []
without_last (c ∷ []) = []
without_last (c ∷ d ∷ s) = c ∷ without_last (d ∷ s)

-- "\033[1m", the name in upper case, "\033[0m\n"
abbrev pub section_header : List ℕ → List ℕ
section_header name =
    (27 ∷ b'[' ∷ b'1' ∷ b'm' ∷ [])
    ++ (map toupper (without_last name) ++ (27 ∷ b'[' ∷ b'0' ∷ b'm' ∷ 10 ∷ []))

unfoldable pub section_line : List ℕ → Groff → Run
unfolding fputs str_eq
section_line name g = then_run (fputs (10 ∷ []) g) (λ g'.
    let header = fputs (section_header name) g' in
    if str_eq name (10 ∷ []) then improper g'.line_number else header)

abbrev pub indent : List ℕ
indent = replicate 7 32

-- Fuel for as many replacements as a line has bytes.
unfoldable pub text_line : List ℕ → Groff → Run
unfolding convert_line fputs
text_line s g = elim (convert_line max_line_length s) [
  | unfinished ↦ no_fuel
  | overflow ↦ past_buffer
  | line t ↦ then_run (fputs indent g) (fputs t)
]

-- 35 spaces, the date, 35 spaces and a newline.
abbrev pub footer : List ℕ → List ℕ
footer date = replicate 35 32 ++ (date ++ (replicate 35 32 ++ (10 ∷ [])))

abbrev pub start : Groff
start = record { line_number = 0; output = none; output_filename = []; date_copy = [] }

module _ (date_ok creates : List ℕ → Bool) where
  -- The title line from the three tokens on.
  unfoldable pub title_checked : List ℕ → List ℕ → List ℕ → Groff → Run
  unfolding atoi title
  title_checked command section date g =
      let file = command ++ (b'.' ∷ section) in
      let opened = record g {
        output = some (title command section);
        output_filename = file;
        date_copy = date;
      } in
      if ltb_ℤ (atoi section) (pos 1) || ltb_ℤ (pos 9) (atoi section)
      then improper g.line_number
      else (if not (date_ok date)
          then improper g.line_number
          else (if not (creates file)
              then not_created
              else (if ltb (title_spaces command section) (2 ^ 31) then going opened else endless)))

  unfoldable pub title_line : List ℕ → Groff → Run
  unfolding starts_with strtok title_checked
  title_line s g =
      let bad = improper g.line_number in
      let tokens : Run = elim (strtok is_blank (drop 4 s)) [
        | none ↦ bad
        | some (command, after_command) ↦ elim (strtok is_blank after_command) [
          | none ↦ bad
          | some (section, after_section) ↦ elim (strtok is_blank_or_newline after_section) [
            | none ↦ bad
            | some (date, rest) ↦ title_checked command section date g
          ]
        ]
      ] in
      if starts_with title_mark s then tokens else bad

  -- One round of the loop over the lines.
  unfoldable pub handle_line : List ℕ → Groff → Run
  unfolding starts_with title_line section_line text_line
  handle_line s g =
      let g' : Groff = record g { line_number = suc g.line_number } in
      let title_run = title_line s g' in
      let section_run = section_line (drop 4 s) g' in
      let text_run = text_line s g' in
      if starts_with (b'#' ∷ []) s
      then going g'
      else (if g'.line_number == 1
          then title_run
          else (if starts_with section_mark s then section_run else text_run))

  unfoldable pub handle_lines : List (List ℕ) → Groff → Run
  unfolding handle_line
  handle_lines [] g = going g
  handle_lines (s ∷ lines) g = then_run (handle_line s g) (handle_lines lines)

  -- `main` with `argc` arguments, the results of stat and fopen, and the lines of the file.
  unfoldable pub wgroff : ℕ → Bool → Bool → List (List ℕ) → Run
  unfolding handle_lines fputs
  wgroff argc exists opens lines =
      let converted = then_run (handle_lines lines start) (λ g. fputs (footer g.date_copy) g) in
      if not (argc == 2)
      then usage
      else (if not exists then missing else (if opens then converted else unreadable))
