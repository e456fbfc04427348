-- ===== src/Unix/Tests.antt =====
-- The theorems about wgroff, wman and wapropos at concrete files, and runs of the programs.
use cs537projects.Base.{
  ℕ, ◌+◌, ◌<◌, ◌≡◌, refl, Bool, true, List, [], ◌∷◌, ◌++◌, length, replicate, false, some, arith,
  get_or, if◌then◌else◌, ◌==◌,
}
use cs537projects.Unix.Wman.{
  File, absent, contents, no_entry_in, prints, wman, Searched, wman-Searched,
}
use cs537projects.Unix.Apropos.{
  name_header, description_header, scan_lines, fresh_manual, wapropos, nothing_appropriate, listed,
}
use cs537projects.Unix.Apropos.Found.{Scanned, scan_lines-fresh_manual}
use cs537projects.CString.{atoi, starts_with}
use cs537projects.Unix.Convert.{line, convert_line}
use cs537projects.Unix.Convert.Passes.{slashes}
use cs537projects.Unix.Convert.Result.{convert_by_passes, convert_line-convert_by_passes}
use cs537projects.Unix.Groff.{null_file, wgroff, title, footer}
use cs537projects.Unix.Groff.Title.{IsTitle, length-title-footer}
use cs537projects.Unix.Groff.Document.{body, AllRoom}
use cs537projects.Unix.Groff.Page.{page, wgroff-page}

-- "/fBa//b"
abbrev marked : List ℕ
marked = b'/' ∷ b'f' ∷ b'B' ∷ b'a' ∷ b'/' ∷ b'/' ∷ b'b' ∷ []

slashes-marked : slashes marked ≡ 3
unfolding slashes
slashes-marked = refl

-- The sequence for bold, and one slash.
convert_line_test : convert_line 4 marked ≡ line (27 ∷ b'[' ∷ b'1' ∷ b'm' ∷ b'a' ∷ b'/' ∷ b'b' ∷ [])
unfolding convert_line starts_with
convert_line_test = refl

marked_room : length marked + slashes marked < 1024
marked_room = omega (arith, slashes-marked)

convert_line-convert_by_passes_example : convert_line 4 marked ≡ convert_by_passes marked
convert_line-convert_by_passes_example =
    convert_line-convert_by_passes 4 marked (omega (arith, slashes-marked)) (omega arith)

abbrev command_ab : List ℕ
command_ab = b'a' ∷ b'b' ∷ []

abbrev section_1 : List ℕ
section_1 = b'1' ∷ []

-- "2023-09-19"
abbrev some_day : List ℕ
some_day = b'2' ∷ b'0' ∷ b'2' ∷ b'3' ∷ b'-' ∷ b'0' ∷ b'9' ∷ b'-' ∷ b'1' ∷ b'9' ∷ []

-- A pattern that asks for ten bytes.
abbrev ten_bytes : List ℕ → Bool
ten_bytes s = length s == 10

abbrev any_file : List ℕ → Bool
any_file s = true

abbrev title_text : List ℕ
title_text =
    b'.' ∷ b'T' ∷ b'H' ∷ 32 ∷ (command_ab ++ (32 ∷ (section_1 ++ (32 ∷ (some_day ++ (10 ∷ []))))))

title_text-IsTitle : IsTitle ten_bytes any_file command_ab section_1 some_day title_text
unfolding atoi cs537projects.CString.is_space cs537projects.CString.is_digit
title_text-IsTitle = record {
  command_word = (omega arith, (refl, (refl, tt)));
  section_word = (omega arith, (refl, tt));
  date_word = (
    omega arith,
    (refl, (refl, (refl, (refl, (refl, (refl, (refl, (refl, (refl, (refl, tt)))))))))),
  );
  section_low = refl;
  section_high = refl;
  dated = refl;
  created = refl;
  narrow = omega arith;
  text = refl;
}

-- ".SH x\n"
abbrev section_text : List ℕ
section_text = b'.' ∷ b'S' ∷ b'H' ∷ 32 ∷ b'x' ∷ 10 ∷ []

abbrev page_lines : List (List ℕ)
page_lines = section_text ∷ marked ∷ []

slashes-section_text : slashes section_text ≡ 0
unfolding slashes
slashes-section_text = refl

page_lines_room : AllRoom page_lines
page_lines_room = (omega (arith, slashes-section_text), (omega (arith, slashes-marked), tt))

wgroff-page_example :
    wgroff ten_bytes any_file 2 true true (title_text ∷ page_lines)
    ≡ page command_ab section_1 some_day 2 (body 2 page_lines)
wgroff-page_example =
    wgroff-page ten_bytes any_file command_ab section_1 some_day title_text page_lines
      title_text-IsTitle page_lines_room

length-title-footer_example :
    (length (title command_ab section_1) ≡ 81) × (length (footer some_day) ≡ 81)
length-title-footer_example = length-title-footer command_ab section_1 some_day (omega arith) refl

-- A comment before the title: the title is then a text line, written through NULL.
comment_first_test :
    wgroff ten_bytes any_file 2 true true ((b'#' ∷ []) ∷ title_text ∷ []) ≡ null_file
unfolding wgroff starts_with convert_line
comment_first_test = refl

-- Section 2 alone has pages, of three bytes.
abbrev second_only : List ℕ → File
second_only s = if get_or s 15 0 == b'2' then contents (b'o' ∷ b'k' ∷ 10 ∷ []) else absent

wman-Searched_example : Searched second_only 1 10 command_ab (wman second_only (command_ab ∷ []))
wman-Searched_example = wman-Searched second_only command_ab (omega arith)

wman_tests :
    (wman second_only (command_ab ∷ []) ≡ prints (b'o' ∷ b'k' ∷ 10 ∷ []))
    × (wman second_only (section_1 ∷ command_ab ∷ []) ≡ no_entry_in 1)
unfolding wman cs537projects.CString.is_space cs537projects.CString.is_digit
wman_tests = (refl, refl)

-- "       ab - cd\n"
abbrev one_liner_text : List ℕ
one_liner_text = replicate 7 32 ++ (b'a' ∷ b'b' ∷ 32 ∷ b'-' ∷ 32 ∷ b'c' ∷ b'd' ∷ 10 ∷ [])

abbrev manual_page : List (List ℕ)
manual_page = name_header ∷ one_liner_text ∷ description_header ∷ (b'x' ∷ b'y' ∷ 10 ∷ []) ∷ []

scan_lines-fresh_manual_example :
    Scanned (b'x' ∷ []) false manual_page (scan_lines (b'x' ∷ []) manual_page fresh_manual)
scan_lines-fresh_manual_example = scan_lines-fresh_manual (b'x' ∷ []) manual_page

-- A keyword of the name or of the description is found, one behind the dash is not.
wapropos_tests :
    (wapropos
        (some (b'x' ∷ []))
        (some (((b'a' ∷ b'b' ∷ b'.' ∷ b'1' ∷ []), some manual_page) ∷ []) ∷ [])
      ≡ listed (b'a' ∷ b'b' ∷ 32 ∷ b'(' ∷ b'1' ∷ b')' ∷ 32 ∷ b'-' ∷ 32 ∷ b'c' ∷ b'd' ∷ 10 ∷ []) 1)
    × (wapropos
          (some (b'd' ∷ []))
          (some (((b'a' ∷ b'b' ∷ b'.' ∷ b'1' ∷ []), some manual_page) ∷ []) ∷ [])
        ≡ nothing_appropriate)
unfolding wapropos
wapropos_tests = (refl, refl)
