-- ===== src/Unix/Apropos.antt =====
-- p1/tests/wapropos.c: the manual's pages that have a keyword in their NAME or DESCRIPTION part. The
-- directories, their entries and the lines of the files are a parameter; a line is its bytes before
-- the NUL.
pub mod Found
use cs537projects.Base.{
  ℕ, zero, suc, ◌+◌, ◌-◌, ◌≡◌, Bool, true, false, ◌&&◌, ◌||◌, Option, none, some, List, [], ◌∷◌,
  ◌++◌, ◌==◌, ltb, if◌then◌else◌, length, drop,
}
use cs537projects.Base.Int.{ℤ, pos, negsuc, ◌+ℤ◌, sub_ℕ, leb_ℤ}
use cs537projects.CString.{starts_with, str_eq, strstr, strtok, token_end}

-- struct Manual without its section, and the variables of the loop over the lines.
pub record Manual : Type 0 where
  pub name : List ℕ
  pub name_one_liner : List ℕ
  pub in_name : Bool
  pub liner : ℤ
  pub in_description : Bool

-- "\033[1m"
abbrev pub bold : List ℕ
bold = 27 ∷ b'[' ∷ b'1' ∷ b'm' ∷ []

-- "\033[0m\n"
abbrev bold_end : List ℕ
bold_end = 27 ∷ b'[' ∷ b'0' ∷ b'm' ∷ 10 ∷ []

abbrev pub name_header : List ℕ
name_header = bold ++ (b'N' ∷ b'A' ∷ b'M' ∷ b'E' ∷ bold_end)

abbrev pub description_header : List ℕ
description_header =
    bold ++ (b'D' ∷ b'E' ∷ b'S' ∷ b'C' ∷ b'R' ∷ b'I' ∷ b'P' ∷ b'T' ∷ b'I' ∷ b'O' ∷ b'N' ∷ bold_end)

abbrev pub is_dash : ℕ → Bool
is_dash c = c == b'-'

-- A line as `strstr` sees it after `strtok` ended its first token with a NUL.
unfoldable pub cut : List ℕ → List ℕ
unfolding token_end
cut [] = []
cut (c ∷ s) = let rest = cut s in if is_dash c then c ∷ rest else (token_end is_dash (c ∷ s)).0

unfoldable pub after_header : List ℕ → Manual → Manual
unfolding str_eq starts_with
after_header line m =
    if str_eq line name_header
    then record m { in_name = true }
    else (if str_eq line description_header
        then record m { in_description = true }
        else (if starts_with bold line
            then record m { in_name = false; liner = pos 0; in_description = false }
            else m))

unfoldable pub count_line : Manual → Manual
unfolding ◌+ℤ◌
count_line m = if m.in_name then record m { liner = m.liner +ℤ pos 1 } else m

-- The name and the one-liner from the two sides of the dash.
unfoldable pub save_one_liner : List ℕ → Manual → Manual
unfolding strtok
save_one_liner line m = elim (strtok is_dash line) [
  | none ↦ m
  | some (token, rest) ↦ elim (strtok is_dash rest) [
    | none ↦ record m { name = token }
    | some (second, more) ↦ record m { name = token; name_one_liner = second }
  ]
]

unfoldable pub contains : List ℕ → List ℕ → Bool
unfolding strstr
contains keyword line = elim (strstr line keyword) [ none ↦ false | some at ↦ true ]

abbrev pub is_one : ℤ → Bool
is_one n = leb_ℤ n (pos 1) && leb_ℤ (pos 1) n

-- One round of the loop over the lines, and whether the keyword was found.
unfoldable pub scan_line : List ℕ → List ℕ → Manual → Manual × Bool
unfolding after_header count_line save_one_liner contains cut
scan_line keyword line m =
    let counted = count_line (after_header line m) in
    let saved = save_one_liner line counted in
    let inside = counted.in_description || counted.in_name in
    if is_one counted.liner
    then (saved, inside && contains keyword (cut line))
    else (counted, inside && contains keyword line)

-- The loop ends at the first line that has the keyword.
unfoldable pub scan_lines : List ℕ → List (List ℕ) → Manual → Option Manual
unfolding scan_line
scan_lines keyword [] m = none
scan_lines keyword (line ∷ lines) m =
    let scanned = scan_line keyword line m in
    let rest = scan_lines keyword lines scanned.0 in if scanned.1 then some scanned.0 else rest

abbrev pub fresh_manual : Manual
fresh_manual = record {
  name = [];
  name_one_liner = [];
  in_name = false;
  liner = negsuc 0;
  in_description = false;
}

-- What is printed; `stale` is a read of manual.name[7] behind the end of the name.
pub data Listing : Type 0 where
  asks_keyword : Listing
  no_directory : List ℕ → Listing
  no_file : List ℕ → Listing
  stale : Listing
  nothing_appropriate : Listing
  listed : List ℕ → ℕ → Listing

-- "%s(%c) -%s"
abbrev entry_text : ℕ → Manual → List ℕ
entry_text section m = drop 7 m.name ++ (b'(' ∷ section ∷ b')' ∷ 32 ∷ b'-' ∷ m.name_one_liner)

abbrev then_list : Listing → (List ℕ → ℕ → Listing) → Listing
then_list (listed out found) k = k out found
then_list asks_keyword k = asks_keyword
then_list (no_directory out) k = no_directory out
then_list (no_file out) k = no_file out
then_list stale k = stale
then_list nothing_appropriate k = nothing_appropriate

-- The last byte of a name.
abbrev last_byte : List ℕ → ℕ
last_byte [] = 0
last_byte (c ∷ []) = c
last_byte (c ∷ d ∷ s) = last_byte (d ∷ s)

-- "." and ".." and ".gitignore"
unfoldable pub skipped : List ℕ → Bool
unfolding str_eq
skipped d_name =
    str_eq d_name (b'.' ∷ [])
    || str_eq d_name (b'.' ∷ b'.' ∷ [])
    || str_eq d_name (b'.' ∷ b'g' ∷ b'i' ∷ b't' ∷ b'i' ∷ b'g' ∷ b'n' ∷ b'o' ∷ b'r' ∷ b'e' ∷ [])

-- One entry of a directory: its name, and its lines if fopen opens it.
unfoldable pub list_file : List ℕ → List ℕ → Option (List (List ℕ)) → List ℕ → ℕ → Listing
unfolding scan_lines skipped
list_file keyword d_name file out found =
    let opened : Listing = elim file [
      | none ↦ no_file out
      | some lines ↦ elim (scan_lines keyword lines fresh_manual) [
        | none ↦ listed out found
        | some m ↦
            if ltb (length m.name) 7
            then stale
            else listed (out ++ entry_text (last_byte d_name) m) (found + 1)
      ]
    ] in
    if skipped d_name then listed out found else opened

unfoldable pub list_directory :
    List ℕ → List (List ℕ × Option (List (List ℕ))) → List ℕ → ℕ → Listing
unfolding list_file
list_directory keyword [] out found = listed out found
list_directory keyword ((d_name, file) ∷ entries) out found =
    then_list (list_file keyword d_name file out found) (list_directory keyword entries)

-- The loop over man1 to man9; `none` is a directory that opendir cannot open.
unfoldable pub list_directories :
    List ℕ → List (Option (List (List ℕ × Option (List (List ℕ))))) → List ℕ → ℕ → Listing
unfolding list_directory
list_directories keyword [] out found = listed out found
list_directories keyword (none ∷ dirs) out found = no_directory out
list_directories keyword (some entries ∷ dirs) out found =
    then_list (list_directory keyword entries out found) (list_directories keyword dirs)

-- `main` with its first argument, if there is one.
unfoldable pub wapropos :
    Option (List ℕ) → List (Option (List (List ℕ × Option (List (List ℕ))))) → Listing
unfolding list_directories
wapropos none dirs = asks_keyword
wapropos (some keyword) dirs =
    then_list (list_directories keyword dirs [] 0)
      (λ out found. if found == 0 then nothing_appropriate else listed out found)
