-- ===== src/Unix/Groff/Title.antt =====
-- The title line of wgroff (main of p1/tests/wgroff.c): its three words, and the line that it makes.
use cs537projects.Base.{
  ℕ, zero, suc, ◌+◌, ◌-◌, ◌*◌, ◌^◌, ◌≤◌, ◌<◌, ◌≡◌, refl, ap, Bool, true, false, some, List, [], ◌∷◌,
  ◌++◌, length, replicate, arith, length-append, lt→ltb,
}
use cs537projects.Base.Int.{pos, ltb_ℤ}
use cs537projects.CString.{starts_with, atoi, strtok, token_end}
use cs537projects.Unix.Groff.{
  Groff, going, title, title_name, title_mark, title_line, title_checked, title_spaces, is_blank,
  is_blank_or_newline, footer,
}

abbrev NoDelim : (ℕ → Bool) → List ℕ → Type 0
NoDelim delim [] = Unit {0}
NoDelim delim (c ∷ s) = (delim c ≡ false) × NoDelim delim s

-- A token: at least one byte, and no delimiter.
abbrev pub Word : (ℕ → Bool) → List ℕ → Type 0
Word delim s = (0 < length s) × NoDelim delim s

token_end-NoDelim :
    (delim : ℕ → Bool) (word : List ℕ) (d : ℕ) (rest : List ℕ)
    → NoDelim delim word
    → delim d ≡ true
    → token_end delim (word ++ (d ∷ rest)) ≡ (word, rest)
unfolding token_end
token_end-NoDelim delim [] d rest h e = rw e refl
token_end-NoDelim delim (c ∷ word) d rest h e =
    rw (h.0, token_end-NoDelim delim word d rest h.1 e) refl

strtok-Word :
    (delim : ℕ → Bool) (word : List ℕ) (d : ℕ) (rest : List ℕ)
    → Word delim word
    → delim d ≡ true
    → strtok delim (word ++ (d ∷ rest)) ≡ some (word, rest)
unfolding strtok
strtok-Word delim [] d rest h e = absurd (omega (arith, h.0))
strtok-Word delim (c ∷ word) d rest h e =
    rw (h.1.0, token_end-NoDelim delim word d rest h.1.1 e) refl

length-replicate : (n c : ℕ) → length (replicate n c) ≡ n
length-replicate zero c = refl
length-replicate (suc n) c = ap suc (length-replicate n c)

title_spaces-narrow :
    (command section : List ℕ)
    → 2 * (length command + length section + 2) ≤ 80
    → title_spaces command section ≡ 80 - 2 * (length command + length section + 2)
title_spaces-narrow command section h = omega arith

length-title_name :
    (command section : List ℕ)
    → length (title_name command section) ≡ length command + length section + 2
length-title_name command section = omega (
  arith,
  length-append command (b'(' ∷ (section ++ (b')' ∷ []))),
  length-append section (b')' ∷ []),
)

-- The title is exactly 80 columns wide, and a newline, whenever both names fit; a date of ten bytes
-- makes the last line as wide.
pub length-title-footer :
    (command section date : List ℕ)
    → 2 * (length command + length section + 2) ≤ 80
    → length date ≡ 10
    → (length (title command section) ≡ 81) × (length (footer date) ≡ 81)
unfolding title
length-title-footer command section date h ten =
    let name : List ℕ = title_name command section in
    let spaces : List ℕ = replicate (title_spaces command section) 32 in
    (
      omega (
        arith,
        h,
        length-title_name command section,
        title_spaces-narrow command section h,
        length-replicate (title_spaces command section) 32,
        length-append name (10 ∷ []),
        length-append spaces (name ++ (10 ∷ [])),
        length-append name (spaces ++ (name ++ (10 ∷ []))),
      ),
      omega (arith, ten, length-append date (replicate 35 32 ++ (10 ∷ []))),
    )

-- With names too long for 80 columns the count of spaces wraps around to a huge number.
title_spaces-wide :
    (command section : List ℕ)
    → 80 < 2 * (length command + length section + 2)
    → length command + length section < 1024
    → 2 ^ 31 ≤ title_spaces command section
title_spaces-wide command section h short = omega arith

module _ (date_ok creates : List ℕ → Bool) where
  -- A first line that follows the format: ".TH <command> <section> <date>".
  pub record IsTitle (command section date s : List ℕ) : Type 0 where
    pub command_word : Word is_blank command
    pub section_word : Word is_blank section
    pub date_word : Word is_blank_or_newline date
    pub section_low : ltb_ℤ (atoi section) (pos 1) ≡ false
    pub section_high : ltb_ℤ (pos 9) (atoi section) ≡ false
    pub dated : date_ok date ≡ true
    pub created : creates (command ++ (b'.' ∷ section)) ≡ true
    pub narrow : 2 * (length command + length section + 2) ≤ 80
    pub text : s ≡ title_mark ++ (command ++ (32 ∷ (section ++ (32 ∷ (date ++ (10 ∷ []))))))

  abbrev titled : List ℕ → List ℕ → List ℕ → Groff → Groff
  titled command section date g = record g {
    output = some (title command section);
    output_filename = command ++ (b'.' ∷ section);
    date_copy = date;
  }

  title_checked-IsTitle :
      (command section date s : List ℕ) (g : Groff)
      → IsTitle command section date s
      → title_checked date_ok creates command section date g ≡ going (titled command section date g)
  unfolding title_checked
  title_checked-IsTitle command section date s g h =
      let spaces = title_spaces-narrow command section h.narrow in
      rw
        (
          h.section_low,
          h.section_high,
          h.dated,
          h.created,
          lt→ltb (title_spaces command section) (2 ^ 31) (omega (arith, spaces)),
        )
        refl

  pub title_line-IsTitle :
      (command section date s : List ℕ) (g : Groff)
      → IsTitle command section date s
      → title_line date_ok creates s g ≡ going (titled command section date g)
  unfolding title_line starts_with
  title_line-IsTitle command section date s g h =
      let after_section = date ++ (10 ∷ []) in
      let after_command = section ++ (32 ∷ after_section) in
      rw
        (
          h.text,
          strtok-Word is_blank command 32 after_command h.command_word refl,
          strtok-Word is_blank section 32 after_section h.section_word refl,
          strtok-Word is_blank_or_newline date 10 [] h.date_word refl,
        )
        (title_checked-IsTitle command section date s g h)
