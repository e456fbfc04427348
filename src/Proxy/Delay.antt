-- ===== src/Proxy/Delay.antt =====
-- `extractDelayTime` of p6/starter-code/proxyserver.c.
use cs537projects.Base.{
  ℕ, ◌-◌, ◌<◌, ◌^◌, ltb, Option, ◌≡◌, refl, ap, ◌∙◌, Bool, true, none, some, List, [], ◌∷◌, ◌++◌,
  arith, length, drop, take, length-append, if◌then◌else◌,
}
use cs537projects.Base.Int.{ℤ, pos, negsuc}
use cs537projects.CString.{
  strstr, atoi, NoByte, AllDigits, decimal_from, strstr-append, strstr-none, atoi-AllDigits,
  is_digit,
}

-- "Delay: "
abbrev pub delay_header : List ℕ
delay_header = b'D' ∷ b'e' ∷ b'l' ∷ b'a' ∷ b'y' ∷ b':' ∷ 32 ∷ []

abbrev header_tail : List ℕ
header_tail = b'e' ∷ b'l' ∷ b'a' ∷ b'y' ∷ b':' ∷ 32 ∷ []

abbrev pub newline : List ℕ
newline = 13 ∷ 10 ∷ []

-- The value from behind the header to the end of its line. `delayPosition + strlen(delayHeader)` is
-- never behind `lineEnd`, so the length does not wrap.
delay_value : List ℕ → List ℕ → List ℕ
delay_value found line_end = take (length found - length line_end - 7) (drop 7 found)

-- What `atoi` returns, where it returns.
in_int : ℤ → Option ℤ
in_int (pos n) = if ltb n (2 ^ 31) then some (pos n) else none
in_int (negsuc n) = if ltb n (2 ^ 31) then some (negsuc n) else none

delay_at : Bool → List ℕ → Option ℤ
unfolding delay_value in_int
delay_at malloc_ok found = elim (strstr found newline) [
  | none ↦ some (negsuc 0)
  | some line_end ↦
      if malloc_ok then in_int (atoi (delay_value found line_end)) else some (negsuc 0)
]

-- `malloc_ok` tells whether `malloc(delayLength + 1)` returns a block. `none`: `atoi` of a number that
-- is no int, which C leaves undefined.
pub extract_delay_time : Bool → List ℕ → Option ℤ
unfolding delay_at
extract_delay_time malloc_ok request = elim (strstr request delay_header) [
  | none ↦ some (negsuc 0)
  | some found ↦ delay_at malloc_ok found
]

take-append_left : (xs ys : List ℕ) → take (length xs) (xs ++ ys) ≡ xs
take-append_left [] ys = refl
take-append_left (x ∷ xs) ys = ap (◌∷◌ x) (take-append_left xs ys)

AllDigits-NoByte : (ds : List ℕ) → AllDigits ds → NoByte 13 ds
unfolding is_digit
AllDigits-NoByte [] h = tt
AllDigits-NoByte (d ∷ ds) h = (ground arith, AllDigits-NoByte ds h.1)

header_NoByte : (ds : List ℕ) → AllDigits ds → NoByte 13 (delay_header ++ ds)
header_NoByte ds h = (
  omega arith,
  (
    omega arith,
    (
      omega arith,
      (omega arith, (omega arith, (omega arith, (omega arith, AllDigits-NoByte ds h)))),
    ),
  ),
)

value_lem :
    (ds rest : List ℕ)
    → delay_value ((delay_header ++ ds) ++ (newline ++ rest)) (newline ++ rest) ≡ ds
unfolding delay_value
value_lem ds rest =
    ap (λ n. take n (ds ++ (newline ++ rest)))
      (omega (arith, length-append {0} ds (newline ++ rest)))
    ∙ take-append_left ds (newline ++ rest)

in_int_lem : (n : ℕ) → n < 2 ^ 31 → in_int (pos n) ≡ some (pos n)
unfolding in_int
in_int_lem n h = ground (arith, h)

delay_at_lem :
    (ds rest : List ℕ)
    → AllDigits ds
    → decimal_from 0 ds < 2 ^ 31
    → delay_at true (delay_header ++ (ds ++ (newline ++ rest))) ≡ some (pos (decimal_from 0 ds))
unfolding delay_at
delay_at_lem ds rest h small =
    rw (strstr-append 13 (10 ∷ []) (delay_header ++ ds) rest (header_NoByte ds h), delay_at)
      (ap in_int (ap atoi (value_lem ds rest) ∙ atoi-AllDigits ds h) ∙ in_int_lem _ small)

-- For a request with "Delay: " and decimal digits up to the end of the line, with no 'D' before it,
-- digits that denote a number below 2^31, and a malloc of the copy that succeeds, the delay is that
-- number.
pub extract_delay_time-digits :
    (before digits rest : List ℕ)
    → NoByte b'D' before
    → AllDigits digits
    → decimal_from 0 digits < 2 ^ 31
    → extract_delay_time true (before ++ (delay_header ++ (digits ++ (newline ++ rest))))
      ≡ some (pos (decimal_from 0 digits))
unfolding extract_delay_time
extract_delay_time-digits before digits rest h ds small =
    rw (strstr-append b'D' header_tail before (digits ++ (newline ++ rest)) h, extract_delay_time)
      (delay_at_lem digits rest ds small)

-- A request with no 'D' in it has no delay, and the server does not sleep for it.
extract_delay_time-none :
    (malloc_ok : Bool) (request : List ℕ)
    → NoByte b'D' request
    → extract_delay_time malloc_ok request ≡ some (negsuc 0)
unfolding extract_delay_time
extract_delay_time-none malloc_ok request h =
    rw (strstr-none b'D' header_tail request h, extract_delay_time)
