-- ===== src/Py/Text.antt =====
-- Python's `str` methods and conversions, by recursion on the text.
use Prim.Native.Char.{Char, code}
use Prim.Native.String.{String, ◌++◌, count}
use rke2_lab.Base.{
  ℕ, zero, suc, ◌+◌, ◌-◌, ◌*◌, ◌/◌, ◌%◌, Bool, true, false, ◌&&◌, ◌||◌, Option, none, some, List,
  [], ◌∷◌, ltb, leb, eqb, if◌then◌else◌,
}
use rke2_lab.Base.Int.{ℤ, pos, negsuc, neg_ℤ}

abbrev digit_text : ℕ → String
digit_text n =
    if eqb n 0
    then "0"
    else if eqb n 1
    then "1"
    else if eqb n 2
    then "2"
    else if eqb n 3
    then "3"
    else if eqb n 4
    then "4"
    else if eqb n 5
    then "5"
    else if eqb n 6
    then "6"
    else if eqb n 7
    then "7"
    else if eqb n 8
    then "8"
    else "9"

show_digits : ℕ → ℕ → String → String
show_digits zero n rest = rest
show_digits (suc fuel) n rest =
    let here = digit_text (n % 10) ++ rest in
    let more = show_digits fuel (n / 10) here in if ltb n 10 then here else more

-- `str(n)`; a number has no more digits than its successor.
unfoldable pub show_ℕ : ℕ → String
unfolding show_digits
show_ℕ n = show_digits (suc n) n ""

unfoldable pub show_ℤ : ℤ → String
unfolding show_ℕ
show_ℤ (pos n) = show_ℕ n
show_ℤ (negsuc n) = "-" ++ show_ℕ (suc n)

-- `s[:n]` and `s[n:]` for `n` not negative
unfoldable pub take_text : ℕ → String → String
take_text zero s = ""
take_text (suc n) String.[] = ""
take_text (suc n) (String.◌∷◌ c s) = String.◌∷◌ c (take_text n s)

unfoldable pub drop_text : ℕ → String → String
drop_text zero s = s
drop_text (suc n) String.[] = ""
drop_text (suc n) (String.◌∷◌ c s) = drop_text n s

-- `s[-n:]`
unfoldable pub last_text : ℕ → String → String
unfolding drop_text
last_text n s = drop_text (count s - n) s

-- The rest of a text that starts with a prefix.
unfoldable pub strip_prefix : String → String → Option String
strip_prefix String.[] s = some s
strip_prefix (String.◌∷◌ p ps) String.[] = none
strip_prefix (String.◌∷◌ p ps) (String.◌∷◌ c s) =
    if eqb (code p) (code c) then strip_prefix ps s else none

-- `s.startswith(p)`
unfoldable pub has_prefix : String → String → Bool
unfolding strip_prefix
has_prefix p s = elim (strip_prefix p s) [ none ↦ false | some _ ↦ true ]

-- `p in s`
unfoldable pub has_part : String → String → Bool
unfolding has_prefix
has_part p String.[] = has_prefix p ""
has_part p (String.◌∷◌ c s) = has_prefix p (String.◌∷◌ c s) || has_part p s

abbrev cons_first : Char → String × Option String → String × Option String
cons_first c (before, after) = (String.◌∷◌ c before, after)

-- The text before the first character `sep`, and the text after it if it occurs.
unfoldable pub break_at : ℕ → String → String × Option String
break_at sep String.[] = ("", none)
break_at sep (String.◌∷◌ c s) =
    if eqb (code c) sep then ("", some s) else cons_first c (break_at sep s)

abbrev last_part : String × Option String → String
last_part (before, none) = before
last_part (before, some after) = after

-- `s.split(":", 1)[-1]`
unfoldable pub after_colon : String → String
unfolding break_at
after_colon s = last_part (break_at b':' s)

abbrev first_of_rest : String × Option String → Option String
first_of_rest (before, none) = none
first_of_rest (before, some after) = some (break_at b'-' after).0

-- `s.split("-", 2)[1]`; `none` where it raises IndexError
unfoldable pub second_field : String → Option String
unfolding break_at
second_field s = first_of_rest (break_at b'-' s)

abbrev cons_part : Char → List String → List String
cons_part c [] = String.◌∷◌ c "" ∷ []
cons_part c (p ∷ ps) = String.◌∷◌ c p ∷ ps

-- `s.split(sep)` for a separator of one character
unfoldable pub split_on : ℕ → String → List String
split_on sep String.[] = "" ∷ []
split_on sep (String.◌∷◌ c s) =
    let rest = split_on sep s in if eqb (code c) sep then "" ∷ rest else cons_part c rest

-- ASCII white space; the program strips file contents and configuration values
abbrev is_space : ℕ → Bool
is_space c = eqb c 32 || (leb 9 c && leb c 13) || (leb 28 c && leb c 31)

unfoldable pub strip_left : String → String
strip_left String.[] = ""
strip_left (String.◌∷◌ c s) = if is_space (code c) then strip_left s else String.◌∷◌ c s

abbrev cons_unless_blank : Char → String → String
cons_unless_blank c String.[] = if is_space (code c) then "" else String.◌∷◌ c ""
cons_unless_blank c s = String.◌∷◌ c s

unfoldable pub strip_right : String → String
strip_right String.[] = ""
strip_right (String.◌∷◌ c s) = cons_unless_blank c (strip_right s)

-- `s.strip()`
unfoldable pub strip : String → String
unfolding strip_left strip_right
strip s = strip_left (strip_right s)

abbrev pub is_digit : ℕ → Bool
is_digit c = leb 48 c && leb c 57

-- Decimal digits with single underscores between them.
read_digits : Bool → ℕ → String → Option ℕ
read_digits after_digit n String.[] = if after_digit then some n else none
read_digits after_digit n (String.◌∷◌ c s) =
    let digit = read_digits true (n * 10 + (code c - 48)) s in
    let under = read_digits false n s in
    if is_digit (code c) then digit else if after_digit && eqb (code c) b'_' then under else none

abbrev negated : Option ℕ → Option ℤ
negated none = none
negated (some n) = some (neg_ℤ (pos n))

abbrev as_int : Option ℕ → Option ℤ
as_int none = none
as_int (some n) = some (pos n)

signed : String → Option ℤ
unfolding read_digits
signed String.[] = none
signed (String.◌∷◌ c s) =
    if eqb (code c) b'-'
    then negated (read_digits false 0 s)
    else if eqb (code c) b'+'
    then as_int (read_digits false 0 s)
    else as_int (read_digits false 0 (String.◌∷◌ c s))

-- `int(s)`; `none` where it raises ValueError
unfoldable pub int_of_text : String → Option ℤ
unfolding signed strip
int_of_text s = signed (strip s)

abbrev first_or : Char → String → Char
first_or d String.[] = d
first_or d (String.◌∷◌ c s) = c

abbrev lower_char : Char → Char
lower_char c =
    if leb 65 (code c) && leb (code c) 90
    then first_or c (drop_text (code c - 65) "abcdefghijklmnopqrstuvwxyz")
    else c

-- `s.lower()` on ASCII text
unfoldable pub lower : String → String
unfolding drop_text
lower String.[] = ""
lower (String.◌∷◌ c s) = String.◌∷◌ (lower_char c) (lower s)

-- `s.replace(old, new)` for an `old` that is not empty; the number counts characters of a match.
replace_from : String → String → ℕ → String → String
unfolding has_prefix
replace_from old new skip String.[] = ""
replace_from old new (suc skip) (String.◌∷◌ c s) = replace_from old new skip s
replace_from old new zero (String.◌∷◌ c s) =
    let matched = new ++ replace_from old new (count old - 1) s in
    let kept = String.◌∷◌ c (replace_from old new zero s) in
    if has_prefix old (String.◌∷◌ c s) then matched else kept

unfoldable pub replace : String → String → String → String
unfolding replace_from
replace old new s = replace_from old new 0 s

abbrev nonempty : String → List String → List String
nonempty String.[] ws = ws
nonempty w ws = w ∷ ws

abbrev break_word : String × List String → String × List String
break_word (w, ws) = ("", nonempty w ws)

abbrev grow_word : Char → String × List String → String × List String
grow_word c (w, ws) = (String.◌∷◌ c w, ws)

read_words : String → String × List String
read_words String.[] = ("", [])
read_words (String.◌∷◌ c s) =
    let rest = read_words s in if is_space (code c) then break_word rest else grow_word c rest

-- `s.split()`
unfoldable pub words : String → List String
unfolding read_words
words s = (break_word (read_words s)).1

read_number : ℕ → String → ℕ
read_number n String.[] = n
read_number n (String.◌∷◌ c s) =
    let rest = read_number (n * 10 + (code c - 48)) s in if is_digit (code c) then rest else n

-- The number of one or more digits at the start.
number_at : String → Option ℕ
unfolding read_number
number_at String.[] = none
number_at (String.◌∷◌ c s) =
    if is_digit (code c) then some (read_number 0 (String.◌∷◌ c s)) else none

number_after : Option String → Option ℕ
unfolding number_at
number_after none = none
number_after (some s) = number_at s

abbrev or_else {ℓ} : {A : Type ℓ} → Option A → Option A → Option A
or_else (some a) o = some a
or_else none o = o

-- `int(re.findall(re.escape(marker) + r"(\d+)", s)[-1])` for ASCII digits and a marker that does
-- not overlap itself; `none` where there is no match
unfoldable pub last_number : String → String → Option ℕ
unfolding number_after strip_prefix
last_number marker String.[] = number_after (strip_prefix marker "")
last_number marker (String.◌∷◌ c s) =
    or_else (last_number marker s) (number_after (strip_prefix marker (String.◌∷◌ c s)))

-- `re.search(re.escape(marker) + r"(\d+)", s)` with the number that it finds first
unfoldable pub first_number : String → String → Option ℕ
unfolding number_after strip_prefix
first_number marker String.[] = number_after (strip_prefix marker "")
first_number marker (String.◌∷◌ c s) =
    or_else (number_after (strip_prefix marker (String.◌∷◌ c s))) (first_number marker s)
