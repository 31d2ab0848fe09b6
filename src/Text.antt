-- ===== src/Text.antt =====
-- What src uses of `str`: trimming, prefixes, splitting, ASCII lower case and reading numbers.
use Prim.Native.Char.{code}
use Prim.Native.String.{slice, ◌++◌ as ◌+++◌}
use paradown.Prelude.{
  ℕ, zero, suc, ◌+◌, ◌-◌, ◌*◌, ◌/◌, ◌%◌, String, Bool, true, false, ◌&&◌, ◌||◌, Option, some, none,
  ltb, leb, ◌==◌, str_eq, if◌then◌else◌, option_map,
}

-- char::is_whitespace
abbrev pub is_whitespace : ℕ → Bool
is_whitespace c =
    c == 32
    || leb 9 c && leb c 13
    || c == 133
    || c == 160
    || c == 5760
    || leb 8192 c && leb c 8202
    || c == 8232
    || c == 8233
    || c == 8239
    || c == 8287
    || c == 12288

abbrev pub is_empty_text : String → Bool
is_empty_text s = str_eq s ""

unfoldable pub trim_start : String → String
trim_start String.[] = ""
trim_start (String.◌∷◌ c s) =
    let rest = trim_start s in if is_whitespace (code c) then rest else String.◌∷◌ c s

unfoldable pub trim_end : String → String
trim_end String.[] = ""
trim_end (String.◌∷◌ c s) =
    let rest = trim_end s in
    if is_empty_text rest && is_whitespace (code c) then "" else String.◌∷◌ c rest

-- str::trim
unfoldable pub trim : String → String
unfolding trim_start trim_end
trim s = trim_end (trim_start s)

-- char::to_ascii_lowercase
abbrev pub lower_code : ℕ → ℕ
lower_code c = if leb 65 c && leb c 90 then c + 32 else c

-- str::eq_ignore_ascii_case
unfoldable pub eq_ignoring_case : String → String → Bool
eq_ignoring_case String.[] String.[] = true
eq_ignoring_case (String.◌∷◌ c s) (String.◌∷◌ d t) =
    lower_code (code c) == lower_code (code d) && eq_ignoring_case s t
eq_ignoring_case String.[] (String.◌∷◌ d t) = false
eq_ignoring_case (String.◌∷◌ c s) String.[] = false

-- str::strip_prefix
unfoldable pub strip_prefix : String → String → Option String
strip_prefix String.[] s = some s
strip_prefix (String.◌∷◌ c p) String.[] = none
strip_prefix (String.◌∷◌ c p) (String.◌∷◌ d s) =
    let rest = strip_prefix p s in if code c == code d then rest else none

-- str::split_once at a character, by its code.
unfoldable pub split_once : ℕ → String → Option (String × String)
split_once separator String.[] = none
split_once separator (String.◌∷◌ c s) =
    let rest = split_once separator s in
    if code c == separator
    then some ("", s)
    else option_map (λ (parts : String × String). (String.◌∷◌ c parts.0, parts.1)) rest

-- The digits of a number below `limit`, read behind `n`.
unfoldable pub read_digits : ℕ → ℕ → String → Option ℕ
read_digits limit n String.[] = some n
read_digits limit n (String.◌∷◌ c s) =
    let next = n * 10 + (code c - b'0') in
    let rest = read_digits limit next s in
    if ltb (code c) b'0' || ltb b'9' (code c) then none else if ltb next limit then rest else none

-- str::parse to an unsigned integer below `limit`: digits, behind a `+` if there is one.
unfoldable pub parse_unsigned : ℕ → String → Option ℕ
unfolding read_digits
parse_unsigned limit String.[] = none
parse_unsigned limit (String.◌∷◌ c s) =
    if code c == b'+' && is_empty_text s
    then none
    else read_digits limit 0 (if code c == b'+' then s else String.◌∷◌ c s)

-- str::starts_with on the text in lower case.
unfoldable pub starts_lower : String → String → Bool
starts_lower String.[] s = true
starts_lower (String.◌∷◌ c p) String.[] = false
starts_lower (String.◌∷◌ c p) (String.◌∷◌ d s) = code c == lower_code (code d) && starts_lower p s

-- str::contains on the text in lower case.
unfoldable pub contains_lower : String → String → Bool
unfolding starts_lower
contains_lower part String.[] = is_empty_text part
contains_lower part (String.◌∷◌ c s) =
    let rest = contains_lower part s in starts_lower part (String.◌∷◌ c s) || rest

-- str::rsplit_once by one character.
unfoldable pub rsplit_once : ℕ → String → Option (String × String)
rsplit_once separator String.[] = none
rsplit_once separator (String.◌∷◌ c s) = elim (rsplit_once separator s) [
  | some parts ↦ some (String.◌∷◌ c parts.0, parts.1)
  | none ↦ if code c == separator then some ("", s) else none
]

-- str::contains of one character.
unfoldable pub contains_char : ℕ → String → Bool
contains_char c String.[] = false
contains_char c (String.◌∷◌ d s) = code d == c || contains_char c s

abbrev digit : ℕ → String
digit n = slice "0123456789" n (n + 1)

-- str::to_ascii_lowercase
unfoldable pub to_lower : String → String
to_lower String.[] = ""
to_lower (String.◌∷◌ c s) =
    let rest = to_lower s in
    if leb 65 (code c) && leb (code c) 90
    then slice "abcdefghijklmnopqrstuvwxyz" (code c - 65) (code c - 64) +++ rest
    else String.◌∷◌ c rest

-- Display of an unsigned integer of at most as many digits as there are rounds.
unfoldable pub print_digits : ℕ → ℕ → String → String
print_digits zero n behind = behind
print_digits (suc rounds) n behind =
    let next = print_digits rounds (n / 10) (digit (n % 10) +++ behind) in
    if ltb n 10 then digit n +++ behind else next
