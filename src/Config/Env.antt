-- ===== src/Config/Env.antt =====
-- What src/config.rs reads from the environment, a function from names to values.
use Prim.Native.Char.{code}
use paradown.Prelude.{
  ℕ, String, Bool, true, false, not, ◌||◌, Option, some, none, List, [], ◌∷◌, ◌==◌, str_eq, map,
  filter, if◌then◌else◌, u64_mod,
}
use paradown.Text.{trim, is_empty_text, to_lower, split_once, parse_unsigned, strip_prefix}
use paradown.Domain.Http.{HttpHeader, HttpAuth, basic}
use paradown.Config.{
  Checked, valid, invalid, invalid_env_value, LogLevel, error, warn, info, debug, Backend, memory,
  json_file, sqlite,
}

-- Option::filter to a text that is not empty.
abbrev non_empty : String → Option String
non_empty value = if is_empty_text value then none else some value

unfoldable pub read_env : (String → Option String) → String → Option String
unfolding trim
read_env env key = elim (env key) [ none ↦ none | some value ↦ non_empty (trim value) ]

abbrev bool_of_text : String → String → Checked (Option Bool)
unfolding to_lower
bool_of_text key value =
    let v = to_lower value in
    if str_eq v "1" || str_eq v "true" || str_eq v "yes" || str_eq v "on"
    then valid (some true)
    else if str_eq v "0" || str_eq v "false" || str_eq v "no" || str_eq v "off"
    then valid (some false)
    else invalid (invalid_env_value key value "expected boolean")

unfoldable pub parse_env_bool : (String → Option String) → String → Checked (Option Bool)
unfolding read_env bool_of_text
parse_env_bool env key = elim (read_env env key) [
  | none ↦ valid none
  | some value ↦ bool_of_text key value
]

-- parse_env_usize and parse_env_u64, of 64 bits both.
unfoldable pub parse_env_u64 : (String → Option String) → String → Checked (Option ℕ)
unfolding read_env parse_unsigned
parse_env_u64 env key = elim (read_env env key) [
  | none ↦ valid none
  | some value ↦ elim (parse_unsigned u64_mod value) [
    | some n ↦ valid (some n)
    | none ↦ invalid (invalid_env_value key value "expected unsigned integer")
  ]
]

unfoldable pub parse_storage_backend_env : String → Checked Backend
unfolding trim to_lower strip_prefix
parse_storage_backend_env value =
    if str_eq (to_lower (trim value)) "memory"
    then valid memory
    else elim (strip_prefix "sqlite:" value) [
      | some path ↦ valid (sqlite path)
      | none ↦ elim (strip_prefix "json:" value) [
        | some path ↦ valid (json_file path)
        | none ↦ invalid (
            invalid_env_value "PARADOWN_STORAGE_BACKEND" value
              "expected memory, sqlite:/path/to/db, or json:/path/to/file")
      ]
    ]

unfoldable pub parse_log_level : String → String → Checked LogLevel
unfolding trim to_lower
parse_log_level key value =
    let v = to_lower (trim value) in
    if str_eq v "error"
    then valid error
    else if str_eq v "warn" || str_eq v "warning"
    then valid warn
    else if str_eq v "info"
    then valid info
    else if str_eq v "debug"
    then valid debug
    else invalid (invalid_env_value key value "expected error, warn, info, or debug")

abbrev map_first : (String → String) → List String → List String
map_first f [] = []
map_first f (part ∷ parts) = f part ∷ parts

-- str::split by one character.
unfoldable pub split : ℕ → String → List String
split separator String.[] = "" ∷ []
split separator (String.◌∷◌ c s) =
    let rest = split separator s in
    if code c == separator then "" ∷ rest else map_first (String.◌∷◌ c) rest

-- The loop over the lines: those that are blank, of which `str::lines` drops the last, are skipped.
unfoldable pub headers_loop : String → List String → Checked (List HttpHeader)
unfolding trim split_once
headers_loop key [] = valid []
headers_loop key (raw_line ∷ raw_lines) =
    let rest = headers_loop key raw_lines in
    let line = trim raw_line in
    if is_empty_text line then rest else elim (split_once b':' line) [
      | none ↦
          invalid
            (invalid_env_value key line "expected one header per line in the form 'Name: Value'")
      | some parts ↦ elim rest [
        | invalid e ↦ invalid e
        | valid headers ↦ valid (record { name = trim parts.0; value = trim parts.1 } ∷ headers)
      ]
    ]

unfoldable pub parse_headers_env : String → String → Checked (List HttpHeader)
unfolding headers_loop split
parse_headers_env key value = headers_loop key (split 10 value)

unfoldable pub parse_csv_env : String → List String
unfolding trim split
parse_csv_env value = filter (λ item. not (is_empty_text item)) (map trim (split b',' value))

unfoldable pub parse_basic_auth_env : String → Checked HttpAuth
unfolding trim split_once
parse_basic_auth_env value =
    let parts : String × Option String = elim (split_once b':' value) [
      | some parts ↦ (trim parts.0, non_empty (trim parts.1))
      | none ↦ (trim value, none)
    ] in
    if is_empty_text parts.0
    then invalid (invalid_env_value "PARADOWN_BASIC_AUTH" value "expected username[:password]")
    else valid (basic parts.0 parts.1)
