-- ===== src/Server/EnvFile.antt =====
-- The lines of an env file: `loadEnvFile` of cmd/server/env.go over the text of a line.
use yex_judge.Common.{
  ℕ, ◌+◌, ◌||◌, Option, none, some, List, [], ◌∷◌, Text, codes, text_eq, has_prefix, trim_space,
  drop, Result, ok, err, ◌>>=◌, if◌then◌else◌, ◌==◌,
}
use yex_judge.Server.{valid_env_key, parse_env_value}

pub data EnvError : Type 0 where
  invalid_entry invalid_value : ℕ → EnvError
  set_failed : Text → Text → EnvError
  read_failed : Text → EnvError

-- The process environment: its variables, an earlier pair of a name before a later one.
abbrev pub Variables : Type 0
Variables = List (Text × Text)

unfoldable pub lookup_env : Text → Variables → Option Text
lookup_env key [] = none
lookup_env key (v ∷ vs) = if text_eq v.0 key then some v.1 else lookup_env key vs

-- strings.Cut at `=`: `none` when there is none.
unfoldable pub cut_equals : Text → Option (Text × Text)
cut_equals [] = none
cut_equals (c ∷ s) =
    let rest = cut_equals s in
    if c == b'=' then some ([], s) else elim rest [ none ↦ none | some r ↦ some (c ∷ r.0, r.1) ]

-- A line without white space around it and without `export `.
unfoldable pub without_export : Text → Text
without_export line = if has_prefix line (codes "export ") then trim_space (drop 7 line) else line

-- A line with a key and a value: an existing variable wins. `refused` is the error of os.Setenv.
unfoldable pub set_entry :
    (Text → Option Text) → ℕ → Text → Text → Variables → Result EnvError Variables
set_entry refused n key value env = elim (parse_env_value value) [
  | none ↦ err (invalid_value n)
  | some v ↦ elim (lookup_env key env) [
    | some x ↦ ok env
    | none ↦ elim (refused key) [ some e ↦ err (set_failed key e) | none ↦ ok ((key, v) ∷ env) ]
  ]
]

unfoldable pub load_line : (Text → Option Text) → ℕ → Text → Variables → Result EnvError Variables
load_line refused n raw env =
    let line = trim_space raw in
    if text_eq line [] || has_prefix line (codes "#")
    then ok env
    else elim (cut_equals (without_export line)) [
      | none ↦ err (invalid_entry n)
      | some entry ↦
          if valid_env_key (trim_space entry.0)
          then set_entry refused n (trim_space entry.0) (trim_space entry.1) env
          else err (invalid_entry n)
    ]

-- The lines of the file, from the one numbered `n` + 1 on, and the scanner's own error.
unfoldable pub load_lines :
    (Text → Option Text) → Option Text → ℕ → List Text → Variables → Result EnvError Variables
load_lines refused scan_error n [] env = elim scan_error [
  | none ↦ ok env
  | some e ↦ err (read_failed e)
]
load_lines refused scan_error n (line ∷ lines) env = do
  env' ← load_line refused (n + 1) line env
  load_lines refused scan_error (n + 1) lines env'
