-- ===== src/Languages.antt =====
-- The languages of internal/judge/languages: spec.go, registry.go, c.go, cpp.go, python.go and the
-- embedded cpp_compile_flags.txt. A `Spec` is a record of what its methods return.
use yex_judge.Common.{
  ℕ, Bool, true, false, not, Option, none, some, List, [], ◌∷◌, ◌++◌, Text, codes, text_eq,
  is_space, if◌then◌else◌,
}

pub record Spec : Type 0 where
  pub name : Text
  pub source_file_name : Text
  pub needs_compile : Bool
  pub compile_image : Text
  pub compile_command : List Text
  pub run_command : List Text

-- strings.Fields.
abbrev push_rune : ℕ → List Text → Bool → List Text
push_rune c [] joins = (c ∷ []) ∷ []
push_rune c (w ∷ ws) true = (c ∷ w) ∷ ws
push_rune c (w ∷ ws) false = (c ∷ []) ∷ w ∷ ws

abbrev goes_on : Text → Bool
goes_on [] = false
goes_on (c ∷ s) = not (is_space c)

unfoldable pub fields : Text → List Text
fields [] = []
fields (c ∷ s) = let rest = fields s in if is_space c then rest else push_rune c rest (goes_on s)

abbrev pub cpp_compile_flags : Text
cpp_compile_flags = codes "-O2 -pipe -static -s"

unfoldable pub c_spec : Spec
c_spec = record {
  name = codes "c";
  source_file_name = codes "main.c";
  needs_compile = true;
  compile_image = codes "gcc:13";
  compile_command =
      codes "gcc"
      ∷ codes "-O2"
      ∷ codes "-pipe"
      ∷ codes "-static"
      ∷ codes "-s"
      ∷ codes "/workspace/main.c"
      ∷ codes "-o"
      ∷ codes "/workspace/main"
      ∷ [];
  run_command = codes "/workspace/main" ∷ [];
}

unfoldable pub cpp_spec : Spec
cpp_spec = record {
  name = codes "cpp";
  source_file_name = codes "main.cpp";
  needs_compile = true;
  compile_image = codes "yexjudge-cpp-compile:latest";
  compile_command =
      (codes "g++" ∷ fields cpp_compile_flags)
      ++ codes "/workspace/main.cpp" ∷ codes "-o" ∷ codes "/workspace/main" ∷ [];
  run_command = codes "/workspace/main" ∷ [];
}

unfoldable pub python_spec : Spec
python_spec = record {
  name = codes "python";
  source_file_name = codes "main.py";
  needs_compile = false;
  compile_image = [];
  compile_command = [];
  run_command = codes "python3" ∷ codes "/workspace/main.py" ∷ [];
}

-- NewRegistry fills a map by name, so a later spec replaces an earlier one of its name.
unfoldable pub get_spec : List Spec → Text → Option Spec
get_spec [] k = none
get_spec (s ∷ ss) k = elim (get_spec ss k) [
  | some x ↦ some x
  | none ↦ if text_eq s.name k then some s else none
]

unfoldable pub default_registry : List Spec
default_registry = c_spec ∷ cpp_spec ∷ python_spec ∷ []
