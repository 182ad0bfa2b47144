-- ===== src/Program.antt =====
-- The C++ programs that the harness generates (internal/judge/harness/cpp). Their text is a list of
-- bytes; the C++ helpers that the serializer and the runtime types contribute are constants whose
-- wording plays no part, the argument `Sources`.
pub mod Requests
pub mod Functions
pub mod Classes
pub mod Generates
pub mod Generated
pub mod Modes
pub mod Tests
use yex_judge.Common.{
  ℕ, ◌+◌, ℤ, Bool, true, false, Option, none, some, List, [], ◌∷◌, ◌++◌, Text, codes, text_eq, join,
  Result, ok, err, ◌>>=◌, if◌then◌else◌, ◌||◌,
}
use yex_judge.Types.{FunctionParam}
use yex_judge.CppType.{Unicode}
use yex_judge.Adapters.{RuntimeType, Adapter, runtime, vector, optional, ValueError}
use yex_judge.Adapters.Registry.{Registry, RegistryError, resolve}

pub record Sources : Type 0 where
  pub serializer : Text
  pub runtime_source : RuntimeType → Text

abbrev pub concat : List Text → Text
concat [] = []
concat (t ∷ ts) = t ++ concat ts

-- A line of the program.
abbrev pub line : List Text → Text
line ts = concat ts ++ 10 ∷ []

abbrev pub lines : List Text → Text
lines [] = []
lines (t ∷ ts) = t ++ (10 ∷ lines ts)

pub data ProgramError : Type 0 where
  unresolved : RegistryError → ProgramError
  bad_argument : ℤ → ℕ → ValueError → ProgramError
  no_postconditions : ProgramError
  bad_postcondition : ValueError → ProgramError

abbrev pub resolved {ℓ} :
    {E : Type ℓ} → (RegistryError → E) → Result RegistryError Adapter → Result E Adapter
resolved f (ok a) = ok a
resolved f (err e) = err (f e)

-- The helper source of a type, which containers take from their elements.
unfoldable pub source_of : Sources → Adapter → Text
source_of s (runtime r) = s.runtime_source r
source_of s (vector a) = source_of s a
source_of s (optional a) = source_of s a
source_of s _ = []

unfoldable pub is_member : Text → List Text → Bool
is_member t [] = false
is_member t (u ∷ us) = text_eq u t || is_member t us

-- The sources of some types, each once; `seen` are those before.
unfoldable pub distinct_sources : Sources → List Adapter → List Text → List Text
unfolding source_of is_member
distinct_sources s [] seen = []
distinct_sources s (a ∷ as') seen =
    let t = source_of s a in
    let rest = distinct_sources s as' seen in
    let more = t ∷ distinct_sources s as' (t ∷ seen) in
    if text_eq t [] || is_member t seen then rest else more

-- SupportSource for a list of types that is not empty.
unfoldable pub support_source : Sources → List Adapter → Text
unfolding distinct_sources
support_source s selected = join (distinct_sources s selected []) (10 ∷ [])

abbrev pub headers : Text
headers = lines (codes "#include <bits/stdc++.h>" ∷ codes "using namespace std;" ∷ [] ∷ [])

-- The types that parameters resolve to.
unfoldable pub param_adapters :
    Unicode → Registry → List FunctionParam → Result RegistryError (List Adapter)
unfolding resolve
param_adapters u r [] = ok []
param_adapters u r (p ∷ ps) = do a ← resolve r u p.type; as' ← param_adapters u r ps; ok (a ∷ as')
