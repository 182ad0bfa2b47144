-- ===== src/Verdict/Supervisor.antt =====
-- `decodeSupervisorResults` (internal/judge/supervisor_executor.go): the results that the
-- supervisor prints, one JSON value behind the other. What encoding/json makes of the output is
-- the argument: a stream of values with what the code reads of each.
use yex_judge.Common.{
  ℕ, zero, suc, ◌+◌, ◌*◌, ℤ, pos, negsuc, eq_ℤ, to_nat, Bool, true, false, not, ◌||◌, Option, none,
  some, List, [], ◌∷◌, Text, codes, Result, ok, err, ◌>>=◌, ◌>>◌, reject_if, if◌then◌else◌, ◌≡◌,
  refl, ◌⊎◌, inl, inr, arith, Bool-cases, Result-cases, subst,
}
use yex_judge.Runner.{RunResult}

pub record SupervisorResult : Type 0 where
  pub stdout : Text
  pub stderr : Text
  pub exit_code : ℤ
  pub cpu_ms : ℤ
  pub max_rss_kb : ℤ
  pub timed_out : Bool
  pub output_limit : Bool

-- A JSON value: whether it is an object, the fields it has, and `json.Unmarshal` into the struct.
pub record Document : Type 0 where
  pub is_object : Bool
  pub has_field : Text → Bool
  pub decoded : Result Text SupervisorResult

-- `decoder.Decode`: io.EOF, another error, or a value and what follows it.
pub data Stream : Type 0 where
  eof : Stream
  broken : Text → Stream
  next : Document → Stream → Stream

pub data DecodeError : Type 0 where
  decode_failed : ℕ → Text → DecodeError
  not_object invalid_measurements : ℕ → DecodeError
  missing_field : ℕ → Text → DecodeError
  no_results trailing_data : DecodeError

abbrev is_negative : ℤ → Bool
is_negative (pos n) = false
is_negative (negsuc n) = true

abbrev pub required_fields : List Text
required_fields =
    codes "stdout"
    ∷ codes "stderr"
    ∷ codes "exitCode"
    ∷ codes "cpuMs"
    ∷ codes "maxRssKb"
    ∷ codes "timedOut"
    ∷ codes "outputLimit"
    ∷ []

check_fields : ℕ → (Text → Bool) → List Text → Result DecodeError (Unit {0})
check_fields n has [] = ok tt
check_fields n has (f ∷ fs) = do reject_if (not (has f)) (missing_field n f); check_fields n has fs

unfoldable pub to_run_result : SupervisorResult → RunResult
to_run_result r = record {
  stdout = r.stdout;
  stderr = r.stderr;
  exit_code = r.exit_code;
  timed_out = r.timed_out;
  output_limit_exceeded = r.output_limit;
  time_used = to_nat r.cpu_ms * 1_000_000;
  memory_used = to_nat r.max_rss_kb * 1024;
}

unfoldable pub check_result : ℕ → Result Text SupervisorResult → Result DecodeError RunResult
unfolding to_run_result
check_result n (err e) = err (decode_failed n e)
check_result n (ok r) = do
  reject_if (is_negative r.cpu_ms || is_negative r.max_rss_kb) (invalid_measurements n)
  ok (to_run_result r)

-- The `n`-th result of the output.
unfoldable pub decode_one : ℕ → Document → Result DecodeError RunResult
unfolding check_fields check_result
decode_one n d = do
  reject_if (not d.is_object) (not_object n)
  check_fields n d.has_field required_fields
  check_result n d.decoded

-- The supervisor stops behind such a result.
unfoldable pub ends_output : RunResult → Bool
ends_output r = not (eq_ℤ r.exit_code (pos 0)) || (r.timed_out || r.output_limit_exceeded)

abbrev ended : Option RunResult → Bool
ended none = false
ended (some r) = ends_output r

-- The loop, with the results still expected, the number read, and the last of them.
unfoldable pub decode_loop :
    ℕ → ℕ → Option RunResult → Stream → Result DecodeError (List RunResult × Stream)
unfolding decode_one
decode_loop zero n last s = ok ([], s)
decode_loop (suc left) n last eof =
    if ended last then ok ([], eof) else err (decode_failed (n + 1) (codes "EOF"))
decode_loop (suc left) n last (broken e) = err (decode_failed (n + 1) e)
decode_loop (suc left) n last (next d s) = do
  r ← decode_one (n + 1) d
  let more = decode_loop left (n + 1) (some r) s >>= λ rest. ok (r ∷ rest.0, rest.1)
  (if ends_output r then ok (r ∷ [], s) else more)

abbrev is_eof : Stream → Bool
is_eof eof = true
is_eof _ = false

abbrev is_empty : List RunResult → Bool
is_empty [] = true
is_empty _ = false

unfoldable pub decode_supervisor_results : ℕ → Stream → Result DecodeError (List RunResult)
decode_supervisor_results expected s = do
  r ← decode_loop expected 0 none s
  reject_if (is_empty r.0) no_results
  reject_if (not (is_eof r.1)) trailing_data
  ok r.0

-- The results are those of all `n` cases, or end with the first one that ends the output.
abbrev pub IsComplete : ℕ → List RunResult → Type 0
IsComplete zero [] = Unit
IsComplete zero (r ∷ rs) = ⊥
IsComplete (suc n) [] = ⊥
IsComplete (suc n) (r ∷ rs) =
    ((ends_output r ≡ true) × (rs ≡ [])) ⊎ ((ends_output r ≡ false) × IsComplete n rs)

decode_loop-IsComplete :
    (left n : ℕ) (last : Option RunResult) (s : Stream) (rs : List RunResult) (t : Stream)
    → ended last ≡ false
    → decode_loop left n last s ≡ ok (rs, t)
    → IsComplete left rs
unfolding decode_loop
decode_loop-IsComplete zero n last s [] t g h = tt
decode_loop-IsComplete zero n last s (r ∷ rs) t g h = absurd (ground arith)
decode_loop-IsComplete (suc left) n last eof rs t g h = absurd (ground arith)
decode_loop-IsComplete (suc left) n last (broken e) rs t g h = absurd (ground arith)
decode_loop-IsComplete (suc left) n last (next d s) [] t g h =
    elim (Result-cases (decode_one (n + 1) d)) [
      | inr (e, q) ↦ absurd (ground arith)
      | inl (r, q) ↦ elim (Result-cases (decode_loop left (n + 1) (some r) s)) [
        | inr (e, q2) ↦ absurd (ground arith)
        | inl (x, q2) ↦ absurd (ground arith)
      ]
    ]
decode_loop-IsComplete (suc left) n last (next d s) (r ∷ rs) t g h =
    elim (Result-cases (decode_one (n + 1) d)) [
      | inr (e, q) ↦ absurd (ground arith)
      | inl (r', q) ↦ elim (Bool-cases (ends_output r')) [
        | inl e ↦ inl (ground arith, ground arith)
        | inr e ↦ elim (Result-cases (decode_loop left (n + 1) (some r') s)) [
          | inr (x, q2) ↦ absurd (ground arith)
          | inl (x, q2) ↦
              let rest : x.0 ≡ rs = ground arith in
              inr (
                ground arith,
                subst (IsComplete left) rest
                    (decode_loop-IsComplete left (n + 1) (some r') s x.0 x.1 e q2),
              )
        ]
      ]
    ]

-- What the decoder accepts for `n` cases is either one result for each of them, of which only the
-- last may end the output, or the results up to the first one that does.
pub decode_supervisor_results-IsComplete :
    (n : ℕ) (s : Stream) (rs : List RunResult)
    → decode_supervisor_results n s ≡ ok rs
    → IsComplete n rs
unfolding decode_supervisor_results
decode_supervisor_results-IsComplete n s rs h = elim (Result-cases (decode_loop n 0 none s)) [
  | inr (e, q) ↦ absurd (ground arith)
  | inl (x, q) ↦
      let same : x.0 ≡ rs = ground arith in
      subst (IsComplete n) same (decode_loop-IsComplete n 0 none s x.0 x.1 refl q)
]
