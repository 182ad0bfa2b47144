-- ===== src/Server/Quoting.antt =====
-- What an env file (cmd/server/env.go) can do to the environment, and its quoted values.
use yex_judge.Common.{
  ℕ, ◌+◌, ◌||◌, Option, none, some, List, [], ◌∷◌, ◌++◌, Text, codes, text_eq, text_eq_iff,
  has_prefix, trim_space, ok, length-append, ◌≡◌, ◌≢◌, refl, ap, subst, ◌⊎◌, inl, inr, arith,
  Bool-cases, Option-cases, Result-cases,
}
use yex_judge.Server.{valid_env_key, parse_env_value, last_of, drop_last}
use yex_judge.Server.EnvFile.{
  Variables, lookup_env, cut_equals, without_export, set_entry, load_line, load_lines,
}

some-none : (v : Text) (o : Option Text) → o ≡ some v → o ≡ none → ⊥
some-none v o h k = absurd (ground arith)

pushed :
    (key x k v : Text) (env : Variables)
    → lookup_env key env ≡ none
    → lookup_env k env ≡ some v
    → lookup_env k ((key, x) ∷ env) ≡ some v
unfolding lookup_env
pushed key x k v env h l = elim (Bool-cases (text_eq key k)) [
  | inr e ↦ ground arith
  | inl e ↦
      let same : key ≡ k = (text_eq_iff key k).0 e in
      absurd (some-none v (lookup_env k env) l (subst (λ z. lookup_env z env ≡ none) same h))
]

set_entry-keeps :
    (refused : Text → Option Text) (n : ℕ) (key value : Text) (env env' : Variables) (k v : Text)
    → set_entry refused n key value env ≡ ok env'
    → lookup_env k env ≡ some v
    → lookup_env k env' ≡ some v
unfolding set_entry
set_entry-keeps refused n key value env env' k v h l = elim (Option-cases (parse_env_value value)) [
  | inl e ↦ absurd (ground arith)
  | inr (x, e) ↦ elim (Option-cases (lookup_env key env)) [
    | inr (y, e2) ↦
        let same : env ≡ env' = ground arith in subst (λ x. lookup_env k x ≡ some v) same l
    | inl e2 ↦ elim (Option-cases (refused key)) [
      | inr (y, e3) ↦ absurd (ground arith)
      | inl e3 ↦
          let same : (key, x) ∷ env ≡ env' = ground arith in
          subst (λ z. lookup_env k z ≡ some v) same (pushed key x k v env e2 l)
    ]
  ]
]

load_line-keeps :
    (refused : Text → Option Text) (n : ℕ) (raw : Text) (env env' : Variables) (k v : Text)
    → load_line refused n raw env ≡ ok env'
    → lookup_env k env ≡ some v
    → lookup_env k env' ≡ some v
unfolding load_line
load_line-keeps refused n raw env env' k v h l =
    let line = trim_space raw in
    elim (Bool-cases (text_eq line [] || has_prefix line (codes "#"))) [
      | inl e ↦ let same : env ≡ env' = ground arith in subst (λ x. lookup_env k x ≡ some v) same l
      | inr e ↦ elim (Option-cases (cut_equals (without_export line))) [
        | inl e2 ↦ absurd (ground arith)
        | inr (entry, e2) ↦ elim (Bool-cases (valid_env_key (trim_space entry.0))) [
          | inr e3 ↦ absurd (ground arith)
          | inl e3 ↦
              set_entry-keeps refused n (trim_space entry.0) (trim_space entry.1) env env' k v
                (ground arith) l
        ]
      ]
    ]

-- Loading an env file never changes a variable that is set: after any lines it has its value.
pub load_lines-keeps :
    (refused : Text → Option Text) (scan_error : Option Text) (n : ℕ) (lines : List Text)
    (env env' : Variables) (k v : Text)
    → load_lines refused scan_error n lines env ≡ ok env'
    → lookup_env k env ≡ some v
    → lookup_env k env' ≡ some v
unfolding load_lines
load_lines-keeps refused scan_error n [] env env' k v h l = elim (Option-cases scan_error) [
  | inr (e, q) ↦ absurd (ground arith)
  | inl q ↦ let same : env ≡ env' = ground arith in subst (λ x. lookup_env k x ≡ some v) same l
]
load_lines-keeps refused scan_error n (line ∷ lines) env env' k v h l =
    elim (Result-cases (load_line refused (n + 1) line env)) [
      | inr (e, q) ↦ absurd (ground arith)
      | inl (x, q) ↦
          load_lines-keeps refused scan_error (n + 1) lines x env' k v (ground arith)
            (load_line-keeps refused (n + 1) line env x k v q l)
    ]

last_of-append : (c d : ℕ) (s : Text) → last_of c (s ++ d ∷ []) ≡ d
unfolding last_of
last_of-append c d [] = refl
last_of-append c d (e ∷ s) = last_of-append e d s

drop_last-append : (d : ℕ) (s : Text) → drop_last (s ++ d ∷ []) ≡ s
unfolding drop_last
drop_last-append d [] = refl
drop_last-append d (c ∷ []) = refl
drop_last-append d (c ∷ e ∷ s) = ap (◌∷◌ c) (drop_last-append d (e ∷ s))

-- A value in single or double quotes is what stands between them, whatever that is; and a value
-- that does not begin with a quote is taken as it is.
pub parse_env_value-quotes :
    (c : ℕ) (s : Text)
    → (((c ≡ 39) ⊎ (c ≡ 34)) → parse_env_value (c ∷ (s ++ c ∷ [])) ≡ some s)
      × (c ≢ 39 → c ≢ 34 → parse_env_value (c ∷ s) ≡ some (c ∷ s))
unfolding parse_env_value
parse_env_value-quotes c s = (λ q. quoted q, λ a b. ground arith)
  where
    quoted : (c ≡ 39) ⊎ (c ≡ 34) → parse_env_value (c ∷ (s ++ c ∷ [])) ≡ some s
    quoted q = ground (arith, last_of-append c c s, drop_last-append c s, length-append s (c ∷ []))
