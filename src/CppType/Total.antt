-- ===== src/CppType/Total.antt =====
-- The parser of internal/judge/harness/cpp/types/parser.go always ends: every step of its loop
-- consumes input, so the fuel of `parse_arguments` never runs out.
use yex_judge.Common.{
  ℕ, zero, suc, ◌+◌, ◌<◌, [], Text, codes, text_eq, skip_space, trim_space, Result, ok, err, ◌==◌,
  length, ◌≡◌, ◌≢◌, refl, ap, ◌∙◌, subst, List-cases, arith, Bool-cases, Option-cases, Result-cases,
  ◌⊎◌, inl, inr, ltb,
}
use yex_judge.CppType.Lengths.{
  after_long-le, after_std-le, consume_byte-lt, finish_type-le, parse_name-lt, skip_space-le,
  take_const-le,
}
use yex_judge.CppType.{
  TypeRef, TypeRefs, nil, snoc, Unicode, TypeError, out_of_fuel, consume_string, consume_byte,
  parse_name, after_std, after_long, take_const, parse_arguments, finish_named, parse_type, parse,
  max_type_length, max_type_depth, byte_length,
}

suc_injective : (i j : ℕ) → suc i ≡ suc j → i ≡ j
suc_injective i j h = omega arith

module _ (u : Unicode) where
  -- A parser that consumes, and never runs out of fuel.
  record Consumes (parse_one : Text → Result TypeError (TypeRef × Text)) : Type 0 where
    shorter : (s : Text) (r : TypeRef × Text) → parse_one s ≡ ok r → length r.1 < length s
    fuelled : (s : Text) → parse_one s ≢ err out_of_fuel

  module _ (parse_one : Text → Result TypeError (TypeRef × Text)) (one : Consumes parse_one)
      (name : Text) where
    parse_arguments-lt :
        (before : TypeRefs) (fuel : ℕ) (s : Text) (r : TypeRefs × Text)
        → parse_arguments u parse_one name before fuel s ≡ ok r
        → length r.1 < length s
    unfolding parse_arguments
    parse_arguments-lt before zero s r h = absurd (ground arith)
    parse_arguments-lt before (suc fuel) s r h = elim (Result-cases (parse_one s)) [
      | inr (e, q) ↦ absurd (ground arith)
      | inl (x, q) ↦
          let a = one.shorter s x q in
          let b = skip_space-le x.1 in
          elim (Option-cases (consume_byte b'>' (skip_space x.1))) [
            | inr (rest, e) ↦ ground (arith, consume_byte-lt b'>' (skip_space x.1) rest e)
            | inl e ↦ elim (Option-cases (consume_byte b',' (skip_space x.1))) [
              | inl e2 ↦ absurd (ground arith)
              | inr (rest, e2) ↦
                  let more = parse_arguments u parse_one name (snoc before x.0) fuel rest in
                  elim (Result-cases more) [
                    | inr (e3, q3) ↦ absurd (ground arith)
                    | inl (y, q3) ↦ ground (
                      arith,
                      consume_byte-lt b',' (skip_space x.1) rest e2,
                      parse_arguments-lt (snoc before x.0) fuel rest y q3,
                    )
                  ]
            ]
          ]
    ]

    parse_arguments_fuel :
        (before : TypeRefs) (fuel : ℕ) (s : Text)
        → length s < fuel
        → parse_arguments u parse_one name before fuel s ≢ err out_of_fuel
    unfolding parse_arguments
    parse_arguments_fuel before zero s lt h = absurd (omega arith)
    parse_arguments_fuel before (suc fuel) s lt h = elim (Result-cases (parse_one s)) [
      | inr (e, q) ↦ one.fuelled s (ground arith)
      | inl (x, q) ↦
          let a = one.shorter s x q in
          let b = skip_space-le x.1 in
          elim (Option-cases (consume_byte b'>' (skip_space x.1))) [
            | inr (rest, e) ↦ absurd (ground arith)
            | inl e ↦ elim (Option-cases (consume_byte b',' (skip_space x.1))) [
              | inl e2 ↦ absurd (ground arith)
              | inr (rest, e2) ↦
                  let c = consume_byte-lt b',' (skip_space x.1) rest e2 in
                  let more = parse_arguments u parse_one name (snoc before x.0) fuel rest in
                  elim (Result-cases more) [
                    | inr (e3, q3) ↦
                        parse_arguments_fuel (snoc before x.0) fuel rest (omega arith)
                          (ground arith)
                    | inl (y, q3) ↦ absurd (ground arith)
                  ]
            ]
          ]
    ]

  parse_name_fuel : (s : Text) → parse_name u s ≢ err out_of_fuel
  unfolding parse_name
  parse_name_fuel s h = absurd (ground arith)

  after_std_fuel : (name s : Text) → after_std u name s ≢ err out_of_fuel
  unfolding after_std
  after_std_fuel name s h = elim (Bool-cases (text_eq name (codes "std"))) [
    | inr e ↦ absurd (ground arith)
    | inl e ↦ elim (Option-cases (consume_string (codes "::") (skip_space s))) [
      | inl e2 ↦ absurd (ground arith)
      | inr (rest, e2) ↦ parse_name_fuel rest (ground arith)
    ]
  ]

  parse_type-shorter :
      (levels : ℕ) (s : Text) (r : TypeRef × Text)
      → ((k : ℕ) → levels ≡ suc k → Consumes (parse_type u k))
      → parse_type u levels s ≡ ok r
      → length r.1 < length s
  unfolding parse_type finish_named
  parse_type-shorter zero s r sub h = absurd (ground arith)
  parse_type-shorter (suc levels) s r sub h =
      let front = take_const u (skip_space s) in
      let a = skip_space-le s in
      let b = take_const-le u (skip_space s) in
      elim (Result-cases (parse_name u front.1)) [
        | inr (e, q) ↦ absurd (ground arith)
        | inl (first, q) ↦
            let c = parse_name-lt u front.1 first q in
            elim (Result-cases (after_std u first.0 first.1)) [
              | inr (e, q2) ↦ absurd (ground arith)
              | inl (proper, q2) ↦
                  let d = after_std-le u first.0 first.1 proper q2 in
                  let named = after_long u proper.0 proper.1 in
                  let e = after_long-le u proper.0 proper.1 in
                  let f = skip_space-le named.1 in
                  elim (Option-cases (consume_byte b'<' (skip_space named.1))) [
                    | inl q3 ↦
                        ground (arith, finish_type-le u named.0 nil front.0 (skip_space named.1))
                    | inr (inside, q3) ↦
                        let g = consume_byte-lt b'<' (skip_space named.1) inside q3 in
                        let args =
                          parse_arguments u (parse_type u levels) named.0 nil (length inside + 1)
                            inside in
                        elim (Bool-cases (levels == 0)) [
                          | inl q4 ↦ absurd (ground arith)
                          | inr q4 ↦ elim (Result-cases args) [
                            | inr (x, q5) ↦ absurd (ground arith)
                            | inl (x, q5) ↦
                                let i =
                                  parse_arguments-lt (parse_type u levels) (sub levels refl) named.0
                                    nil (length inside + 1) inside x q5 in
                                ground (arith, finish_type-le u named.0 x.0 front.0 x.1)
                          ]
                        ]
                  ]
            ]
      ]

  parse_type-fuelled :
      (levels : ℕ) (s : Text)
      → ((k : ℕ) → levels ≡ suc k → Consumes (parse_type u k))
      → parse_type u levels s ≢ err out_of_fuel
  unfolding parse_type finish_named
  parse_type-fuelled zero s sub h = absurd (ground arith)
  parse_type-fuelled (suc levels) s sub h =
      let front = take_const u (skip_space s) in
      elim (Result-cases (parse_name u front.1)) [
        | inr (e, q) ↦ parse_name_fuel front.1 (ground arith)
        | inl (first, q) ↦ elim (Result-cases (after_std u first.0 first.1)) [
          | inr (e, q2) ↦ after_std_fuel first.0 first.1 (ground arith)
          | inl (proper, q2) ↦
              let named = after_long u proper.0 proper.1 in
              elim (Option-cases (consume_byte b'<' (skip_space named.1))) [
                | inl q3 ↦ absurd (ground arith)
                | inr (inside, q3) ↦
                    let args =
                      parse_arguments u (parse_type u levels) named.0 nil (length inside + 1)
                        inside in
                    elim (Bool-cases (levels == 0)) [
                      | inl q4 ↦ absurd (ground arith)
                      | inr q4 ↦ elim (Result-cases args) [
                        | inr (x, q5) ↦
                            parse_arguments_fuel (parse_type u levels) (sub levels refl) named.0 nil
                              (length inside + 1) inside (omega arith) (ground arith)
                        | inl (x, q5) ↦ absurd (ground arith)
                      ]
                    ]
              ]
        ]
      ]

  parse_type-Consumes : (levels : ℕ) → Consumes (parse_type u levels)
  parse_type-Consumes zero = record {
    shorter = λ s r. parse_type-shorter zero s r (λ k e. absurd (omega (arith, e)));
    fuelled = λ s. parse_type-fuelled zero s (λ k e. absurd (omega (arith, e)));
  }
  parse_type-Consumes (suc levels) =
      let below = parse_type-Consumes levels in
      let sub : (k : ℕ) → suc levels ≡ suc k → Consumes (parse_type u k) =
        λ k e. subst (λ j. Consumes (parse_type u j)) (suc_injective levels k e) below in
      record {
        shorter = λ s r. parse_type-shorter (suc levels) s r sub;
        fuelled = λ s. parse_type-fuelled (suc levels) s sub;
      }

  parse_fuel : (declared : Text) → parse u declared ≢ err out_of_fuel
  unfolding parse
  parse_fuel declared h =
      let input = trim_space declared in
      elim (Bool-cases (ltb max_type_length (byte_length declared))) [
        | inl e ↦ absurd (ground arith)
        | inr e ↦ elim (Bool-cases (text_eq input [])) [
          | inl e2 ↦ absurd (ground arith)
          | inr e2 ↦ elim (Result-cases (parse_type u (suc max_type_depth) input)) [
            | inr (x, q) ↦ (parse_type-Consumes (suc max_type_depth)).fuelled input (ground arith)
            | inl (x, q) ↦ elim (List-cases (skip_space x.1)) [
              | inl e3 ↦ absurd (ground arith)
              | inr (c, rest, e3) ↦ absurd (ground arith)
            ]
          ]
        ]
      ]

  -- Every declared type is parsed or refused for a reason of the code: the loop over template
  -- arguments never runs out of fuel.
  pub parse_total :
      (declared : Text)
      → ((r : TypeRef) × (parse u declared ≡ ok r))
        ⊎ ((e : TypeError) × (parse u declared ≡ err e) × (e ≢ out_of_fuel))
  parse_total declared = elim (Result-cases (parse u declared)) [
    | inl (r, q) ↦ inl (r, q)
    | inr (e, q) ↦ inr (e, q, λ same. parse_fuel declared (q ∙ ap err same))
  ]
