-- ===== src/Json/Tests.antt =====
-- Texts of small values.
use yex_judge.Common.{◌≡◌, refl, some, none, codes, ◌∷◌, [], text_eq}
use yex_judge.Json.{null, num, str, arr, obj, no_elems, elem, no_members, member}
use yex_judge.Json.Parse.{parse_json}

parse_object :
    parse_json (codes " {\"a\": [1, -2.5e3 ,null ] , \"b\\n\" :\"x\\u0041\\\"\" } ")
    ≡ some (
        obj (
          member
            (codes "a")
            (arr (elem (num (codes "1")) (elem (num (codes "-2.5e3")) (elem null no_elems))))
            (member (b'b' ∷ 10 ∷ []) (str (codes "xA\"")) no_members)))
unfolding parse_json text_eq
parse_object = refl

parse_bad : parse_json (codes "[1, 02]") ≡ none
unfolding parse_json
parse_bad = refl

parse_pair : parse_json (codes "\"\\ud83d\\ude00\"") ≡ some (str (0xF0 ∷ 0x9F ∷ 0x98 ∷ 0x80 ∷ []))
unfolding parse_json text_eq
parse_pair = refl
