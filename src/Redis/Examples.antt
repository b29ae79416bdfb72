-- ===== src/Redis/Examples.antt =====
-- A nested value on the wire, commands with line ends in an argument, and a response that is cut.
use vpma.Prelude.{◌++◌, ◌≤◌, ◌≡◌, refl, false, some, List, [], ◌∷◌, map, arith, negsuc, length}
use vpma.Exporter.{Text}
use vpma.Redis.{
  RedisValue, simple_string, integer, bulk_string, array, nil, empty, also, got, read_response,
  read_results, encode_pipeline, ok_text,
}
use vpma.Redis.Wire.{wire, count, depth, IsWire, read_response-wire}
use vpma.Redis.Commands.{raw, ample, request, read_results-encode_pipeline}

abbrev nested : RedisValue
nested = array (
    also (integer (negsuc 4)) (
      also (array (also (bulk_string (some (13 ∷ 10 ∷ []))) (also nil empty)))
        (also (simple_string ok_text) empty)))

nested-IsWire : IsWire raw ample nested
unfolding IsWire count
nested-IsWire = (
  omega arith,
  refl,
  (
    omega arith,
    (
      (omega arith, refl, ((omega arith, refl, refl), (tt, tt))),
      (((omega arith, (omega arith, tt)), refl), tt),
    ),
  ),
)

nested-depth : depth nested ≤ 3
unfolding depth
nested-depth = omega arith

read_response-wire_example :
    read_response raw false ample 3 (wire nested ++ (43 ∷ [])) ≡ got (nested, 43 ∷ [])
read_response-wire_example =
    read_response-wire raw false ample (λ s a. refl) nested (43 ∷ []) 3 nested-IsWire nested-depth

-- SET with a value that looks like another command, then PING.
abbrev commands : List (List Text)
commands =
    ((83 ∷ 69 ∷ 84 ∷ []) ∷ (97 ∷ []) ∷ (13 ∷ 10 ∷ 42 ∷ 49 ∷ 13 ∷ 10 ∷ []) ∷ [])
    ∷ ((80 ∷ 73 ∷ 78 ∷ 71 ∷ []) ∷ [])
    ∷ []

read_results-encode_pipeline_example :
    read_results
      (read_response raw false ample 2)
      (length commands)
      (encode_pipeline commands ++ [])
    ≡ got (map request commands, [])
read_results-encode_pipeline_example = read_results-encode_pipeline false commands [] (
  (omega arith, (omega arith, (omega arith, (omega arith, tt)))),
  ((omega arith, (omega arith, tt)), tt),
)
