-- ===== src/Redis/Commands.antt =====
-- What `command` and `pipeline` write is read back as the arguments, whatever bytes they hold.
use vpma.Prelude.{
  ℕ, suc, ◌^◌, ◌<◌, ◌≤◌, ◌≡◌, refl, ap, Bool, true, some, List, [], ◌∷◌, ◌++◌, map, append_assoc,
  arith, length, All,
}
use vpma.Exporter.{Text}
use vpma.Redis.{
  Memory, RedisValue, bulk_string, array, RedisValues, empty, also, got, ◌>>=◌, read_response,
  read_results, encode_args, encode_command, encode_pipeline, crlf,
}
use vpma.Text.Numbers.{show_u64}
use vpma.Redis.Numbers.{show_i64}
use vpma.Redis.Wire.{count, wire, wire_all, depth, depth_all, IsWire, AreWire, read_response-wire}

-- The arguments as the server takes them: an array of bulk strings.
abbrev pub bulks : List Text → RedisValues
bulks [] = empty
bulks (arg ∷ args) = also (bulk_string (some arg)) (bulks args)

-- Lengths of i64: those of slices are.
abbrev pub AreArgs : List Text → Type 0
AreArgs args = (length args < 2 ^ 63) × All (λ arg. length arg < 2 ^ 63) args

-- Bytes as they come, without decoding.
abbrev pub raw : List ℕ → Text
raw s = s

-- A server that can hold what it is sent.
abbrev pub ample : Memory
ample = record { bytes = λ n. true; values = λ n. true }

encode_args-wire_all : (args : List Text) → encode_args args ≡ wire_all (bulks args)
unfolding encode_args wire wire_all show_i64
encode_args-wire_all [] = refl
encode_args-wire_all (arg ∷ args) =
    rw
      (
        append_assoc (show_u64 (length arg)) (crlf ++ (arg ++ crlf)) (wire_all (bulks args)),
        append_assoc arg crlf (wire_all (bulks args)),
        encode_args-wire_all args,
      )
      refl

count-bulks : (args : List Text) → count (bulks args) ≡ length args
unfolding count
count-bulks [] = refl
count-bulks (arg ∷ args) = ap suc (count-bulks args)

bulks-AreWire :
    (args : List Text) → All (λ arg. length arg < 2 ^ 63) args → AreWire raw ample (bulks args)
unfolding AreWire IsWire
bulks-AreWire [] h = tt
bulks-AreWire (arg ∷ args) h = ((h.0, refl, refl), bulks-AreWire args h.1)

depth_all-bulks : (args : List Text) → depth_all (bulks args) ≤ 1
unfolding depth depth_all
depth_all-bulks [] = omega arith
depth_all-bulks (arg ∷ args) = ground (arith, depth_all-bulks args)

encode_command-wire : (args : List Text) → encode_command args ≡ wire (array (bulks args))
unfolding encode_command wire show_i64
encode_command-wire args = rw (count-bulks args, encode_args-wire_all args) refl

abbrev pub request : List Text → RedisValue
request args = array (bulks args)

request-IsWire : (args : List Text) → AreArgs args → IsWire raw ample (request args)
unfolding IsWire
request-IsWire args h = (rw (count-bulks args) h.0, refl, bulks-AreWire args h.1)

request-depth : (args : List Text) → depth (request args) ≤ 2
unfolding depth
request-depth args = omega (arith, depth_all-bulks args)

read_response-encode_command :
    (times_out : Bool) (args : List Text) (rest : List ℕ)
    → AreArgs args
    → read_response raw times_out ample 2 (encode_command args ++ rest) ≡ got (request args, rest)
read_response-encode_command times_out args rest h = rw (encode_command-wire args) (
    read_response-wire raw times_out ample (λ s a. refl) (request args) rest 2
      (request-IsWire args h) (request-depth args))

-- A server that reads as the protocol says and can hold what it is sent takes from what `pipeline` writes exactly the commands
-- with their arguments, in order, and nothing else, whatever bytes the arguments hold: no argument,
-- also one with line ends, becomes a command or ends one.
pub read_results-encode_pipeline :
    (times_out : Bool) (commands : List (List Text)) (rest : List ℕ)
    → All AreArgs commands
    → read_results
        (read_response raw times_out ample 2)
        (length commands)
        (encode_pipeline commands ++ rest)
      ≡ got (map request commands, rest)
unfolding read_results encode_pipeline
read_results-encode_pipeline times_out [] rest h = refl
read_results-encode_pipeline times_out (args ∷ commands) rest h =
    rw
      (
        append_assoc (encode_command args) (encode_pipeline commands) rest,
        read_response-encode_command times_out args (encode_pipeline commands ++ rest) h.0,
        ◌>>=◌,
        read_results-encode_pipeline times_out commands rest h.1,
      )
      refl
