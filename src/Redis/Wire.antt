-- ===== src/Redis/Wire.antt =====
-- What a server writes for a value, in the protocol's form, is read back as that value.
use vpma.Prelude.{
  true, ℕ, zero, suc, ◌+◌, ◌^◌, ◌≤◌, ◌<◌, ◌≡◌, ◌≢◌, refl, Bool, false, none, some, List, [], ◌∷◌,
  ◌++◌, append_assoc, arith, ltb, ◌==◌, ℤ, pos, negsuc, length, All, if◌then◌else◌,
}
use vpma.Exporter.{Text}
use vpma.Redis.{
  Memory, RedisValue, simple_string, error, integer, bulk_string, array, nil, RedisValues, empty,
  also, got, ◌>>=◌, or_protocol_error, prepend, line_loop, after_cr, read_line, read_exact,
  read_number, read_text, read_bulk, read_items, read_array, read_body, read_response, crlf,
}
use vpma.Redis.Numbers.{show_i64, IsI64, parse_i64-show_i64, show_i64-ascii}

unfoldable pub count : RedisValues → ℕ
count empty = 0
count (also v vs) = suc (count vs)

-- The form of each value, by its first byte.
unfoldable mutual
  pub wire : RedisValue → List ℕ
  wire (simple_string s) = 43 ∷ (s ++ crlf)
  wire (error s) = 45 ∷ (s ++ crlf)
  wire (integer i) = 58 ∷ (show_i64 i ++ crlf)
  wire (bulk_string none) = 36 ∷ (show_i64 (negsuc 0) ++ crlf)
  wire (bulk_string (some s)) = 36 ∷ (show_i64 (pos (length s)) ++ (crlf ++ (s ++ crlf)))
  wire (array vs) = 42 ∷ (show_i64 (pos (count vs)) ++ (crlf ++ wire_all vs))
  wire nil = 36 ∷ (show_i64 (negsuc 0) ++ crlf)

  pub wire_all : RedisValues → List ℕ
  wire_all empty = []
  wire_all (also v vs) = wire v ++ wire_all vs

-- How deep arrays are nested, counting the value itself.
unfoldable mutual
  pub depth : RedisValue → ℕ
  depth (array vs) = depth_all vs + 1
  depth _ = 1

  pub depth_all : RedisValues → ℕ
  depth_all empty = 0
  depth_all (also v vs) = let d = depth v in let e = depth_all vs in if ltb d e then e else d

module _ (lossy : List ℕ → Text) (memory : Memory) where
  -- Values that the protocol has: lines without a carriage return, texts of UTF-8, numbers of i64,
  -- lengths that can be allocated.
  -- The missing bulk string is `nil`.
  unfoldable mutual
    pub IsWire : RedisValue → Type 0
    IsWire (simple_string s) = All (λ b. b ≢ 13) s × (lossy s ≡ s)
    IsWire (error s) = All (λ b. b ≢ 13) s × (lossy s ≡ s)
    IsWire (integer i) = IsI64 i
    IsWire (bulk_string none) = ⊥
    IsWire (bulk_string (some s)) =
        (length s < 2 ^ 63) × (lossy s ≡ s) × (memory.bytes (length s) ≡ true)
    IsWire (array vs) = (count vs < 2 ^ 63) × (memory.values (count vs) ≡ true) × AreWire vs
    IsWire nil = Unit {0}

    pub AreWire : RedisValues → Type 0
    AreWire empty = Unit {0}
    AreWire (also v vs) = IsWire v × AreWire vs

both_le : (a b n : ℕ) → (if ltb a b then b else a) ≤ n → (a ≤ n) × (b ≤ n)
both_le a b n l = (ground (arith, l), ground (arith, l))

depth_pos : (v : RedisValue) → 0 < depth v
unfolding depth
depth_pos (simple_string s) = omega arith
depth_pos (error s) = omega arith
depth_pos (integer i) = omega arith
depth_pos (bulk_string s) = omega arith
depth_pos (array vs) = omega arith
depth_pos nil = omega arith

module _ (lossy : List ℕ → Text) (times_out : Bool) (memory : Memory)
    (ascii : (s : List ℕ) → All (λ b. b < 128) s → lossy s ≡ s) where
  line_loop_lem :
      (s rest : List ℕ)
      → All (λ b. b ≢ 13) s
      → line_loop lossy times_out memory (s ++ (crlf ++ rest)) ≡ got (s, rest)
  unfolding line_loop after_cr prepend
  line_loop_lem [] rest h = refl
  line_loop_lem (b ∷ s) rest h =
      let other : (b == 13) ≡ false = ground (arith, h.0) in
      rw (line_loop_lem s rest h.1, other) refl

  read_line_lem :
      (s rest : List ℕ)
      → All (λ b. b ≢ 13) s
      → lossy s ≡ s
      → read_line lossy times_out memory ((s ++ crlf) ++ rest) ≡ got (s, rest)
  unfolding read_line
  read_line_lem s rest h e = rw (append_assoc s crlf rest, line_loop_lem s rest h, ◌>>=◌, e) refl

  read_number_lem :
      (i : ℤ) (rest : List ℕ)
      → IsI64 i
      → read_number lossy times_out memory ((show_i64 i ++ crlf) ++ rest) ≡ got (i, rest)
  unfolding read_number or_protocol_error
  read_number_lem i rest small =
      let (low, no_cr) = show_i64-ascii i small in
      rw
        (
          read_line_lem (show_i64 i) rest no_cr (ascii (show_i64 i) low),
          ◌>>=◌,
          parse_i64-show_i64 i small,
        )
        refl

  read_exact_lem :
      (s rest : List ℕ) → read_exact lossy times_out memory (length s) (s ++ rest) ≡ got (s, rest)
  unfolding read_exact prepend
  read_exact_lem [] rest = refl
  read_exact_lem (b ∷ s) rest = rw (read_exact_lem s rest) refl

  read_bulk_lem :
      (s rest : List ℕ)
      → lossy s ≡ s
      → memory.bytes (length s) ≡ true
      → read_bulk lossy times_out memory (pos (length s)) ((s ++ crlf) ++ rest)
        ≡ got (bulk_string (some s), rest)
  unfolding read_bulk read_text
  read_bulk_lem s rest e room =
      rw
        (
          room,
          append_assoc s crlf rest,
          read_exact_lem s (crlf ++ rest),
          ◌>>=◌,
          read_exact_lem crlf rest,
          e,
        )
        refl

  read_bulk_nil :
      (n : ℕ) (rest : List ℕ) → read_bulk lossy times_out memory (negsuc n) rest ≡ got (nil, rest)
  unfolding read_bulk
  read_bulk_nil n rest = refl

  -- A number that begins a value of which more follows.
  read_head :
      (i : ℤ) (more rest : List ℕ)
      → IsI64 i
      → read_number lossy times_out memory ((show_i64 i ++ (crlf ++ more)) ++ rest)
        ≡ got (i, more ++ rest)
  read_head i more rest small =
      rw (← append_assoc (show_i64 i) crlf more, append_assoc (show_i64 i ++ crlf) more rest)
        (read_number_lem i (more ++ rest) small)

  mutual
    unfolding wire wire_all IsWire AreWire depth depth_all count read_response read_body read_items
        read_array

    read_response-wire_lem :
        (v : RedisValue) (rest : List ℕ) (calls : ℕ)
        → IsWire lossy memory v
        → depth v ≤ calls
        → read_response lossy times_out memory calls (wire v ++ rest) ≡ got (v, rest)
    read_response-wire_lem v rest zero h l = absurd (omega (arith, l, depth_pos v))
    read_response-wire_lem (simple_string s) rest (suc f) h l =
        rw (read_line_lem s rest h.0 h.1, ◌>>=◌) refl
    read_response-wire_lem (error s) rest (suc f) h l =
        rw (read_line_lem s rest h.0 h.1, ◌>>=◌) refl
    read_response-wire_lem (integer i) rest (suc f) h l = rw (read_number_lem i rest h, ◌>>=◌) refl
    read_response-wire_lem (bulk_string none) rest (suc f) h l = absurd h
    read_response-wire_lem (bulk_string (some s)) rest (suc f) h l =
        rw (read_head (pos (length s)) (s ++ crlf) rest h.0, ◌>>=◌, read_bulk_lem s rest h.1 h.2)
          refl
    read_response-wire_lem (array vs) rest (suc f) h l =
        rw
          (
            read_head (pos (count vs)) (wire_all vs) rest h.0,
            ◌>>=◌,
            h.1,
            read_items-wire_all_lem vs rest f h.2 (omega (arith, l)),
            ◌>>=◌,
          )
          refl
    read_response-wire_lem nil rest (suc f) h l =
        rw (read_number_lem (negsuc 0) rest (omega arith), ◌>>=◌) (read_bulk_nil 0 rest)

    read_items-wire_all_lem :
        (vs : RedisValues) (rest : List ℕ) (calls : ℕ)
        → AreWire lossy memory vs
        → depth_all vs ≤ calls
        → read_items lossy times_out memory
            (read_response lossy times_out memory calls)
            (count vs)
            (wire_all vs ++ rest)
          ≡ got (vs, rest)
    read_items-wire_all_lem empty rest calls h l = refl
    read_items-wire_all_lem (also v vs) rest calls h l =
        let (first, others) = both_le (depth v) (depth_all vs) calls l in
        rw
          (
            append_assoc (wire v) (wire_all vs) rest,
            read_response-wire_lem v (wire_all vs ++ rest) calls h.0 first,
            ◌>>=◌,
            read_items-wire_all_lem vs rest calls h.1 others,
            ◌>>=◌,
          )
          refl

  -- Whatever follows it, the text that the protocol has for a value is read as exactly that value,
  -- where the stack holds as many nested calls as the value is deep, and what follows is left. The conditions are those of
  -- the protocol, that its lengths can be allocated, and that the decoding of UTF-8 keeps ASCII and the texts of the value.
  pub read_response-wire :
      (v : RedisValue) (rest : List ℕ) (calls : ℕ)
      → IsWire lossy memory v
      → depth v ≤ calls
      → read_response lossy times_out memory calls (wire v ++ rest) ≡ got (v, rest)
  read_response-wire v rest calls h l = read_response-wire_lem v rest calls h l
