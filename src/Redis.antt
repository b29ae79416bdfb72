-- ===== src/Redis.antt =====
-- The protocol of sgx_vm/src/redis_store.rs: how commands are written to the connection and
-- responses are read from it. What the server sends is a list of bytes; after it the connection is
-- closed or times out. `from_utf8_lossy` and the sizes that can be allocated are arguments.
pub mod Numbers
pub mod Wire
pub mod Commands
pub mod Ends
mod Examples
use vpma.Prelude.{
  ℕ, zero, suc, ◌+◌, ◌-◌, ◌*◌, ◌^◌, Bool, true, false, ◌&&◌, Option, none, some, List, [], ◌∷◌,
  ◌++◌, ltb, leb, ◌==◌, ◌===◌, if◌then◌else◌, ℤ, pos, negsuc, length,
}
use vpma.Text.Numbers.{show_u64}
use vpma.Exporter.{Text}

-- The texts of the errors are left out.
pub data RedisError : Type 0 where
  connection_failed auth_failed command_failed protocol_error io_error : RedisError

mutual
  pub data RedisValue : Type 0 where
    simple_string : Text → RedisValue
    error : Text → RedisValue
    integer : ℤ → RedisValue
    bulk_string : Option Text → RedisValue
    array : RedisValues → RedisValue
    nil : RedisValue

  -- Vec<RedisValue>
  pub data RedisValues : Type 0 where
    empty : RedisValues
    also : RedisValue → RedisValues → RedisValues

-- "OK"
abbrev pub ok_text : Text
ok_text = 79 ∷ 75 ∷ []

pub is_ok : RedisValue → Bool
is_ok (simple_string s) = s === ok_text
is_ok _ = false

unfoldable pub as_int : RedisValue → Option ℤ
as_int (integer i) = some i
as_int _ = none

unfoldable pub as_string : RedisValue → Option Text
as_string (simple_string s) = some s
as_string (bulk_string s) = s
as_string _ = none

-- The numbers of bytes and of values that a vector can be allocated for.
pub record Memory : Type 0 where
  pub bytes : ℕ → Bool
  pub values : ℕ → Bool

-- What a read comes to: a value with the bytes that follow it, an error, a loop that never ends, an
-- allocation that panics or aborts, or nested calls that the stack does not hold.
pub data Reading {ℓ} (A : Type ℓ) : Type ℓ where
  got : A × List ℕ → Reading A
  fails : RedisError → Reading A
  spins : Reading A
  aborts : Reading A
  stack_overflow : Reading A

infixl 5 ◌>>=◌
abbrev pub ◌>>=◌ {ℓ κ} :
    {A : Type ℓ} {B : Type κ} → Reading A → (A × List ℕ → Reading B) → Reading B
got a >>= f = f a
fails e >>= f = fails e
spins >>= f = spins
aborts >>= f = aborts
stack_overflow >>= f = stack_overflow

-- The digits of `parse::<i64>`. Checked in the end instead of at each digit: the value only grows.
pub digit_loop : ℕ → Text → Option ℕ
digit_loop acc [] = some acc
digit_loop acc (b ∷ bs) =
    let rest = digit_loop (acc * 10 + (b - 48)) bs in if leb 48 b && leb b 57 then rest else none

pub below : ℕ → Text → Option ℕ → Option ℕ
below limit [] n = none
below limit (b ∷ bs) none = none
below limit (b ∷ bs) (some n) = if ltb n limit then some n else none

-- The digits of a text that is not empty, if their value is below the limit.
pub digits_below : ℕ → Text → Option ℕ
digits_below limit s = below limit s (digit_loop 0 s)

pub positive : Option ℕ → Option ℤ
positive none = none
positive (some n) = some (pos n)

pub negative : Option ℕ → Option ℤ
negative none = none
negative (some zero) = some (pos 0)
negative (some (suc n)) = some (negsuc n)

-- `parse::<i64>`
pub parse_i64 : Text → Option ℤ
parse_i64 [] = none
parse_i64 (b ∷ bs) =
    if b == 45
    then negative (digits_below (2 ^ 63 + 1) bs)
    else if b == 43
    then positive (digits_below (2 ^ 63) bs)
    else positive (digits_below (2 ^ 63) (b ∷ bs))

-- The answer of `parse` to a reading, `map_err(…)?`.
pub or_protocol_error : Option ℤ → List ℕ → Reading ℤ
or_protocol_error none rest = fails protocol_error
or_protocol_error (some i) rest = got (i, rest)

pub prepend : ℕ → Reading (List ℕ) → Reading (List ℕ)
prepend b (got (line, rest)) = got (b ∷ line, rest)
prepend b (fails e) = fails e
prepend b spins = spins
prepend b aborts = aborts
prepend b stack_overflow = stack_overflow

module _ (lossy : List ℕ → Text) (times_out : Bool) (memory : Memory) where
  -- The byte after a carriage return, whatever it is.
  after_cr : List ℕ → Reading (List ℕ)
  after_cr [] = if times_out then fails io_error else got ([], [])
  after_cr (b ∷ bs) = got ([], bs)

  -- The loop of `read_line`. On a closed connection each read leaves the last byte in place, which
  -- is no carriage return, and the loop goes on.
  pub line_loop : List ℕ → Reading (List ℕ)
  line_loop [] = if times_out then fails io_error else spins
  line_loop (b ∷ bs) = let rest = line_loop bs in if b == 13 then after_cr bs else prepend b rest

  pub read_line : List ℕ → Reading Text
  read_line bytes = line_loop bytes >>= (λ r. got (lossy r.0, r.1))

  pub read_exact : ℕ → List ℕ → Reading (List ℕ)
  read_exact zero bytes = got ([], bytes)
  read_exact (suc n) [] = fails (if times_out then io_error else protocol_error)
  read_exact (suc n) (b ∷ bytes) = prepend b (read_exact n bytes)

  read_number : List ℕ → Reading ℤ
  read_number bytes = read_line bytes >>= (λ r. or_protocol_error (parse_i64 r.0) r.1)

  read_text : ℕ → List ℕ → Reading RedisValue
  read_text n bytes = do
    data' ← read_exact n bytes
    crlf ← read_exact 2 data'.1
    got (bulk_string (some (lossy data'.0)), crlf.1)

  -- `vec![0u8; len as usize]`, then the bytes and the line end.
  read_bulk : ℤ → List ℕ → Reading RedisValue
  read_bulk (negsuc n) bytes = got (nil, bytes)
  read_bulk (pos n) bytes = if memory.bytes n then read_text n bytes else aborts

  -- The loop over the elements of an array.
  pub read_items : (List ℕ → Reading RedisValue) → ℕ → List ℕ → Reading RedisValues
  read_items reader zero bytes = got (empty, bytes)
  read_items reader (suc n) bytes = do
    v ← reader bytes
    vs ← read_items reader n v.1
    got (also v.0 vs.0, vs.1)

  -- `Vec::with_capacity(len as usize)`, then the elements.
  read_array : (List ℕ → Reading RedisValue) → ℤ → List ℕ → Reading RedisValue
  read_array reader (negsuc n) bytes = got (nil, bytes)
  read_array reader (pos n) bytes =
      if memory.values n then read_items reader n bytes >>= (λ r. got (array r.0, r.1)) else aborts

  -- The match on the first byte.
  pub read_body : (List ℕ → Reading RedisValue) → ℕ → List ℕ → Reading RedisValue
  read_body reader t bytes =
      if t == 43
      then read_line bytes >>= (λ r. got (simple_string r.0, r.1))
      else if t == 45
      then read_line bytes >>= (λ r. got (error r.0, r.1))
      else if t == 58
      then read_number bytes >>= (λ r. got (integer r.0, r.1))
      else if t == 36
      then read_number bytes >>= (λ r. read_bulk r.0 r.1)
      else if t == 42
      then read_number bytes >>= (λ r. read_array reader r.0 r.1)
      else fails protocol_error

  -- On the number of nested calls that the stack holds. Where the connection is closed the first byte stays 0.
  pub read_response : ℕ → List ℕ → Reading RedisValue
  read_response zero bytes = stack_overflow
  read_response (suc calls) [] = fails (if times_out then io_error else protocol_error)
  read_response (suc calls) (t ∷ bytes) = read_body (read_response calls) t bytes

abbrev pub crlf : List ℕ
crlf = 13 ∷ 10 ∷ []

-- "${}\r\n{}\r\n" for each argument
pub encode_args : List Text → List ℕ
encode_args [] = []
encode_args (arg ∷ args) =
    36 ∷ (show_u64 (length arg) ++ (crlf ++ (arg ++ (crlf ++ encode_args args))))

-- What `command` writes.
pub encode_command : List Text → List ℕ
encode_command args = 42 ∷ (show_u64 (length args) ++ (crlf ++ encode_args args))

-- What `pipeline` writes.
pub encode_pipeline : List (List Text) → List ℕ
encode_pipeline [] = []
encode_pipeline (args ∷ commands) = encode_command args ++ encode_pipeline commands

-- The loop over the results of `pipeline`.
pub read_results : (List ℕ → Reading RedisValue) → ℕ → List ℕ → Reading (List RedisValue)
read_results reader zero bytes = got ([], bytes)
read_results reader (suc n) bytes = do
  v ← reader bytes
  vs ← read_results reader n v.1
  got (v.0 ∷ vs.0, vs.1)
