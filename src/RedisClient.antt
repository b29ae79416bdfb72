-- ===== src/RedisClient.antt =====
-- The operations of sgx_vm/src/redis_store.rs on a connection. What the server does with a command
-- is an argument: the state of the server after it, and the response or the error of `command`.
-- `hex::decode` and the decimal text of an f64 are arguments as well.
pub mod Latest
pub mod Insert
pub mod Inserted
mod Examples
use vpma.Prelude.{
  ℕ, zero, suc, ◌+◌, ◌^◌, Bool, true, false, not, ◌||◌, Option, none, some, List, [], ◌∷◌, ◌++◌,
  map, ltb, ◌==◌, ◌===◌, if◌then◌else◌, ℤ, length, take, drop, get_or,
}
use vpma.Crypto.{Crypto, zero32}
use vpma.Text.Numbers.{show_u64}
use vpma.Merkle.{EnergyRecord, MerkleNode}
use vpma.Blockchain.{Block}
use vpma.Exporter.{Text}
use vpma.Redis.{
  RedisError, auth_failed, command_failed, RedisValue, simple_string, array, RedisValues, empty,
  also, is_ok, as_int, as_string, digits_below,
}
use vpma.Redis.Numbers.{show_i64}

-- What an operation comes to: the state of the server, with a value or an error.
pub data Ran {ℓ} (σ : Type 0) (A : Type ℓ) : Type ℓ where
  ran : σ → A → Ran σ A
  failed : σ → RedisError → Ran σ A

-- An operation on a server.
abbrev pub Action : Type 0 → Type 0 → Type 0
Action σ A = σ → Ran σ A

abbrev pub after : {σ A B : Type 0} → Ran σ A → (A → Action σ B) → Ran σ B
after (ran s a) f = f a s
after (failed s e) f = failed s e

infixl 5 ◌>>=◌
abbrev pub ◌>>=◌ : {σ A B : Type 0} → Action σ A → (A → Action σ B) → Action σ B
m >>= f = λ s. after (m s) f

abbrev pub pure : {σ A : Type 0} → A → Action σ A
pure a = λ s. ran s a

abbrev pub throw : {σ A : Type 0} → RedisError → Action σ A
throw e = λ s. failed s e

-- The elements of an array as a list.
unfoldable pub elements : RedisValues → List RedisValue
elements empty = []
elements (also v vs) = v ∷ elements vs

-- "AUTH" and "SELECT"
abbrev auth_command : Text
auth_command = 65 ∷ 85 ∷ 84 ∷ 72 ∷ []

abbrev select_command : Text
select_command = 83 ∷ 69 ∷ 76 ∷ 69 ∷ 67 ∷ 84 ∷ []

-- "PING", "PONG", "SET", "GET", "HSET", "RPUSH", "INCR", "HGET", "HGETALL" and "KEYS"
abbrev ping_command : Text
ping_command = 80 ∷ 73 ∷ 78 ∷ 71 ∷ []

abbrev pong_text : Text
pong_text = 80 ∷ 79 ∷ 78 ∷ 71 ∷ []

abbrev set_command : Text
set_command = 83 ∷ 69 ∷ 84 ∷ []

abbrev get_command : Text
get_command = 71 ∷ 69 ∷ 84 ∷ []

abbrev pub hset_command : Text
hset_command = 72 ∷ 83 ∷ 69 ∷ 84 ∷ []

abbrev pub rpush_command : Text
rpush_command = 82 ∷ 80 ∷ 85 ∷ 83 ∷ 72 ∷ []

abbrev pub incr_command : Text
incr_command = 73 ∷ 78 ∷ 67 ∷ 82 ∷ []

abbrev pub hget_command : Text
hget_command = 72 ∷ 71 ∷ 69 ∷ 84 ∷ []

abbrev hgetall_command : Text
hgetall_command = 72 ∷ 71 ∷ 69 ∷ 84 ∷ 65 ∷ 76 ∷ 76 ∷ []

abbrev pub keys_command : Text
keys_command = 75 ∷ 69 ∷ 89 ∷ 83 ∷ []

-- "block:*"
abbrev pub block_pattern : Text
block_pattern = 98 ∷ 108 ∷ 111 ∷ 99 ∷ 107 ∷ 58 ∷ 42 ∷ []

-- "vm_name", "block_number" and "chained_root"
abbrev pub vm_name_field : Text
vm_name_field = 118 ∷ 109 ∷ 95 ∷ 110 ∷ 97 ∷ 109 ∷ 101 ∷ []

abbrev pub block_number_field : Text
block_number_field = 98 ∷ 108 ∷ 111 ∷ 99 ∷ 107 ∷ 95 ∷ 110 ∷ 117 ∷ 109 ∷ 98 ∷ 101 ∷ 114 ∷ []

abbrev pub chained_root_field : Text
chained_root_field = 99 ∷ 104 ∷ 97 ∷ 105 ∷ 110 ∷ 101 ∷ 100 ∷ 95 ∷ 114 ∷ 111 ∷ 111 ∷ 116 ∷ []

-- The configuration that `init` reads.
pub record RedisConfig : Type 0 where
  pub username : Option Text
  pub password : Option Text
  pub db : ℕ

unfoldable pub is_pong : RedisValue → Bool
is_pong (simple_string s) = s === pong_text
is_pong _ = false

-- The loop of `hgetall`: pairs, of which those of two texts are kept.
unfoldable pub pairs_of : List RedisValue → List (Text × Text)
pairs_of [] = []
pairs_of (k ∷ []) = []
pairs_of (k ∷ v ∷ rest) = pair (as_string k) (as_string v) (pairs_of rest)
  where
    pair : Option Text → Option Text → List (Text × Text) → List (Text × Text)
    pair (some key) (some val) ps = (key, val) ∷ ps
    pair _ _ ps = ps

unfoldable pub collect_pairs : RedisValue → List (Text × Text)
collect_pairs (array arr) = pairs_of (elements arr)
collect_pairs _ = []

-- The loop of `keys`.
unfoldable pub push_text : Option Text → List Text → List Text
push_text none ts = ts
push_text (some t) ts = t ∷ ts

unfoldable pub texts_of : List RedisValue → List Text
texts_of [] = []
texts_of (v ∷ vs) = push_text (as_string v) (texts_of vs)

unfoldable pub collect_texts : RedisValue → List Text
collect_texts (array arr) = texts_of (elements arr)
collect_texts _ = []

-- The arguments of HSET after the key.
unfoldable pub field_args : List (Text × Text) → List Text
field_args [] = []
field_args ((field, value) ∷ fields) = field ∷ value ∷ field_args fields

-- `parse::<u64>`
unfoldable pub parse_u64 : Text → Option ℕ
parse_u64 [] = none
parse_u64 (b ∷ bs) = if b == 43 then digits_below (2 ^ 64) bs else digits_below (2 ^ 64) (b ∷ bs)

-- `copy_from_slice` where the text decodes to 32 bytes.
unfoldable pub root_or_zero : Option (List ℕ) → List ℕ
root_or_zero none = zero32
root_or_zero (some bytes) = if length bytes == 32 then bytes else zero32

-- latest_block_num and latest_block_key, which are set together.
abbrev pub Candidate : Type 0
Candidate = Option (ℕ × Text)

-- `latest_block_num.is_none() || block_num > latest_block_num.unwrap()`
unfoldable pub take_newer : Candidate → Text → Option ℕ → Candidate
take_newer best key none = best
take_newer none key (some block_num) = some (block_num, key)
take_newer (some (n, k)) key (some block_num) =
    if ltb n block_num then some (block_num, key) else some (n, k)

unfoldable pub parse_field : Option Text → Option ℕ
parse_field none = none
parse_field (some block_num_str) = parse_u64 block_num_str

unfoldable pub is_vm : Text → Option Text → Bool
is_vm vm_name none = false
is_vm vm_name (some stored_vm) = stored_vm === vm_name

module _ (σ : Type 0) (exec : σ → List Text → Ran σ RedisValue) where
  command : List Text → Action σ RedisValue
  command args = λ s. exec s args

  expect_ok : RedisError → RedisValue → Action σ Bool
  expect_ok e resp = if is_ok resp then pure true else throw e

  or_failed : Option ℤ → Action σ ℤ
  or_failed none = throw command_failed
  or_failed (some i) = pure i

  authenticate : Option Text → Option Text → Action σ Bool
  authenticate (some username) (some password) =
      command (auth_command ∷ username ∷ password ∷ []) >>= expect_ok auth_failed
  authenticate none (some password) =
      command (auth_command ∷ password ∷ []) >>= expect_ok auth_failed
  authenticate _ none = pure true

  pub init : RedisConfig → Action σ Bool
  init config = do
    done' ← authenticate config.username config.password
    if ltb 0 config.db
        then (command (select_command ∷ show_u64 config.db ∷ []) >>= expect_ok command_failed)
        else pure true

  pub ping : Action σ Bool
  ping = do resp ← command (ping_command ∷ []); pure (is_pong resp)

  pub set : Text → Text → Action σ Bool
  set key value = do resp ← command (set_command ∷ key ∷ value ∷ []); pure (is_ok resp)

  pub get : Text → Action σ (Option Text)
  get key = do resp ← command (get_command ∷ key ∷ []); pure (as_string resp)

  pub hset : Text → List (Text × Text) → Action σ ℤ
  hset key fields = do
    resp ← command (hset_command ∷ key ∷ field_args fields)
    or_failed (as_int resp)

  pub rpush : Text → List Text → Action σ ℤ
  rpush key values = do resp ← command (rpush_command ∷ key ∷ values); or_failed (as_int resp)

  pub incr : Text → Action σ ℤ
  incr key = do resp ← command (incr_command ∷ key ∷ []); or_failed (as_int resp)

  pub hget : Text → Text → Action σ (Option Text)
  hget key field = do resp ← command (hget_command ∷ key ∷ field ∷ []); pure (as_string resp)

  pub hgetall : Text → Action σ (List (Text × Text))
  hgetall key = do resp ← command (hgetall_command ∷ key ∷ []); pure (collect_pairs resp)

  pub keys : Text → Action σ (List Text)
  keys pattern' = do resp ← command (keys_command ∷ pattern' ∷ []); pure (collect_texts resp)

  -- The body of the loop over the keys.
  pub consider : Text → Candidate → Text → Action σ Candidate
  consider vm_name best key = do
    stored_vm ← hget key vm_name_field
    if is_vm vm_name stored_vm
        then (do
          block_num_str ← hget key block_number_field
          pure (take_newer best key (parse_field block_num_str)))
        else pure best

  pub latest_loop : Text → Candidate → List Text → Action σ Candidate
  latest_loop vm_name best [] = pure best
  latest_loop vm_name best (key ∷ block_keys) = do
    next ← consider vm_name best key
    latest_loop vm_name next block_keys

  module _ (decode : Text → Option (List ℕ)) where
    pub root_of : Option Text → List ℕ
    root_of none = zero32
    root_of (some chained_root_hex) = root_or_zero (decode chained_root_hex)

    pub with_root : Candidate → Action σ (Option (ℕ × List ℕ))
    with_root none = pure none
    with_root (some (n, key)) = do
      chained_root_hex ← hget key chained_root_field
      pure (some (n, root_of chained_root_hex))

    pub get_latest_block_state : Text → Action σ (Option (ℕ × List ℕ))
    get_latest_block_state vm_name = do
      block_keys ← keys block_pattern
      if length block_keys == 0
          then pure none
          else (latest_loop vm_name none block_keys >>= with_root)
