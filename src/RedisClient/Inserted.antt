-- ===== src/RedisClient/Inserted.antt =====
-- The batches of `insert_block` hold every record and every node, and no command is long.
use vpma.Prelude.{ℤ, ℕ, ◌≤◌, ◌<◌, List, [], ◌∷◌, ◌++◌, length, drop, All}
use mathlib.Core.Option as Option
use vpma.Crypto.{Crypto}
use vpma.Blockchain.{Block}
use vpma.Exporter.{Text}
use vpma.Redis.{RedisValue, integer}
use vpma.RedisClient.{Ran, ran, field_args, incr_command, hset_command}
use vpma.RedisClient.Insert.{
  counter_key, block_prefix, block_fields, all_record_commands, all_node_commands,
}

-- The arguments of some commands, without the name and the key of each, in order.
abbrev pub payload : List (List Text) → List Text
payload [] = []
payload (args ∷ commands) = drop 2 args ++ payload commands

-- At least one argument, and at most so many.
abbrev pub AreShort : ℕ → List (List Text) → Type 0
AreShort n commands = All (λ args. (2 < length args) × (length args ≤ n)) commands

module _ (c : Crypto) (show_f64 : ℕ → Text) where
  -- A server that takes down the commands and answers each with a number.
  abbrev pub logging : ℤ → List (List Text) → List Text → Ran (List (List Text)) RedisValue
  logging id log args = ran (log ++ (args ∷ [])) (integer id)

  -- Everything that an insertion sends.
  abbrev pub sent : Text → Block → List (List Text)
  sent id block =
      (incr_command ∷ counter_key ∷ [])
      ∷ (hset_command ∷ (block_prefix ++ id) ∷ field_args (block_fields c show_f64 block))
      ∷ (all_record_commands c show_f64 id block ++ all_node_commands c show_f64 id block)
