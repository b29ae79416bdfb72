-- ===== src/RedisClient/Examples.antt =====
-- A store with two blocks of a virtual machine, and a block to insert.
use mathlib.Core.Option as Option
use vpma.Prelude.{ℕ, Option, none, some, List, [], ◌∷◌, ◌===◌, if◌then◌else◌}
use vpma.Crypto.{zero32}
use vpma.Merkle.{EnergyRecord}
use vpma.Blockchain.{Block}
use vpma.Exporter.{Text}
use vpma.Redis.{RedisValue, array}
use vpma.Redis.Commands.{bulks}
use vpma.RedisClient.{Ran, ran, block_number_field, vm_name_field, hget_command}
use vpma.RedisClient.Latest.{View, answer}

abbrev vm : Text
vm = 97 ∷ []

-- Keys "1" and "2", with the numbers 9 and 10.
abbrev view : View
view = record {
  block_keys = (49 ∷ []) ∷ (50 ∷ []) ∷ [];
  field = λ key field.
      if field === vm_name_field
      then some vm
      else if field === block_number_field
      then (if key === (49 ∷ []) then some (57 ∷ []) else some (49 ∷ 48 ∷ []))
      else none;
}

on_fields : List Text → RedisValue
on_fields (key ∷ field ∷ rest) = answer (view.field key field)
on_fields _ = answer none

exec : Unit {0} → List Text → Ran (Unit {0}) RedisValue
exec s [] = ran s (answer none)
exec s (name ∷ args) =
    if name === hget_command then ran s (on_fields args) else ran s (array (bulks view.block_keys))

abbrev decode : Text → Option (List ℕ)
decode t = none

abbrev record_1 : EnergyRecord
record_1 = record {
  pid = 1;
  cpu_time = 2;
  energy_joules = 3;
  power_watts = 4;
  vm_name = vm;
  timestamp = 116 ∷ [];
}

abbrev block : Block
block = record {
  block_number = 0;
  vm_name = vm;
  merkle_root = zero32;
  prev_chained_root = zero32;
  chained_root = zero32;
  record_count = 2;
  timestamp = 116 ∷ [];
  records = record_1 ∷ record_1 ∷ [];
  leaf_hashes = zero32 ∷ [];
  internal_nodes = [];
  tree_height = 2;
}

abbrev show_f64 : ℕ → Text
show_f64 n = 46 ∷ []
