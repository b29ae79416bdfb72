-- ===== src/RedisClient/Latest.antt =====
-- What `get_latest_block_state` finds in a store that answers reads.
use vpma.Prelude.{ℕ, ◌≤◌, ◌≡◌, ◌⊎◌, Option, none, some, List, [], ◌∷◌, All, if◌then◌else◌}
use vpma.Exporter.{Text}
use vpma.Redis.{RedisValue, bulk_string, array, nil}
use vpma.Redis.Commands.{bulks}
use vpma.RedisClient.{
  Ran, ran, Candidate, take_newer, parse_field, is_vm, root_of, hget_command, keys_command,
  block_pattern, vm_name_field, block_number_field, chained_root_field,
}

-- What the server answers for a field.
abbrev pub answer : Option Text → RedisValue
answer none = nil
answer (some t) = bulk_string (some t)

-- A store of blocks as the commands KEYS and HGET show it.
pub record View : Type 0 where
  pub block_keys : List Text
  pub field : Text → Text → Option Text

-- The number of a key that stands for a block of the virtual machine.
abbrev pub number_of : View → Text → Text → Option ℕ
number_of view vm_name key =
    if is_vm vm_name (view.field key vm_name_field)
    then parse_field (view.field key block_number_field)
    else none

abbrev AtMost : ℕ → Option ℕ → Type 0
AtMost n none = Unit {0}
AtMost n (some m) = m ≤ n

abbrev pub Among : Text → List Text → Type 0
Among key [] = ⊥
Among key (k ∷ ks) = (k ≡ key) ⊎ Among key ks

-- The key with the greatest number, if any has one.
pub data IsNewest (view : View) (vm_name : Text) (ks : List Text) : Candidate → Type 0 where
  no_block : All (λ k. number_of view vm_name k ≡ none) ks → IsNewest view vm_name ks none
  newest :
      (n : ℕ) (key : Text)
      → Among key ks
      → number_of view vm_name key ≡ some n
      → All (λ k. AtMost n (number_of view vm_name k)) ks
      → IsNewest view vm_name ks (some (n, key))

-- The keys in the order in which they have been seen, the last first.
rev_onto : List Text → List Text → List Text
rev_onto [] seen = seen
rev_onto (k ∷ ks) seen = rev_onto ks (k ∷ seen)

module _ (σ : Type 0) (exec : σ → List Text → Ran σ RedisValue) (s : σ) (view : View)
    (shows_keys : exec s (keys_command ∷ block_pattern ∷ [])
      ≡ ran s (array (bulks view.block_keys)))
    (shows_fields : (key field : Text)
      → exec s (hget_command ∷ key ∷ field ∷ []) ≡ ran s (answer (view.field key field))) where
  -- The candidate after some keys, without the server.
  newest_of : Text → Candidate → List Text → Candidate
  newest_of vm_name best [] = best
  newest_of vm_name best (key ∷ ks) =
      newest_of vm_name (take_newer best key (number_of view vm_name key)) ks

  -- What a candidate is to the keys that have been seen, in any order.
  abbrev Beats : Text → Candidate → List Text → Type 0
  Beats vm_name none seen = All (λ k. number_of view vm_name k ≡ none) seen
  Beats vm_name (some (n, key)) seen =
      Among key seen
      × (number_of view vm_name key ≡ some n)
      × All (λ k. AtMost n (number_of view vm_name k)) seen

  module _ (decode : Text → Option (List ℕ)) where
    -- What is answered for the newest block: its number and its root.
    abbrev pub head_of : Candidate → Option (ℕ × List ℕ)
    head_of none = none
    head_of (some (n, key)) = some (n, root_of σ exec decode (view.field key chained_root_field))
