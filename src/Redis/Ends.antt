-- ===== src/Redis/Ends.antt =====
-- How the reading of a response can end.
use vpma.Prelude.{ℕ, ◌≤◌, ◌≡◌, ◌⊎◌, Bool, false, List, length}
use vpma.Exporter.{Text}
use vpma.Redis.{Memory, RedisValue, Reading, got, fails, spins, aborts, stack_overflow}

-- Some length that cannot be allocated.
abbrev pub Refuses : Memory → Type 0
Refuses memory = ((n : ℕ) × (memory.bytes n ≡ false)) ⊎ ((n : ℕ) × (memory.values n ≡ false))

-- The reading ends with a value, and at most so many bytes left, or with an error; where the
-- connection is closed and does not time out, it may also spin, and where the memory refuses a
-- length, abort. The stack does not overflow.
abbrev pub Finishes {ℓ} : {A : Type ℓ} → Bool → Memory → ℕ → Reading A → Type 0
Finishes times_out memory n (got r) = length r.1 ≤ n
Finishes times_out memory n (fails e) = Unit {0}
Finishes times_out memory n spins = times_out ≡ false
Finishes times_out memory n aborts = Refuses memory
Finishes times_out memory n stack_overflow = ⊥

module _ (lossy : List ℕ → Text) (times_out : Bool) (memory : Memory) where
  -- A reader that finishes on as many bytes as there are.
  abbrev AlwaysFinishes : ℕ → (List ℕ → Reading RedisValue) → Type 0
  AlwaysFinishes n reader =
      (s : List ℕ) → length s ≤ n → Finishes times_out memory (length s) (reader s)
