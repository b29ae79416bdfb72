-- ===== src/Sealed/Examples.antt =====
-- A sealed checkpoint, with the toy functions and names left as they are.
use vpma.Prelude.{ℕ, ◌≡◌, refl, true, Option, some, List, [], ◌∷◌, ◌++◌, arith}
use vpma.Crypto.{zero32}
use vpma.Crypto.Toy.{toy}
use vpma.Sealed.{Checkpoint, loaded, written, from_bytes, save, load}
use vpma.Sealed.Storage.{Fits, load-save, load_sealed}

abbrev lossy : List ℕ → List ℕ
lossy s = s

abbrev key : List ℕ
key = 9 ∷ []

abbrev checkpoint : Checkpoint
checkpoint = record {
  latest_chained_root = zero32;
  block_count = 300;
  vm_name = 0x61 ∷ [];
  last_updated = 1700000000;
}

abbrev fits : Fits checkpoint
fits = record { root_fits = refl; count_fits = omega arith; time_fits = omega arith }

abbrev file : Option (List ℕ)
file = (save toy lossy key checkpoint written).0

load-save_example : load toy lossy key file true ≡ loaded (some checkpoint)
load-save_example = load-save toy lossy key checkpoint fits refl

load_sealed_example :
    (plain : List ℕ) × (file ≡ some (toy.hmac key plain ++ plain))
    × (from_bytes lossy plain ≡ some checkpoint)
load_sealed_example =
    load_sealed toy lossy key file true checkpoint (load-save toy lossy key checkpoint fits refl)
