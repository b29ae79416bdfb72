-- ===== src/Siptag/Packing.antt =====
-- The packed words of a measurement.
use vpma.Prelude.{◌+◌, ◌*◌, ◌%◌, ◌^◌, ◌<◌, ◌≡◌, ap, ◌∙◌, bit_or, arith, bit_or_packed}
use vpma.Siptag.{Measurement, ids_word, origin_word}

-- The fields of a measurement in the ranges of their types.
pub record Fits (m : Measurement) : Type 0 where
  pub unit_fits : m.unit_id < 2 ^ 32
  pub domain_fits : m.domain_id < 2 ^ 32
  pub version_fits : m.version < 2 ^ 16
  pub producer_fits : m.producer < 2 ^ 16
  pub epoch_fits : m.key_epoch < 2 ^ 32

ids_word_lem : (m : Measurement) → Fits m → ids_word m ≡ m.unit_id + m.domain_id * 2 ^ 32
unfolding ids_word
ids_word_lem m f =
    let small : m.domain_id * 2 ^ 32 % 2 ^ 64 ≡ m.domain_id * 2 ^ 32 =
      omega (arith, f.domain_fits) in
    ap (bit_or m.unit_id) small ∙ bit_or_packed 32 m.domain_id m.unit_id f.unit_fits

origin_word_lem :
    (m : Measurement)
    → Fits m
    → origin_word m ≡ m.version + m.producer * 2 ^ 16 + m.key_epoch * 2 ^ 32
unfolding origin_word
origin_word_lem m f =
    let small : m.producer * 2 ^ 16 % 2 ^ 64 ≡ m.producer * 2 ^ 16 =
      omega (arith, f.producer_fits) in
    let small' : m.key_epoch * 2 ^ 32 % 2 ^ 64 ≡ m.key_epoch * 2 ^ 32 =
      omega (arith, f.epoch_fits) in
    let low : bit_or m.version (m.producer * 2 ^ 16 % 2 ^ 64) ≡ m.version + m.producer * 2 ^ 16 =
      ap (bit_or m.version) small ∙ bit_or_packed 16 m.producer m.version f.version_fits in
    rw (low, small')
      (bit_or_packed 32 m.key_epoch (m.version + m.producer * 2 ^ 16)
        (omega (arith, f.version_fits, f.producer_fits)))

-- The two packed words of measurements in range determine the unit, the domain, the version, the
-- producer and the key epoch.
pub packed_words-injective :
    (m n : Measurement)
    → Fits m
    → Fits n
    → ids_word m ≡ ids_word n
    → origin_word m ≡ origin_word n
    → (m.unit_id ≡ n.unit_id)
      × (m.domain_id ≡ n.domain_id)
      × (m.version ≡ n.version)
      × (m.producer ≡ n.producer)
      × (m.key_epoch ≡ n.key_epoch)
packed_words-injective m n f g ids origin =
    let i = ids_word_lem m f in
    let i' = ids_word_lem n g in
    let o = origin_word_lem m f in
    let o' = origin_word_lem n g in
    (
      omega (arith, ids, i, i', f.unit_fits, g.unit_fits),
      omega (arith, ids, i, i', f.unit_fits, g.unit_fits),
      omega
          (arith, origin, o, o', f.version_fits, g.version_fits, f.producer_fits, g.producer_fits),
      omega
          (arith, origin, o, o', f.version_fits, g.version_fits, f.producer_fits, g.producer_fits),
      omega
          (arith, origin, o, o', f.version_fits, g.version_fits, f.producer_fits, g.producer_fits),
    )
