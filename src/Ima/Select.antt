-- ===== src/Ima/Select.antt =====
-- Which hash is taken for the collector's.
use vpma.Prelude.{
  ℕ, ◌≡◌, refl, ap, ◌∙◌, ◌⊎◌, inl, inr, true, false, Option, none, some, List, [], ◌∷◌, ◌++◌,
  if◌then◌else◌, Bool-cases, All,
}
use vpma.Ima.{RecordView, is_collector, select_loop, select_collector_hash_verified}

-- The hash is that of a collector record after which no other stands.
abbrev pub IsLastHash : List RecordView → List ℕ → Type 0
IsLastHash records h =
    (before : List RecordView) × (rec : RecordView) × (after : List RecordView) × (records
      ≡ before ++ (rec ∷ after))
    × (is_collector rec ≡ true)
    × (rec.hash ≡ h)
    × All (λ r. is_collector r ≡ false) after

-- What a selection says of the records.
abbrev pub Selected : List RecordView → Option (List ℕ) → Type 0
Selected records none = All (λ r. is_collector r ≡ false) records
Selected records (some h) = IsLastHash records h

select_loop_lem :
    (found : Option (List ℕ)) (records : List RecordView)
    → ((select_loop found records ≡ found) × All (λ r. is_collector r ≡ false) records)
      ⊎ ((h : List ℕ) × (select_loop found records ≡ some h) × IsLastHash records h)
unfolding select_loop
select_loop_lem found [] = inl (refl, tt)
select_loop_lem found (rec ∷ records) =
    elim (select_loop_lem (if is_collector rec then some rec.hash else found) records) [
      | inl (e, none_after) ↦ elim (Bool-cases (is_collector rec)) [
        | inl t ↦ inr (rec.hash, e ∙ (rw t refl), ([], rec, records, refl, t, refl, none_after))
        | inr f ↦ inl (e ∙ (rw f refl), (f, none_after))
      ]
      | inr (h, e, (before, last, after, split, is, same, none_after)) ↦
          inr (h, e, ((rec ∷ before), last, after, ap (λ r. rec ∷ r) split, is, same, none_after))
    ]

-- A hash that is returned is that of the last collector record of the list, a record whose path
-- has the collector's name and whose hash is neither empty nor all zeros; nothing is returned only
-- where no record is such.
pub select_collector_hash_verified_lem :
    (records : List RecordView) → Selected records (select_collector_hash_verified records)
unfolding select_collector_hash_verified
select_collector_hash_verified_lem records = elim (select_loop_lem none records) [
  | inl (e, h) ↦ rw e h
  | inr (h, e, last) ↦ rw e last
]
