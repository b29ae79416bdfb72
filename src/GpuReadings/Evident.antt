-- ===== src/GpuReadings/Evident.antt =====
-- Which tags the check of a reading admits.
use vpma.Prelude.{
  ℕ, ◌≡◌, refl, inl, inr, Bool, true, false, not, ◌||◌, Option, none, some, if◌then◌else◌, ◌==◌,
  ==_iff, ℤ, Bool-cases,
}
use vpma.Admission.{admit_measurement_tag}
use vpma.GpuReadings.{
  GpuGroup, GpuTagReq, GpuDbExportReq, check_tag, check_tag_of, is_admitted, expected_tag,
}

-- A reading whose tag is the one that the key makes of it, or one without a tag where none is asked
-- for.
pub data Evident (req : GpuDbExportReq) (tag_enforced : Bool) (gpu : GpuGroup) : Type 0 where
  untagged : gpu.tag ≡ none → tag_enforced ≡ false → Evident req tag_enforced gpu
  tagged :
      (t : GpuTagReq) (k0 k1 : ℕ)
      → gpu.tag ≡ some t
      → req.tag_key ≡ some (k0, k1)
      → t.hash ≡ expected_tag req gpu t k0 k1
      → t.energy_uj ≡ gpu.energy_uj
      → Evident req tag_enforced gpu

admitted : (a b : ℕ) → is_admitted (admit_measurement_tag a b) ≡ true → a ≡ b
unfolding is_admitted admit_measurement_tag
admitted a b h = elim (Bool-cases (a == b)) [
  | inl t ↦ (==_iff a b).0 t
  | inr f ↦ let bad : false ≡ true = (rw f at h) in absurd cc
]

passes :
    (a b : Bool) (x : ℤ)
    → (if not a || not b then some x else none) ≡ none
    → (a ≡ true) × (b ≡ true)
passes true true x h = (refl, refl)
passes true false x h = absurd cc
passes false b x h = absurd cc

check_tag_of-Evident :
    (req : GpuDbExportReq) (tag_enforced : Bool) (gpu : GpuGroup) (t : GpuTagReq)
    (key : Option (ℕ × ℕ))
    → gpu.tag ≡ some t
    → req.tag_key ≡ key
    → check_tag_of req gpu t key ≡ none
    → Evident req tag_enforced gpu
unfolding check_tag_of
check_tag_of-Evident req tag_enforced gpu t none e k h = absurd cc
check_tag_of-Evident req tag_enforced gpu t (some (k0, k1)) e k h =
    let (ok, same) = passes _ _ _ h in
    tagged t k0 k1 e k (admitted t.hash (expected_tag req gpu t k0 k1) ok) ((==_iff _ _).0 same)

pub check_tag-Evident :
    (req : GpuDbExportReq) (tag_enforced : Bool) (gpu : GpuGroup) (tag : Option GpuTagReq)
    → gpu.tag ≡ tag
    → check_tag req tag_enforced gpu tag ≡ none
    → Evident req tag_enforced gpu
unfolding check_tag
check_tag-Evident req false gpu none e h = untagged e refl
check_tag-Evident req true gpu none e h = absurd cc
check_tag-Evident req tag_enforced gpu (some t) e h =
    check_tag_of-Evident req tag_enforced gpu t req.tag_key e refl h
