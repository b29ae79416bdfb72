-- ===== src/Host/Readings.antt =====
-- Both checks let the same readings through.
use vpma.Prelude.{
  ℕ, ◌≡◌, ◌≢◌, refl, sym, ◌∙◌, ◌⊎◌, inl, inr, ◌↔◌, true, false, Option, none, some, List, [], ◌∷◌,
  arith, ◌==◌, ==_iff, ℤ, negsuc, Bool-cases, All,
}
use vpma.Admission.{admit_measurement_tag}
use vpma.Host.{
  TagKey, RaplReading, recomputed, is_some, verify_rapl_hash, check_readings, check_readings_cgroup,
}

-- The reading has the tag of an installed key.
abbrev pub Tagged : Option TagKey → RaplReading → Type 0
Tagged none r = ⊥
Tagged (some key) r = r.hash ≡ recomputed key r

-- A reading that counts has its tag.
abbrev pub Genuine : Option TagKey → RaplReading → Type 0
Genuine key r = r.valid ≡ 1 → Tagged key r

tag_test :
    (claimed expected : ℕ)
    → (is_some (admit_measurement_tag claimed expected) ≡ true) ↔ (claimed ≡ expected)
unfolding is_some admit_measurement_tag
tag_test claimed expected = ground arith

hash_test : (key : Option TagKey) (r : RaplReading) → (verify_rapl_hash key r ≡ true) ↔ Tagged key r
unfolding verify_rapl_hash
hash_test none r = (λ h. absurd cc, λ e. absurd e)
hash_test (some key) r = tag_test r.hash (recomputed key r)

-- One turn of either loop.
turn :
    (key : Option TagKey) (r : RaplReading) (rest next : Option ℤ) (P : Type 0)
    → ((r.valid == 1) ≡ false → next ≡ rest)
    → ((r.valid == 1) ≡ true → Tagged key r → next ≡ rest)
    → ((r.valid == 1) ≡ true → ¬ Tagged key r → next ≢ none)
    → Tagged key r ⊎ ¬ Tagged key r
    → (rest ≡ none) ↔ P
    → (next ≡ none) ↔ (Genuine key r × P)
turn key r rest next P skipped passes stops tagged rest_iff = elim (Bool-cases (r.valid == 1)) [
  | inl t ↦ elim (tagged) [
    | inl g ↦
        (λ h. (λ v. g, rest_iff.0 (sym (passes t g) ∙ h)), λ all. passes t g ∙ rest_iff.1 all.1)
    | inr n ↦ (λ h. absurd (stops t n h), λ all. absurd (n (all.0 ((==_iff r.valid 1).0 t))))
  ]
  | inr f ↦ (
    λ h. (λ v. absurd (ground (arith, f, v)), rest_iff.0 (sym (skipped f) ∙ h)),
    λ all. skipped f ∙ rest_iff.1 all.1,
  )
]

Tagged-or_not : (key : Option TagKey) (r : RaplReading) → Tagged key r ⊎ ¬ Tagged key r
Tagged-or_not key r = elim (Bool-cases (verify_rapl_hash key r)) [
  | inl t ↦ inl ((hash_test key r).0 t)
  | inr f ↦ inr (λ g. let t : verify_rapl_hash key r ≡ true = (hash_test key r).1 g in absurd cc)
]

refused : (key : Option TagKey) (r : RaplReading) → ¬ Tagged key r → verify_rapl_hash key r ≡ false
refused key r n = elim (Bool-cases (verify_rapl_hash key r)) [
  | inl t ↦ absurd (n ((hash_test key r).0 t))
  | inr f ↦ f
]

simple_iff :
    (key : Option TagKey) (rs : List RaplReading)
    → (check_readings key rs ≡ none) ↔ All (Genuine key) rs
unfolding check_readings
simple_iff key [] = (λ h. tt, λ h. refl)
simple_iff key (r ∷ rs) =
    turn key r (check_readings key rs) (check_readings key (r ∷ rs)) (All (Genuine key) rs)
      (λ f. rw f refl) (λ t g. rw (t, (hash_test key r).1 g) refl)
      (λ t n h. let bad : some (negsuc 1) ≡ none = (rw (t, refused key r n) at h) in absurd cc)
      (Tagged-or_not key r) (simple_iff key rs)

cgroup_turn :
    (key : Option TagKey) (r : RaplReading) (rs : List RaplReading)
    → (r.valid == 1) ≡ true
    → (Tagged key r → check_readings_cgroup key (r ∷ rs) ≡ check_readings_cgroup key rs)
      × (¬ Tagged key r → check_readings_cgroup key (r ∷ rs) ≢ none)
unfolding check_readings_cgroup
cgroup_turn none r rs t =
    (λ g. absurd g, λ n h. let bad : some (negsuc 0) ≡ none = (rw t at h) in absurd cc)
cgroup_turn (some k) r rs t = (
  λ g. rw (t, (tag_test r.hash (recomputed k r)).1 g) refl,
  λ n h.
      let f : is_some (admit_measurement_tag r.hash (recomputed k r)) ≡ false =
        elim (Bool-cases (is_some (admit_measurement_tag r.hash (recomputed k r)))) [
          | inl u ↦ absurd (n ((tag_test r.hash (recomputed k r)).0 u))
          | inr u ↦ u
        ] in
      let bad : some (negsuc 1) ≡ none = (rw (t, f) at h) in absurd cc,
)

cgroup_iff :
    (key : Option TagKey) (rs : List RaplReading)
    → (check_readings_cgroup key rs ≡ none) ↔ All (Genuine key) rs
unfolding check_readings_cgroup
cgroup_iff key [] = (λ h. tt, λ h. refl)
cgroup_iff key (r ∷ rs) =
    turn key r (check_readings_cgroup key rs) (check_readings_cgroup key (r ∷ rs))
      (All (Genuine key) rs) (λ f. rw f refl) (λ t. (cgroup_turn key r rs t).0)
      (λ t. (cgroup_turn key r rs t).1) (Tagged-or_not key r) (cgroup_iff key rs)

-- Either check lets a list of readings through exactly each reading marked valid carries
-- the tag that the installed key makes of its fields; with no key installed, exactly where no
-- reading is marked valid. So both calls let the same lists through.
pub check_readings_iff :
    (key : Option TagKey) (rs : List RaplReading)
    → ((check_readings key rs ≡ none) ↔ All (Genuine key) rs)
      × ((check_readings_cgroup key rs ≡ none) ↔ All (Genuine key) rs)
check_readings_iff key rs = (simple_iff key rs, cgroup_iff key rs)
