-- ===== src/GpuReadings/Baselines.antt =====
-- The baselines of the GPUs' counters.
use vpma.Prelude.{
  ℕ, ◌+◌, ◌≤◌, ◌≡◌, sym, ap, subst, ===-refl, ◌∙◌, ◌≢◌, inl, inr, true, false, Option, none, some,
  List, [], ◌∷◌, arith, ◌===◌, ===-sound, Bool-cases, lookup, insert, lookup-insert_same,
  lookup-insert_other,
}
use vpma.Exporter.{Text}
use vpma.GpuReadings.{delta_of, baseline_of}

abbrev pub Baselines : Type 0
Baselines = List (Text × ℕ)

-- What all baselines add up to.
abbrev pub total : Baselines → ℕ
total [] = 0
total (b ∷ bs) = b.1 + total bs

abbrev value : Option ℕ → ℕ
value none = 0
value (some n) = n

-- The energy of a first sample, which is never charged.
abbrev pub first_of : Option ℕ → ℕ → ℕ
first_of none energy_uj = energy_uj
first_of (some last) energy_uj = 0

-- The state after a reading.
abbrev pub observe : Text → ℕ → Baselines → Baselines
observe key energy_uj m = insert key (baseline_of (lookup key m) energy_uj) m

total-insert :
    (key : Text) (v : ℕ) (m : Baselines)
    → total (insert key v m) + value (lookup key m) ≡ total m + v
unfolding insert lookup
total-insert key v [] = omega arith
total-insert key v ((n, b) ∷ rest) = elim (Bool-cases (n === key)) [
  | inl t ↦ rw (t) (omega arith)
  | inr f ↦ rw (f) (omega (arith, total-insert key v rest))
]

baseline_of_lem :
    (last : Option ℕ) (e : ℕ) → baseline_of last e ≡ value last + delta_of last e + first_of last e
unfolding baseline_of delta_of
baseline_of_lem none e = omega arith
baseline_of_lem (some last) e = ground arith

-- The baselines grow by what is charged and by the first samples.
pub total-observe :
    (key : Text) (e : ℕ) (m : Baselines)
    → total (observe key e m) ≡ total m + delta_of (lookup key m) e + first_of (lookup key m) e
total-observe key e m =
    omega
      (arith, total-insert key (baseline_of (lookup key m) e) m, baseline_of_lem (lookup key m) e)

-- Each baseline is kept or grows.
abbrev pub Grows : Baselines → Baselines → Type 0
Grows m m' =
    (key : Text) (b : ℕ) → lookup key m ≡ some b → (b' : ℕ) × (lookup key m' ≡ some b') × (b ≤ b')

pub Grows-refl : (m : Baselines) → Grows m m
Grows-refl m key b e = (b, e, omega arith)

pub Grows-trans : (m n p : Baselines) → Grows m n → Grows n p → Grows m p
Grows-trans m n p h k key b e =
    let (b', e', l) = h key b e in
    let (b'', e'', l') = k key b' e' in (b'', e'', omega (arith, l, l'))

baseline_of-grows : (last e : ℕ) → last ≤ baseline_of (some last) e
unfolding baseline_of
baseline_of-grows last e = ground arith

pub observe-Grows : (key : Text) (e : ℕ) (m : Baselines) → Grows m (observe key e m)
observe-Grows key e m other b h = elim (Bool-cases (key === other)) [
  | inl t ↦
      let same : key ≡ other = ===-sound key other t in
      let found : lookup key m ≡ some b = rw same h in
      (
        baseline_of (some b) e,
        subst (λ k. lookup k (observe key e m) ≡ some (baseline_of (some b) e)) same
            (lookup-insert_same key (baseline_of (lookup key m) e) m
              ∙ ap (λ o. some (baseline_of o e)) found),
        baseline_of-grows b e,
      )
  | inr f ↦
      let differs : other ≢ key =
        λ e. let bad : true ≡ false = sym (ap (λ k. key === k) e ∙ ===-refl key) ∙ f in absurd cc in
      (b, lookup-insert_other key other (baseline_of (lookup key m) e) m differs ∙ h, omega arith)
]
