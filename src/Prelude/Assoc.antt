-- ===== src/Prelude/Assoc.antt =====
-- A map as an association list from byte strings.
use Prim.Native.Nat.{ℕ}
use mathlib.Core.Path.{◌≡◌, refl, sym, ◌∙◌}
use mathlib.Core.Logic.{◌≢◌, inl, inr}
use mathlib.Core.Option.{Option, none, some}
use mathlib.Core.List.{List, [], ◌∷◌}
use vpma.Prelude.Tests.{◌===◌, ===-refl, ===-sound, Bool-cases, if◌then◌else◌}

module _ {ℓ} {A : Type ℓ} where
  unfoldable pub lookup : List ℕ → List (List ℕ × A) → Option A
  lookup name [] = none
  lookup name ((n, a) ∷ rest) = if n === name then some a else lookup name rest

  unfoldable pub insert : List ℕ → A → List (List ℕ × A) → List (List ℕ × A)
  insert name a [] = (name, a) ∷ []
  insert name a ((n, b) ∷ rest) = if n === name then (n, a) ∷ rest else (n, b) ∷ insert name a rest

  pub lookup-insert_same :
      (name : List ℕ) (a : A) (m : List (List ℕ × A)) → lookup name (insert name a m) ≡ some a
  unfolding lookup insert
  lookup-insert_same name a [] = rw (===-refl name) refl
  lookup-insert_same name a ((n, b) ∷ rest) = elim (Bool-cases (n === name)) [
    | inl t ↦ rw t (rw t refl)
    | inr f ↦ rw f (rw f (lookup-insert_same name a rest))
  ]

  pub lookup-insert_other :
      (name other : List ℕ) (a : A) (m : List (List ℕ × A))
      → other ≢ name
      → lookup other (insert name a m) ≡ lookup other m
  unfolding lookup insert
  lookup-insert_other name other a [] ne = elim (Bool-cases (name === other)) [
    | inl t ↦ absurd (ne (sym (===-sound name other t)))
    | inr f ↦ rw f refl
  ]
  lookup-insert_other name other a ((n, b) ∷ rest) ne = elim (Bool-cases (n === name)) [
    | inl t ↦ elim (Bool-cases (n === other)) [
      | inl u ↦ absurd (ne (sym (===-sound n other u) ∙ ===-sound n name t))
      | inr u ↦ rw t (rw u refl)
    ]
    | inr f ↦ rw f (elim (Bool-cases (n === other)) [
      | inl u ↦ rw u refl
      | inr u ↦ rw u (lookup-insert_other name other a rest ne)
    ])
  ]
