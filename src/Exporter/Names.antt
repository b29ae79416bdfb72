-- ===== src/Exporter/Names.antt =====
-- The name of a virtual machine on a QEMU command line.
use vpma.Prelude.{
  ℕ, ◌≡◌, ◌≢◌, refl, ap, ◌∙◌, ◌⊎◌, inl, inr, true, false, List, [], ◌∷◌, ◌++◌, append-nil, arith,
  ◌==◌, ==_iff, All,
}
use vpma.Merkle.{done}
use vpma.Exporter.{
  Text, starts_with, split_first, split, guest_prefix, next_unwrap, skip_one, name_in,
  get_vm_name_from_cmdline,
}

starts_with_prefix : (p s : Text) → starts_with (p ++ s) p ≡ true
unfolding starts_with
starts_with_prefix [] [] = refl
starts_with_prefix [] (b ∷ bs) = refl
starts_with_prefix (a ∷ p) s = ground (arith, starts_with_prefix p s)

split_first-append :
    (d : ℕ) (xs ys : Text)
    → All (λ b. b ≢ d) xs
    → split_first d (xs ++ ys) ≡ (xs ++ (split_first d ys).0, (split_first d ys).1)
unfolding split_first
split_first-append d [] ys free = refl
split_first-append d (x ∷ xs) ys free =
    let other : (x == d) ≡ false = ground (arith, free.0) in
    rw (other, split_first-append d xs ys free.1) refl

first_part :
    (d : ℕ) (name more : Text)
    → All (λ b. b ≢ d) name
    → ((split_first d name).0 ≡ name) × ((split_first d (name ++ (d ∷ more))).0 ≡ name)
first_part d name more free =
    let whole : split_first d (name ++ []) ≡ (name ++ [], []) =
      split_first-append d name [] free ∙ (unfold split_first in refl) in
    let same : (d == d) ≡ true = (==_iff d d).1 refl in
    (
      ap (λ (r : Text × List Text). r.0) (rw (append-nil name) at whole),
      ap (λ (r : Text × List Text). r.0) (split_first-append d name (d ∷ more) free)
          ∙ (unfold split_first in rw same (append-nil name)),
    )

name_in_lem :
    (name rest : Text)
    → All (λ b. b ≢ 61) name
    → All (λ b. b ≢ 44) name
    → (rest ≡ []) ⊎ ((more : Text) × (rest ≡ 44 ∷ more))
    → name_in (guest_prefix ++ (name ++ rest)) ≡ done name
unfolding name_in split next_unwrap skip_one
name_in_lem name rest no_equals no_commas (inl e) =
    let q : (split_first 61 (name ++ rest)).0 ≡ name =
      rw (e, append-nil name) (first_part 61 name [] no_equals).0 in
    let at_comma : (split_first 44 (split_first 61 (name ++ rest)).0).0 ≡ name =
      rw q (first_part 44 name [] no_commas).0 in
    unfold split_first in ap done at_comma
name_in_lem name rest no_equals no_commas (inr (more, e)) =
    let tail : Text = (split_first 61 more).0 in
    let q : (split_first 61 (name ++ rest)).0 ≡ name ++ (44 ∷ tail) = rw e (
      ap (λ (r : Text × List Text). r.0) (split_first-append 61 name (44 ∷ more) no_equals)
      ∙ (unfold split_first in refl)) in
    let at_comma : (split_first 44 (split_first 61 (name ++ rest)).0).0 ≡ name =
      rw q (first_part 44 name tail no_commas).1 in
    unfold split_first in ap done at_comma

skips_others :
    (before after : List Text)
    → All (λ e. starts_with e guest_prefix ≡ false) before
    → get_vm_name_from_cmdline (before ++ after) ≡ get_vm_name_from_cmdline after
unfolding get_vm_name_from_cmdline
skips_others [] after others = refl
skips_others (e ∷ before) after others = rw (others.0) (skips_others before after others.1)

-- The first argument that begins with "guest=" gives the name: what stands between "guest=" and the
-- next comma or the end, for a name without commas and equals signs. Later arguments are not read.
pub get_vm_name_from_cmdline_lem :
    (before after : List Text) (name rest : Text)
    → All (λ e. starts_with e guest_prefix ≡ false) before
    → All (λ b. b ≢ 61) name
    → All (λ b. b ≢ 44) name
    → (rest ≡ []) ⊎ ((more : Text) × (rest ≡ 44 ∷ more))
    → get_vm_name_from_cmdline (before ++ ((guest_prefix ++ (name ++ rest)) ∷ after)) ≡ done name
get_vm_name_from_cmdline_lem before after name rest others no_equals no_commas ends =
    let here : starts_with (guest_prefix ++ (name ++ rest)) guest_prefix ≡ true =
      starts_with_prefix guest_prefix (name ++ rest) in
    skips_others before _ others
    ∙ (unfold get_vm_name_from_cmdline in rw here (name_in_lem name rest no_equals no_commas ends))
