-- ===== src/Text/Tests.antt =====
-- The Boolean tests decide what they are meant to.
use vpma.Prelude.{
  ℕ, zero, suc, ◌+◌, ◌-◌, ◌≤◌, ◌<◌, bit_or, bit_xor, bit_or-eq-zero, bit_xor-eq-zero, bit_xor_self,
  ◌≡◌, refl, sym, ap, ap₂, ◌∙◌, ◌↔◌, ◌⊎◌, inl, inr, true, false, List, [], ◌∷◌, ◌++◌, map, arith,
  ◌==◌, length, get_or, drop, take, take-append-drop, length-drop, length-append, All, Bool-cases,
}
use vpma.Text.{
  max_tenant_label, is_safe_label_byte, label_loop, is_valid_tenant_label, ascii_lower, case_loop,
  eq_ignore_ascii_case, zero_loop, is_zero_hash, eq_loop, slices_eq, diff_loop, ct_eq_32, name_is,
}

-- A letter, a digit, a dot, an underscore or a dash.
abbrev pub IsSafe : ℕ → Type 0
IsSafe b =
    ((0x30 ≤ b) × (b ≤ 0x39))
    ⊎ (((0x41 ≤ b) × (b ≤ 0x5A))
        ⊎ (((0x61 ≤ b) × (b ≤ 0x7A)) ⊎ ((b ≡ 0x2E) ⊎ ((b ≡ 0x5F) ⊎ (b ≡ 0x2D)))))

is_safe_label_byte_sound : (b : ℕ) → is_safe_label_byte b ≡ true → IsSafe b
unfolding is_safe_label_byte
is_safe_label_byte_sound b h = ground arith

is_safe_label_byte_complete : (b : ℕ) → IsSafe b → is_safe_label_byte b ≡ true
unfolding is_safe_label_byte
is_safe_label_byte_complete b h = ground arith

label_loop_sound : (s : List ℕ) → label_loop s ≡ true → All IsSafe s
unfolding label_loop
label_loop_sound [] h = tt
label_loop_sound (b ∷ s) h = elim (Bool-cases (is_safe_label_byte b)) [
  | inl t ↦ (is_safe_label_byte_sound b t, label_loop_sound s (rw t at h))
  | inr f ↦ cc (rw f at h)
]

label_loop_complete : (s : List ℕ) → All IsSafe s → label_loop s ≡ true
unfolding label_loop
label_loop_complete [] h = refl
label_loop_complete (b ∷ s) h = rw (is_safe_label_byte_complete b h.0) (label_loop_complete s h.1)

-- A tenant label is accepted exactly when it has 1 to 64 bytes and each of them is a letter, a
-- digit, a dot, an underscore or a dash.
pub is_valid_tenant_label_iff :
    (s : List ℕ)
    → (is_valid_tenant_label s ≡ true)
      ↔ ((0 < length s) × (length s ≤ max_tenant_label) × All IsSafe s)
unfolding is_valid_tenant_label
is_valid_tenant_label_iff s = (
  λ h. (ground arith, ground arith, label_loop_sound s (ground arith)),
  λ h. ground (arith, label_loop_complete s h.2),
)

case_loop_sound :
    (a b : List ℕ)
    → length a ≡ length b
    → case_loop a b ≡ true
    → map ascii_lower a ≡ map ascii_lower b
unfolding case_loop
case_loop_sound [] [] l h = refl
case_loop_sound [] (y ∷ b) l h = absurd (omega arith)
case_loop_sound (x ∷ a) [] l h = absurd (omega arith)
case_loop_sound (x ∷ a) (y ∷ b) l h = ground (arith, case_loop_sound a b)

case_loop_complete : (a b : List ℕ) → map ascii_lower a ≡ map ascii_lower b → case_loop a b ≡ true
unfolding case_loop
case_loop_complete [] b h = refl
case_loop_complete (x ∷ a) [] h = refl
case_loop_complete (x ∷ a) (y ∷ b) h = ground (arith, case_loop_complete a b)

length-map_eq : (a b : List ℕ) → map ascii_lower a ≡ map ascii_lower b → length a ≡ length b
length-map_eq [] [] h = refl
length-map_eq [] (y ∷ b) h = cc
length-map_eq (x ∷ a) [] h = cc
length-map_eq (x ∷ a) (y ∷ b) h = ap suc (length-map_eq a b (cc))

-- Two texts compare equal without case exactly when their lower-case forms are equal.
pub eq_ignore_ascii_case_iff :
    (a b : List ℕ) → (eq_ignore_ascii_case a b ≡ true) ↔ (map ascii_lower a ≡ map ascii_lower b)
unfolding eq_ignore_ascii_case
eq_ignore_ascii_case_iff a b = (
  λ h. case_loop_sound a b (ground arith) (ground arith),
  λ h. ground (arith, length-map_eq a b h, case_loop_complete a b h),
)

eq_loop_sound : (a b : List ℕ) → length a ≡ length b → eq_loop a b ≡ true → a ≡ b
unfolding eq_loop
eq_loop_sound [] [] l h = refl
eq_loop_sound [] (y ∷ b) l h = absurd (omega arith)
eq_loop_sound (x ∷ a) [] l h = absurd (omega arith)
eq_loop_sound (x ∷ a) (y ∷ b) l h = ground (arith, eq_loop_sound a b)

eq_loop_self : (a : List ℕ) → eq_loop a a ≡ true
unfolding eq_loop
eq_loop_self [] = refl
eq_loop_self (x ∷ a) = ground (arith, eq_loop_self a)

pub slices_eq_iff : (a b : List ℕ) → (slices_eq a b ≡ true) ↔ (a ≡ b)
unfolding slices_eq
slices_eq_iff a b = (
  λ h. eq_loop_sound a b (ground arith) (ground arith),
  λ e. rw e (ground (arith, eq_loop_self b)),
)

diff_loop_sound :
    (d : ℕ) (a b : List ℕ) → length a ≡ length b → diff_loop d a b ≡ 0 → (d ≡ 0) × (a ≡ b)
unfolding diff_loop
diff_loop_sound d [] [] l h = (h, refl)
diff_loop_sound d [] (y ∷ b) l h = absurd (omega arith)
diff_loop_sound d (x ∷ a) [] l h = absurd (omega arith)
diff_loop_sound d (x ∷ a) (y ∷ b) l h =
    let ih = diff_loop_sound (bit_or d (bit_xor x y)) a b (omega arith) h in
    let z = bit_or-eq-zero d (bit_xor x y) ih.0 in
    (z.0, ap₂ (λ u v. u ∷ v) (bit_xor-eq-zero x y z.1) ih.1)

diff_loop_self : (a : List ℕ) → diff_loop 0 a a ≡ 0
unfolding diff_loop
diff_loop_self [] = refl
diff_loop_self (x ∷ a) = rw (bit_xor_self x) (diff_loop_self a)

-- On arrays of one length the comparison without early exit is equality.
pub ct_eq_32_iff : (a b : List ℕ) → length a ≡ length b → (ct_eq_32 a b ≡ true) ↔ (a ≡ b)
unfolding ct_eq_32
ct_eq_32_iff a b l =
    (λ h. (diff_loop_sound 0 a b l (ground arith)).1, λ e. rw e (ground (arith, diff_loop_self b)))

zero_loop_iff : (s : List ℕ) → (zero_loop s ≡ true) ↔ All (λ b. b ≡ 0x30) s
unfolding zero_loop
zero_loop_iff [] = (λ h. tt, λ h. refl)
zero_loop_iff (b ∷ s) =
    let ih = zero_loop_iff s in
    (λ h. (ground arith, ih.0 (ground arith)), λ h. ground (arith, ih.1 h.1))

-- A slice is a zero hash exactly when it is not empty and all its bytes are the digit `0`.
pub is_zero_hash_iff :
    (s : List ℕ) → (is_zero_hash s ≡ true) ↔ ((0 < length s) × All (λ b. b ≡ 0x30) s)
unfolding is_zero_hash
is_zero_hash_iff s = (
  λ h. (ground arith, (zero_loop_iff s).0 (ground arith)),
  λ h. ground (arith, (zero_loop_iff s).1 h.1),
)

drop-get_or : (xs : List ℕ) (i : ℕ) → i < length xs → drop i xs ≡ get_or xs i 0 ∷ drop (i + 1) xs
drop-get_or [] i h = absurd (omega arith)
drop-get_or (x ∷ xs) zero h = refl
drop-get_or (x ∷ xs) (suc i) h =
    let e : suc i + 1 ≡ suc (i + 1) = omega arith in rw e (drop-get_or xs i (omega arith))

get_or-append : (pre : List ℕ) (x : ℕ) (r : List ℕ) → get_or (pre ++ (x ∷ r)) (length pre) 0 ≡ x
get_or-append [] x r = refl
get_or-append (p ∷ pre) x r = get_or-append pre x r

drop-append_suc : (pre : List ℕ) (x : ℕ) (r : List ℕ) → drop (length pre + 1) (pre ++ (x ∷ r)) ≡ r
drop-append_suc [] x r = refl
drop-append_suc (p ∷ pre) x r =
    let e : suc (length pre) + 1 ≡ suc (length pre + 1) = omega arith in
    rw e (drop-append_suc pre x r)

name_is_suffix :
    (path name : List ℕ)
    → name_is path name ≡ true
    → (length path == length name) ≡ false
    → (pre : List ℕ) × (path ≡ pre ++ (0x2F ∷ name))
name_is_suffix path name h other =
    let start = length path - length name in
    let longer : length name < length path = unfold name_is in ground arith in
    let slash : get_or path (start - 1) 0 ≡ 0x2F = unfold name_is in ground arith in
    let rest : eq_loop (drop start path) name ≡ true = unfold name_is in ground arith in
    let tail : drop start path ≡ name =
      eq_loop_sound (drop start path) name (omega (arith, length-drop start path)) rest in
    let back : start - 1 + 1 ≡ start = omega arith in
    let cut : drop (start - 1) path ≡ 0x2F ∷ name =
      drop-get_or path (start - 1) (omega arith)
      ∙ ap₂ (λ (x : ℕ) (r : List ℕ). x ∷ r) slash (ap (λ k. drop k path) back ∙ tail) in
    (
      take (start - 1) path,
      sym (take-append-drop (start - 1) path) ∙ ap (λ r. take (start - 1) path ++ r) cut,
    )

name_is-slash : (pre name : List ℕ) → name_is (pre ++ (0x2F ∷ name)) name ≡ true
name_is-slash pre name =
    let path = pre ++ (0x2F ∷ name) in
    let len : length path ≡ length pre + suc (length name) = length-append pre (0x2F ∷ name) in
    let before : length path - length name - 1 ≡ length pre = omega (arith, len) in
    let at : length path - length name ≡ length pre + 1 = omega (arith, len) in
    let slash : get_or path (length path - length name - 1) 0 ≡ 0x2F =
      ap (λ k. get_or path k 0) before ∙ get_or-append pre 0x2F name in
    let rest : eq_loop (drop (length path - length name) path) name ≡ true =
      ap (λ r. eq_loop r name) (ap (λ k. drop k path) at ∙ drop-append_suc pre 0x2F name)
      ∙ eq_loop_self name in
    unfold name_is in ground (arith, len, slash, rest)

-- A path is taken for a name exactly when it is that name, or ends in a slash and the name.
pub name_is_iff :
    (path name : List ℕ)
    → (name_is path name ≡ true)
      ↔ ((path ≡ name) ⊎ ((pre : List ℕ) × (path ≡ pre ++ (0x2F ∷ name))))
name_is_iff path name = (
  λ h. elim (Bool-cases (length path == length name)) [
    | inl same ↦ inl ((slices_eq_iff path name).0 (unfold name_is in (rw same at h)))
    | inr other ↦ inr (name_is_suffix path name h other)
  ],
  λ d. elim d [
    | inl e ↦ rw e (unfold name_is in ground (arith, (slices_eq_iff name name).1 refl))
    | inr (pre, e) ↦ rw e (name_is-slash pre name)
  ],
)
