-- ===== src/Anchor/Parts.antt =====
-- Five fields without separators, joined by `|`, are split where they were joined; trimming leaves
-- a text alone that neither starts nor ends in a space.
use vpma.Prelude.{
  ℕ, ◌+◌, ◌-◌, ◌<◌, ◌≡◌, refl, sym, ap, ◌∙◌, true, false, ◌&&◌, some, List, [], ◌∷◌, ◌++◌,
  append-nil, append_assoc, arith, ltb, ◌==◌, length, length-append, push, take-length-append,
  drop-length-append, All,
}
use vpma.Encoding.Domains.{NoSep}
use vpma.Anchor.{
  sep_loop, slice, parse_fields, split_line, parse_checkpoint_line, ◌>>=◌, is_space, trim_start,
  trim_cons, trim_end, trim,
}

-- Without a separator the loop only counts.
sep_loop-NoSep :
    (i : ℕ) (seps s rest : List ℕ)
    → NoSep s
    → sep_loop i seps (s ++ rest) ≡ sep_loop (i + length s) seps rest
unfolding sep_loop
sep_loop-NoSep i seps [] rest h = ap (λ k. sep_loop k seps rest) (omega arith)
sep_loop-NoSep i seps (b ∷ s) rest h =
    let e : (b == 0x7C) ≡ false = ground arith in
    rw e (sep_loop-NoSep (i + 1) seps s rest h.1 ∙ ap (λ k. sep_loop k seps rest) (omega arith))

sep_loop-sep :
    (i : ℕ) (seps rest : List ℕ)
    → length seps < 4
    → sep_loop i seps (0x7C ∷ rest) ≡ sep_loop (i + 1) (push seps i) rest
unfolding sep_loop
sep_loop-sep i seps rest h = ground arith

-- Fields joined by separators.
abbrev pub join : List ℕ → List ℕ → List ℕ → List ℕ → List ℕ → List ℕ
join a b d e f = a ++ (0x7C ∷ (b ++ (0x7C ∷ (d ++ (0x7C ∷ (e ++ (0x7C ∷ f)))))))

-- The part between a prefix and what follows.
slice_between :
    (pre x post : List ℕ) (from to : ℕ)
    → from ≡ length pre
    → to ≡ length pre + length x
    → slice (pre ++ (x ++ post)) from to ≡ x
unfolding slice
slice_between pre x post from to p q =
    let n : to - from ≡ length x = omega (arith, p, q) in
    rw (n, p) (rw (drop-length-append pre (x ++ post)) (take-length-append x post))

module _ (a b d e f : List ℕ) where
  p0 : ℕ
  p0 = length a

  p1 : ℕ
  p1 = length a + 1 + length b

  p2 : ℕ
  p2 = length a + 1 + length b + 1 + length d

  p3 : ℕ
  p3 = length a + 1 + length b + 1 + length d + 1 + length e

  sep_loop-join :
      NoSep a
      → NoSep b
      → NoSep d
      → NoSep e
      → NoSep f
      → sep_loop 0 [] (join a b d e f) ≡ some (p0 ∷ p1 ∷ p2 ∷ p3 ∷ [])
  unfolding p0 p1 p2 p3
  sep_loop-join ha hb hd he hf =
      sep_loop-NoSep 0 [] a _ ha
      ∙ ap (λ k. sep_loop k [] (0x7C ∷ (b ++ (0x7C ∷ (d ++ (0x7C ∷ (e ++ (0x7C ∷ f))))))))
          (omega arith)
      ∙ sep_loop-sep (length a) [] _ (omega arith)
      ∙ sep_loop-NoSep _ _ b _ hb
      ∙ sep_loop-sep _ _ _ (omega arith)
      ∙ sep_loop-NoSep _ _ d _ hd
      ∙ sep_loop-sep _ _ _ (omega arith)
      ∙ sep_loop-NoSep _ _ e _ he
      ∙ sep_loop-sep _ _ _ (omega arith)
      ∙ ap (sep_loop _ _) (sym (append-nil f))
      ∙ sep_loop-NoSep _ _ f [] hf
      ∙ (unfold sep_loop in refl)

  length-join : length (join a b d e f) ≡ p3 + 1 + length f
  unfolding p3
  length-join = omega (
    arith,
    length-append a (0x7C ∷ (b ++ (0x7C ∷ (d ++ (0x7C ∷ (e ++ (0x7C ∷ f))))))),
    length-append b (0x7C ∷ (d ++ (0x7C ∷ (e ++ (0x7C ∷ f))))),
    length-append d (0x7C ∷ (e ++ (0x7C ∷ f))),
    length-append e (0x7C ∷ f),
  )

  pre1 : List ℕ
  pre1 = a ++ (0x7C ∷ [])

  pre2 : List ℕ
  pre2 = pre1 ++ (b ++ (0x7C ∷ []))

  pre3 : List ℕ
  pre3 = pre2 ++ (d ++ (0x7C ∷ []))

  pre4 : List ℕ
  pre4 = pre3 ++ (e ++ (0x7C ∷ []))

  length-pre1 : length pre1 ≡ length a + 1
  unfolding pre1
  length-pre1 = omega (arith, length-append a (0x7C ∷ []))

  length-pre2 : length pre2 ≡ length a + 1 + length b + 1
  unfolding pre2
  length-pre2 =
      omega (arith, length-pre1, length-append pre1 (b ++ (0x7C ∷ [])), length-append b (0x7C ∷ []))

  length-pre3 : length pre3 ≡ length a + 1 + length b + 1 + length d + 1
  unfolding pre3
  length-pre3 =
      omega (arith, length-pre2, length-append pre2 (d ++ (0x7C ∷ [])), length-append d (0x7C ∷ []))

  length-pre4 : length pre4 ≡ length a + 1 + length b + 1 + length d + 1 + length e + 1
  unfolding pre4
  length-pre4 =
      omega (arith, length-pre3, length-append pre3 (e ++ (0x7C ∷ [])), length-append e (0x7C ∷ []))

  slice0 : slice (join a b d e f) 0 p0 ≡ a
  unfolding p0
  slice0 = slice_between [] a _ 0 (length a) refl (omega arith)

  slice1 : slice (join a b d e f) (p0 + 1) p1 ≡ b
  unfolding p0 p1 pre1
  slice1 =
      let line : join a b d e f ≡ pre1 ++ (b ++ (0x7C ∷ (d ++ (0x7C ∷ (e ++ (0x7C ∷ f)))))) =
        simp append_assoc in
      ap (λ l. slice l (p0 + 1) p1) line
      ∙ slice_between pre1 b _ (p0 + 1) p1 (omega (arith, length-pre1)) (omega (arith, length-pre1))

  slice2 : slice (join a b d e f) (p1 + 1) p2 ≡ d
  unfolding p1 p2 pre1 pre2
  slice2 =
      let line : join a b d e f ≡ pre2 ++ (d ++ (0x7C ∷ (e ++ (0x7C ∷ f)))) = simp append_assoc in
      ap (λ l. slice l (p1 + 1) p2) line
      ∙ slice_between pre2 d _ (p1 + 1) p2 (omega (arith, length-pre2)) (omega (arith, length-pre2))

  slice3 : slice (join a b d e f) (p2 + 1) p3 ≡ e
  unfolding p2 p3 pre1 pre2 pre3
  slice3 =
      let line : join a b d e f ≡ pre3 ++ (e ++ (0x7C ∷ f)) = simp append_assoc in
      ap (λ l. slice l (p2 + 1) p3) line
      ∙ slice_between pre3 e _ (p2 + 1) p3 (omega (arith, length-pre3)) (omega (arith, length-pre3))

  slice4 : slice (join a b d e f) (p3 + 1) (length (join a b d e f)) ≡ f
  unfolding p3 pre1 pre2 pre3 pre4
  slice4 =
      let line : join a b d e f ≡ pre4 ++ (f ++ []) = simp (append_assoc, append-nil) in
      ap (λ l. slice l (p3 + 1) (length (join a b d e f))) line
      ∙ slice_between pre4 f [] (p3 + 1) (length (join a b d e f)) (omega (arith, length-pre4))
          (omega (arith, length-pre4, length-join))

  -- Five fields without separators are the fields that the parser reads from their join.
  pub parse-join :
      (tenant : List ℕ)
      → NoSep a
      → NoSep b
      → NoSep d
      → NoSep e
      → NoSep f
      → 0 < length f
      → parse_checkpoint_line (join a b d e f) tenant ≡ parse_fields tenant a b d e f
  parse-join tenant ha hb hd he hf h =
      let ordered : (ltb p0 p1 && ltb p1 p2 && ltb p2 p3 && ltb p3 (length (join a b d e f)))
          ≡ true =
        unfold p0 p1 p2 p3 in ground (arith, length-join) in
      unfold parse_checkpoint_line split_line in
      rw (sep_loop-join ha hb hd he hf, ◌>>=◌, ordered)
        (rw (slice0, slice1, slice2, slice3, slice4))

-- No byte of the text is a space.
abbrev pub NoSpace : List ℕ → Type 0
NoSpace = All (λ b. is_space b ≡ false)

pub trim_end-NoSpace : (x : ℕ) (s : List ℕ) → NoSpace (x ∷ s) → trim_end (x ∷ s) ≡ x ∷ s
unfolding trim_end trim_cons
trim_end-NoSpace x [] h = rw (h.0)
trim_end-NoSpace x (y ∷ s) h = keep x y s (trim_end-NoSpace y s h.1)
  where
    keep : (x y : ℕ) (s : List ℕ) → trim_end (y ∷ s) ≡ y ∷ s → trim_end (x ∷ y ∷ s) ≡ x ∷ y ∷ s
    keep x y s e = ap (trim_cons x) e

trim_end-append :
    (a : List ℕ) (y : ℕ) (b : List ℕ) → NoSpace (y ∷ b) → trim_end (a ++ (y ∷ b)) ≡ a ++ (y ∷ b)
unfolding trim_end trim_cons
trim_end-append [] y b h = trim_end-NoSpace y b h
trim_end-append (x ∷ a) y b h = ap (trim_cons x) (trim_end-append a y b h) ∙ full x a y b
  where
    full :
        (x : ℕ) (a : List ℕ) (y : ℕ) (b : List ℕ) → trim_cons x (a ++ (y ∷ b)) ≡ x ∷ (a ++ (y ∷ b))
    full x [] y b = refl
    full x (z ∷ a) y b = refl

-- A text that starts with a byte that is no space and ends in a nonempty field without spaces.
pub trim_lem :
    (x : ℕ) (a t : List ℕ)
    → is_space x ≡ false
    → NoSpace t
    → 0 < length t
    → trim (x ∷ (a ++ t)) ≡ x ∷ (a ++ t)
trim_lem x a [] h k p = absurd (omega arith)
trim_lem x a (y ∷ b) h k p = unfold trim trim_start in rw h (trim_end-append (x ∷ a) y b k)
