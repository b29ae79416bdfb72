-- ===== src/Ima/Log/Guest/Lines.antt =====
-- The guest's way to part a line finds the fields that the host's finds, and what it keeps of a line
-- is what it needs of the host's record.
use vpma.Prelude.{
  ℕ, zero, suc, ◌+◌, ◌-◌, ◌<◌, ◌≡◌, refl, sym, ap, ap₂, ◌∙◌, ◌⊎◌, inl, inr, false, not, ◌&&◌,
  Option, none, some, List, [], ◌∷◌, map, arith, ltb, ◌==◌, ◌===◌, length, length-drop, take, drop,
  Bool-cases,
}
use vpma.Crypto.{Crypto}
use vpma.Text.{find_loop, find_byte, zero_loop, is_zero_hash}
use vpma.Ima.Log.Guest.{
  split_once, splitn_5, guest_template_data, guest_template_digest, GuestLine, no_record,
  bad_record, digest_of, Collected, collected, not_collected, all_zeros, digest_line, add_digest,
  after_guest_line, guest_fields,
}
use vpma.Ima.Log.{
  LineFields, option_then, template_data, ima_ng_template_digest_sha256, fields_of, pcr_10, ima_ng,
  ParsedLine, skipped, bad_line, record_line, ParsedLog, parsed_log, log_refused, digest_entry,
  line_of_fields, push_record, after_line,
}

-- Both ways to find a separator agree.
SeparatorAt : ℕ → List ℕ → ℕ → Type 0
SeparatorAt sep xs i =
    ((find_loop sep xs i ≡ none) × (split_once sep xs ≡ none))
    ⊎ ((j : ℕ) × (find_loop sep xs i ≡ some (i + j))
        × (split_once sep xs ≡ some (take j xs, drop (suc j) xs))
        × (j < length xs))

separator_lem : (sep : ℕ) (xs : List ℕ) (i : ℕ) → SeparatorAt sep xs i
unfolding SeparatorAt find_loop split_once
separator_lem sep [] i = inl (refl, refl)
separator_lem sep (b ∷ bs) i = elim (Bool-cases (b == sep)) [
  | inl t ↦ inr (0, rw t (ap some (omega arith)), rw t refl, omega arith)
  | inr f ↦ elim (separator_lem sep bs (i + 1)) [
    | inl (e, g) ↦ inl (rw f e, rw (f, g) refl)
    | inr (j, e, g, l) ↦
        inr (suc j, rw f (e ∙ ap some (omega arith)), rw (f, g) refl, omega (arith, l))
  ]
]

drop-nil : (k : ℕ) → drop {A = ℕ} k [] ≡ []
drop-nil zero = refl
drop-nil (suc k) = refl

drop-drop : (n m : ℕ) (xs : List ℕ) → drop m (drop n xs) ≡ drop (n + m) xs
drop-drop zero m xs = ap (λ k. drop k xs) (omega arith)
drop-drop (suc n) m [] = drop-nil m ∙ sym (drop-nil (suc n + m))
drop-drop (suc n) m (x ∷ xs) =
    let e : suc (n + m) ≡ suc n + m = omega arith in drop-drop n m xs ∙ ap (λ k. drop k (x ∷ xs)) e

-- From a place on, the separator that `find_byte` finds parts what follows.
NextSeparator : ℕ → List ℕ → ℕ → Type 0
NextSeparator sep lb place =
    ((find_byte lb sep place ≡ none) × (split_once sep (drop place lb) ≡ none))
    ⊎ ((b : ℕ) × (find_byte lb sep place ≡ some b)
        × (split_once sep (drop place lb)
            ≡ some (take (b - place) (drop place lb), drop (b + 1) lb))
        × (b < length lb))

next_separator : (sep : ℕ) (lb : List ℕ) (place : ℕ) → NextSeparator sep lb place
unfolding NextSeparator SeparatorAt find_byte
next_separator sep lb place = elim (separator_lem sep (drop place lb) place) [
  | inl none_left ↦ inl none_left
  | inr (j, e, g, l) ↦
      let size : j ≡ place + j - place = omega arith in
      let after : place + suc j ≡ place + j + 1 = omega arith in
      inr (
        place + j,
        e,
        g
            ∙ ap₂ (λ a b. some (a, b)) (ap (λ k. take k (drop place lb)) size)
                (drop-drop place (suc j) lb ∙ ap (λ k. drop k lb) after),
        omega (arith, l, length-drop place lb),
      )
]

-- The fields are the same.
pub fields_lem : (line : List ℕ) → splitn_5 line ≡ fields_of line
unfolding splitn_5 fields_of option_then NextSeparator
fields_lem line = elim (next_separator 32 line 0) [
  | inl (e0, g0) ↦ rw (e0, g0) refl
  | inr (b0, e0, g0, l0) ↦ elim (next_separator 32 line (b0 + 1)) [
    | inl (e1, g1) ↦ rw (e0, g0, e1, g1) refl
    | inr (b1, e1, g1, l1) ↦ elim (next_separator 32 line (b1 + 1)) [
      | inl (e2, g2) ↦ rw (e0, g0, e1, g1, e2, g2) refl
      | inr (b2, e2, g2, l2) ↦ elim (next_separator 32 line (b2 + 1)) [
        | inl (e3, g3) ↦ rw (e0, g0, e1, g1, e2, g2, e3, g3) refl
        | inr (b3, e3, g3, l3) ↦
            let room : ltb (length line) (b3 + 1) ≡ false = ground (arith, l3) in
            let first : b0 - 0 ≡ b0 = omega arith in
            rw (e0, g0, e1, g1, e2, g2, e3, g3, room, first) refl
      ]
    ]
  ]
]

zeros_lem : (s : List ℕ) → all_zeros s ≡ zero_loop s
unfolding all_zeros zero_loop
zeros_lem [] = refl
zeros_lem (b ∷ bs) = elim (Bool-cases (b == 48)) [ inl t ↦ rw t (zeros_lem bs) | inr f ↦ rw f refl ]

-- The two tests for a violation.
violation_lem :
    (s : List ℕ) → (not (length s == 0) && all_zeros s) ≡ (not (length s == 0) && is_zero_hash s)
unfolding is_zero_hash
violation_lem s = elim (Bool-cases (length s == 0)) [
  | inl t ↦ rw t refl
  | inr f ↦ rw f (zeros_lem s)
]

-- What the guest keeps of a line and of a log.
abbrev pub kept_of : ParsedLine → GuestLine
kept_of skipped = no_record
kept_of (bad_line code) = bad_record code
kept_of (record_line digest hash path) = digest_of digest

abbrev pub kept_log : ParsedLog → Collected
kept_log (parsed_log rs) = collected (map (λ r. r.extend_digest) rs) (map (λ r. r.end_offset) rs)
kept_log (log_refused code) = not_collected code

digest_lem :
    (c : Crypto) (f : LineFields) (d : Option (List ℕ))
    → digest_line d ≡ kept_of (digest_entry c f d)
unfolding digest_line digest_entry
digest_lem c f none = refl
digest_lem c f (some d) = refl

-- Both copies of the template digest are one function.
template_digest_lem :
    (c : Crypto) (dfield fname : List ℕ)
    → guest_template_digest c dfield fname ≡ ima_ng_template_digest_sha256 c dfield fname
unfolding guest_template_digest ima_ng_template_digest_sha256 guest_template_data template_data
    option_then NextSeparator
template_digest_lem c dfield fname = elim (next_separator 58 dfield 0) [
  | inl (e, g) ↦ rw (e, g) refl
  | inr (b, e, g, l) ↦ let first : b - 0 ≡ b = omega arith in rw (e, g, first) refl
]

pub guest_fields_lem :
    (c : Crypto) (trim_end : List ℕ → List ℕ) (f : Option LineFields)
    → guest_fields c trim_end f ≡ kept_of (line_of_fields c f)
unfolding guest_fields line_of_fields
guest_fields_lem c trim_end none = refl
guest_fields_lem c trim_end (some f) = elim (Bool-cases (f.pcr === pcr_10)) [
  | inr n ↦ rw n refl
  | inl t ↦ elim (Bool-cases (f.template === ima_ng)) [
    | inr n ↦ rw (t, n) refl
    | inl u ↦ elim (Bool-cases (not (length f.log_digest == 0) && is_zero_hash f.log_digest)) [
      | inl v ↦ rw (t, u, violation_lem f.log_digest, v) refl
      | inr w ↦
          rw (t, u, violation_lem f.log_digest, w, template_digest_lem c f.dfield f.fname)
            (digest_lem c f _)
    ]
  ]
]

pub after_lem :
    (cursor : ℕ) (line : ParsedLine) (rest : ParsedLog)
    → after_guest_line cursor (kept_of line) (kept_log rest)
      ≡ kept_log (after_line cursor line rest)
unfolding after_guest_line after_line add_digest push_record
after_lem cursor skipped rest = refl
after_lem cursor (bad_line code) rest = refl
after_lem cursor (record_line digest hash path) (parsed_log rs) = refl
after_lem cursor (record_line digest hash path) (log_refused code) = refl
