-- ===== src/Ima/Log/Prefix.antt =====
-- The attested bytes of a log are the text of the attested records.
use vpma.Prelude.{
  ℕ, zero, suc, ◌+◌, ◌-◌, ◌<◌, ◌≡◌, refl, sym, ap, ap₂, subst, ◌∙◌, inl, inr, false, List, [], ◌∷◌,
  ◌++◌, append-nil, append_assoc, map, arith, ◌==◌, length, length-append, length-take, take, drop,
  take-length-append, get_or, Bool-cases,
}
use vpma.Crypto.{Crypto}
use vpma.Ima.{ImaRecord, AttestedImaPrefix, reconciled}
use vpma.Ima.Replay.{IsAttested, reconcile_ima_against_pcr10_sound}
use vpma.Ima.Log.{
  push_front, split_inclusive, ParsedLine, skipped, bad_line, record_line, ParsedLog, parsed_log,
  log_refused, parse_line, push_record, after_line, parse_segments, parse_ima_log, reconcile_parsed,
  verify_ima_log_against_pcr10,
}

abbrev join : List (List ℕ) → List ℕ
join [] = []
join (s ∷ ss) = s ++ join ss

join_parts : (k : ℕ) (ss : List (List ℕ)) → join (take k ss) ++ join (drop k ss) ≡ join ss
join_parts zero ss = refl
join_parts (suc k) [] = refl
join_parts (suc k) (s ∷ ss) =
    append_assoc s (join (take k ss)) (join (drop k ss)) ∙ ap (λ t. s ++ t) (join_parts k ss)

join-push_front : (b : ℕ) (ss : List (List ℕ)) → join (push_front b ss) ≡ b ∷ join ss
unfolding push_front
join-push_front b [] = refl
join-push_front b (s ∷ ss) = refl

join-split_inclusive : (log : List ℕ) → join (split_inclusive log) ≡ log
unfolding split_inclusive
join-split_inclusive [] = refl
join-split_inclusive (b ∷ bs) = elim (Bool-cases (b == 10)) [
  | inl t ↦ rw t (ap (λ t. b ∷ t) (join-split_inclusive bs))
  | inr f ↦
      rw f (join-push_front b (split_inclusive bs) ∙ ap (λ t. b ∷ t) (join-split_inclusive bs))
]

pushed :
    (b : ℕ)
    → (b == 10) ≡ false
    → (ss : List (List ℕ)) (k : ℕ) → ((n : ℕ) → split_inclusive (join (take n ss)) ≡ take n ss)
    → split_inclusive (join (take (suc k) (push_front b ss))) ≡ take (suc k) (push_front b ss)
unfolding split_inclusive push_front
pushed b f [] zero h = rw f refl
pushed b f [] (suc k) h = rw f refl
pushed b f (s ∷ ss) k h = rw f (ap (push_front b) (h (suc k)))

-- The first segments are the segments of their text.
split_again :
    (log : List ℕ) (k : ℕ)
    → split_inclusive (join (take k (split_inclusive log))) ≡ take k (split_inclusive log)
unfolding split_inclusive
split_again log zero = refl
split_again [] (suc k) = refl
split_again (b ∷ bs) (suc k) = elim (Bool-cases (b == 10)) [
  | inl t ↦ rw t (rw t (ap (λ ss. (b ∷ []) ∷ ss) (split_again bs k)))
  | inr f ↦ rw f (pushed b f (split_inclusive bs) k (λ n. split_again bs n))
]

module _ (c : Crypto) (trim_end : List ℕ → List ℕ) where
  -- A record ends where some first segments end, and these hold the records up to it.
  Reaches : ℕ → List (List ℕ) → List ImaRecord → ℕ → Type 0
  Reaches cursor segments rs n =
      (k : ℕ) × (get_or (map (λ r. r.end_offset) rs) n 0 ≡ cursor + length (join (take k segments)))
      × (parse_segments c trim_end cursor (take k segments) ≡ parsed_log (take (suc n) rs))

  one_more :
      (cursor : ℕ) (s : List ℕ) (rest : List (List ℕ)) (rs whole : List ImaRecord) (m n : ℕ)
      → get_or (map (λ r. r.end_offset) whole) n 0 ≡ get_or (map (λ r. r.end_offset) rs) m 0
      → ((ss : List (List ℕ))
          → parse_segments c trim_end (cursor + length s) ss ≡ parsed_log (take (suc m) rs)
          → parse_segments c trim_end cursor (s ∷ ss) ≡ parsed_log (take (suc n) whole))
      → Reaches (cursor + length s) rest rs m
      → Reaches cursor (s ∷ rest) whole n
  unfolding Reaches
  one_more cursor s rest rs whole m n same step (k, at, ran) = (
    suc k,
    same ∙ (at ∙ omega (arith, length-append s (join (take k rest)))),
    step (take k rest) ran,
  )

  -- A record at the head, and what follows it.
  headed :
      (cursor : ℕ) (s : List ℕ) (rest : List (List ℕ)) (r : ImaRecord) (others : List ImaRecord)
      → r.end_offset ≡ cursor + length s
      → ((ss : List (List ℕ)) (rs : List ImaRecord)
          → parse_segments c trim_end (cursor + length s) ss ≡ parsed_log rs
          → parse_segments c trim_end cursor (s ∷ ss) ≡ parsed_log (r ∷ rs))
      → ((m : ℕ) → m < length others → Reaches (cursor + length s) rest others m)
      → (n : ℕ) → n < length (r ∷ others)
      → Reaches cursor (s ∷ rest) (r ∷ others) n
  headed cursor s rest r others at step later zero l =
      let none_after : parse_segments c trim_end (cursor + length s) [] ≡ parsed_log [] =
        unfold parse_segments in refl in
      unfold Reaches in
      (1, at ∙ ap (λ t. cursor + length t) (sym (append-nil s)), step [] [] none_after)
  headed cursor s rest r others at step later (suc m) l =
      one_more cursor s rest others (r ∷ others) m (suc m) refl
        (λ ss. step ss (take (suc m) others)) (later m (omega (arith, l)))

  by_line :
      (cursor : ℕ) (s : List ℕ) (rest : List (List ℕ)) (rs : List ImaRecord) (n : ℕ)
      → n < length rs
      → ((xs : List ImaRecord)
          → parse_segments c trim_end (cursor + length s) rest ≡ parsed_log xs
          → (m : ℕ) → m < length xs
          → Reaches (cursor + length s) rest xs m)
      → (line : ParsedLine) → parse_line c (trim_end s) ≡ line
      → (others : ParsedLog) → parse_segments c trim_end (cursor + length s) rest ≡ others
      → after_line (cursor + length s) line others ≡ parsed_log rs
      → Reaches cursor (s ∷ rest) rs n
  unfolding parse_segments after_line push_record
  by_line cursor s rest rs n l later skipped e others f h =
      one_more cursor s rest rs rs n n refl (λ ss ran. rw e ran) (later rs (f ∙ h) n l)
  by_line cursor s rest rs n l later (bad_line code) e others f h = absurd cc
  by_line cursor s rest rs n l later (record_line digest hash path) e (log_refused code) f h =
      absurd cc
  by_line cursor s rest rs n l later (record_line digest hash path) e (parsed_log others) f h =
      let r : ImaRecord = record {
        extend_digest = digest;
        file_hash = hash;
        file_path = path;
        end_offset = cursor + length s;
      } in
      let same : r ∷ others ≡ rs = cc in
      subst (λ xs. Reaches cursor (s ∷ rest) xs n) same
        (headed cursor s rest r others refl (λ ss xs ran. rw (e, ran) refl) (later others f) n
          (subst (λ xs. n < length xs) (sym same) l))

  reached :
      (segments : List (List ℕ)) (cursor : ℕ) (rs : List ImaRecord) (n : ℕ)
      → parse_segments c trim_end cursor segments ≡ parsed_log rs
      → n < length rs
      → Reaches cursor segments rs n
  unfolding parse_segments
  reached [] cursor rs n h l =
      let empty : [] ≡ rs = cc in absurd (omega (arith, l, ap length (sym empty)))
  reached (s ∷ rest) cursor rs n h l =
      by_line cursor s rest rs n l (λ xs ran m. reached rest (cursor + length s) xs m ran) _ refl _
        refl h

  -- The bytes up to the end of a record hold exactly the records up to it: a log that is cut there
  -- is parsed to these records.
  parse_ima_log-take :
      (ima_log : List ℕ) (rs : List ImaRecord) (n : ℕ)
      → parse_ima_log c trim_end ima_log ≡ parsed_log rs
      → n < length rs
      → parse_ima_log c trim_end (take (get_or (map (λ r. r.end_offset) rs) n 0) ima_log)
        ≡ parsed_log (take (suc n) rs)
  unfolding parse_ima_log Reaches
  parse_ima_log-take ima_log rs n h l =
      let (k, at, ran) = reached (split_inclusive ima_log) 0 rs n h l in
      let segments = split_inclusive ima_log in
      let cut : take (get_or (map (λ r. r.end_offset) rs) n 0) ima_log ≡ join (take k segments) =
        ap₂ take (at ∙ omega arith)
          (sym (join-split_inclusive ima_log) ∙ sym (join_parts k segments))
        ∙ take-length-append (join (take k segments)) (join (drop k segments)) in
      ap (λ t. parse_segments c trim_end 0 (split_inclusive t)) cut
      ∙ (ap (parse_segments c trim_end 0) (split_again ima_log k) ∙ ran)

  of_parsed :
      (ima_log pcr10_hex : List ℕ) (p : AttestedImaPrefix) (log : ParsedLog)
      → parse_ima_log c trim_end ima_log ≡ log
      → reconcile_parsed c trim_end log pcr10_hex ≡ reconciled p
      → (rs : List ImaRecord) × (target : List ℕ) × (parse_ima_log c trim_end ima_log
          ≡ parsed_log rs)
        × IsAttested c rs target p
        × (parse_ima_log c trim_end (take p.attested_bytes ima_log) ≡ parsed_log p.attested)
  unfolding reconcile_parsed
  of_parsed ima_log pcr10_hex p (log_refused code) e h = absurd cc
  of_parsed ima_log pcr10_hex p (parsed_log rs) e h =
      let (target, _, _, attests) = reconcile_ima_against_pcr10_sound c rs pcr10_hex p h in
      let (first, some_there, _, _, bytes) = attests in
      let n = length p.attested - 1 in
      let size : suc n ≡ length p.attested = omega (arith, some_there) in
      let fits : n < length rs =
        omega (arith, some_there, length-take (length p.attested) rs, ap length first) in
      let cut = parse_ima_log-take ima_log rs n e fits in
      let same : take (suc n) rs ≡ p.attested = ap (λ k. take k rs) size ∙ sym first in
      (
        rs,
        target,
        e,
        attests,
        ap (λ o. parse_ima_log c trim_end (take o ima_log)) bytes ∙ (cut ∙ ap parsed_log same),
      )

  -- An accepted log: its text is parsed to records of which a prefix, not empty, replays to the
  -- register that was given; and the attested bytes of the text, parsed alone, are exactly the
  -- attested records.
  pub verify_ima_log_against_pcr10_lem :
      (ima_log pcr10_hex : List ℕ) (p : AttestedImaPrefix)
      → verify_ima_log_against_pcr10 c trim_end ima_log pcr10_hex ≡ reconciled p
      → (rs : List ImaRecord) × (target : List ℕ) × (parse_ima_log c trim_end ima_log
          ≡ parsed_log rs)
        × IsAttested c rs target p
        × (parse_ima_log c trim_end (take p.attested_bytes ima_log) ≡ parsed_log p.attested)
  unfolding verify_ima_log_against_pcr10
  verify_ima_log_against_pcr10_lem ima_log pcr10_hex p h =
      of_parsed ima_log pcr10_hex p (parse_ima_log c trim_end ima_log) refl h
