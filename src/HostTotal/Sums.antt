-- ===== src/HostTotal/Sums.antt =====
-- Counters are added up without loss.
use vpma.Prelude.{
  ℕ, ◌+◌, ◌%◌, ◌^◌, ◌<◌, ◌≡◌, refl, ap, ◌∙◌, true, false, some, List, [], ◌∷◌, map, arith, ltb,
  ◌==◌, pos, length, All, if◌then◌else◌,
}
use vpma.Text.Numbers.{IsDigit, show_dec, show_u64}
use vpma.Anchor.{trim, trim_start, trim_end, is_space}
use vpma.Anchor.Parts.{NoSpace, trim_end-NoSpace}
use vpma.Attribution.Total.{sum}
use vpma.Exporter.{Text}
use vpma.Redis.Numbers.{IsNumber, show_u64-IsNumber, digits_below_lem}
use vpma.HostTotal.{
  parse_i128, add_parsed, total_loop, show_i128, compute_total_host_energy, copy_out,
  ecall_compute_total_host_energy,
}

digits-NoSpace : (s : Text) → All IsDigit s → NoSpace s
unfolding is_space
digits-NoSpace [] h = tt
digits-NoSpace (b ∷ bs) h = (ground (arith, h.0), digits-NoSpace bs h.1)

trim_digits : (s : Text) → All IsDigit s → trim s ≡ s
unfolding trim trim_start
trim_digits [] h = unfold trim_end in refl
trim_digits (b ∷ bs) h =
    let (visible, others) = digits-NoSpace (b ∷ bs) h in
    rw visible (trim_end-NoSpace b bs (visible, others))

parse_digits_i128 : (n : ℕ) (s : Text) → IsNumber n s → n < 2 ^ 64 → parse_i128 s ≡ some n
unfolding parse_i128
parse_digits_i128 n [] (nonempty, digits, value) l = absurd (omega (arith, nonempty))
parse_digits_i128 n (b ∷ bs) (nonempty, digits, value) l =
    let no_minus : (b == 45) ≡ false = ground (arith, digits) in
    let no_plus : (b == 43) ≡ false = ground (arith, digits) in
    rw (no_minus, no_plus)
      (digits_below_lem (2 ^ 127) n (b ∷ bs) (nonempty, digits, value) (omega (arith, l)))

read_counter : (n : ℕ) → n < 2 ^ 64 → parse_i128 (trim (show_u64 n)) ≡ some n
read_counter n l =
    let number = show_u64-IsNumber n l in
    ap parse_i128 (trim_digits (show_u64 n) number.1) ∙ parse_digits_i128 n (show_u64 n) number l

-- One counter more.
total_loop_step :
    (t n : ℕ) (rs : List Text)
    → n < 2 ^ 64
    → t + n < 2 ^ 127
    → total_loop t (show_u64 n ∷ rs) ≡ total_loop (t + n) rs
unfolding total_loop add_parsed
total_loop_step t n rs small room =
    let same : (t + n) % 2 ^ 128 ≡ t + n = omega (arith, room) in
    ap (λ o. total_loop (add_parsed t o) rs) (read_counter n small) ∙ ap (λ k. total_loop k rs) same

total_loop_lem :
    (t : ℕ) (ns : List ℕ)
    → All (λ n. n < 2 ^ 64) ns
    → t + sum ns < 2 ^ 127
    → total_loop t (map show_u64 ns) ≡ t + sum ns
unfolding total_loop
total_loop_lem t [] small room = omega arith
total_loop_lem t (n ∷ ns) small room =
    total_loop_step t n (map show_u64 ns) small.0 (omega (arith, room))
    ∙ (total_loop_lem (t + n) ns small.1 (omega (arith, room)) ∙ omega arith)

-- For counters of u64 in decimal text whose sum is below 2^127, the call and the library function
-- give the decimal text of exactly the sum of all packages and memories; the call gives it with the
-- code 0 where the buffer holds it, and otherwise the code 3 and nothing.
pub compute_total_host_energy_lem :
    (pkg dram : List ℕ) (out_cap : ℕ)
    → All (λ n. n < 2 ^ 64) pkg
    → All (λ n. n < 2 ^ 64) dram
    → sum pkg + sum dram < 2 ^ 127
    → (compute_total_host_energy (map show_u64 pkg) (map show_u64 dram)
        ≡ show_dec 39 (sum pkg + sum dram))
      × (ecall_compute_total_host_energy
            (some (map show_u64 pkg))
            (some (map show_u64 dram))
            out_cap
          ≡ (if ltb out_cap (length (show_dec 39 (sum pkg + sum dram)))
              then (pos 3, [])
              else (pos 0, show_dec 39 (sum pkg + sum dram))))
unfolding compute_total_host_energy ecall_compute_total_host_energy copy_out show_i128
compute_total_host_energy_lem pkg dram out_cap small small' room =
    let first = total_loop_lem 0 pkg small (omega (arith, room)) in
    let second = total_loop_lem (sum pkg) dram small' room in
    let start : 0 + sum pkg ≡ sum pkg = omega arith in
    let below : ltb (sum pkg + sum dram) (2 ^ 127) ≡ true = ground (arith, room) in
    (rw (first, start, second, below) refl, rw (first, start, second, below) refl)
