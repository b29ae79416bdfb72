-- ===== src/HostTotal.antt =====
-- The total of the host's energy counters: `compute_total_host_energy` of src/exporters/qemu.rs and
-- `ecall_compute_total_host_energy` of sgx/src/lib.rs. An i128 is its two's complement. `str::trim`
-- is modelled on ASCII white space.
pub mod Sums
mod Examples
use vpma.Prelude.{
  ℕ, ◌+◌, ◌-◌, ◌%◌, ◌^◌, Option, none, some, List, [], ◌∷◌, ltb, ◌==◌, if◌then◌else◌, ℤ, pos,
  length,
}
use vpma.Text.Numbers.{show_dec}
use vpma.Anchor.{trim}
use vpma.Exporter.{Text}
use vpma.Redis.{digits_below}

-- The field `value` of a RawEnergyValue.
abbrev pub RawEnergyValue : Type 0
RawEnergyValue = Text

pub negate : Option ℕ → Option ℕ
negate none = none
negate (some n) = some ((2 ^ 128 - n) % 2 ^ 128)

-- `parse::<i128>`
pub parse_i128 : Text → Option ℕ
parse_i128 [] = none
parse_i128 (b ∷ bs) =
    if b == 45
    then negate (digits_below (2 ^ 127 + 1) bs)
    else if b == 43
    then digits_below (2 ^ 127) bs
    else digits_below (2 ^ 127) (b ∷ bs)

-- `total += v`, with its wrap-around.
pub add_parsed : ℕ → Option ℕ → ℕ
add_parsed total none = total
add_parsed total (some v) = (total + v) % 2 ^ 128

pub total_loop : ℕ → List RawEnergyValue → ℕ
total_loop total [] = total
total_loop total (r ∷ rs) = total_loop (add_parsed total (parse_i128 (trim r))) rs

-- `to_string` of an i128, which has at most 39 digits.
pub show_i128 : ℕ → Text
show_i128 n = if ltb n (2 ^ 127) then show_dec 39 n else 45 ∷ show_dec 39 (2 ^ 128 - n)

pub compute_total_host_energy : List RawEnergyValue → List RawEnergyValue → Text
compute_total_host_energy pkg_values dram_values =
    show_i128 (total_loop (total_loop 0 pkg_values) dram_values)

-- The end of the call: what does not fit into the buffer is not copied.
copy_out : ℕ → Text → ℤ × Text
copy_out out_cap result_bytes =
    if ltb out_cap (length result_bytes) then (pos 3, []) else (pos 0, result_bytes)

-- The values as `serde_json::from_slice` returns them: the code, and what is copied out.
pub ecall_compute_total_host_energy :
    Option (List RawEnergyValue) → Option (List RawEnergyValue) → ℕ → ℤ × Text
ecall_compute_total_host_energy none dram_values out_cap = (pos 2, [])
ecall_compute_total_host_energy (some pkg_values) none out_cap = (pos 2, [])
ecall_compute_total_host_energy (some pkg_values) (some dram_values) out_cap =
    copy_out out_cap (show_i128 (total_loop (total_loop 0 pkg_values) dram_values))
