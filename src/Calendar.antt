-- ===== src/Calendar.antt =====
-- The timestamps that the enclave writes into blocks and records: `get_timestamp` and `is_leap_year`
-- of sgx_vm/src/blockchain.rs, and `sgx_get_timestamp` of sgx_vm/src/lib.rs. The clock's seconds are
-- the argument; the fields are the result, before they are written as text. The year is a u64 in the
-- first, which no seconds of u64 make overflow, and an i32 in the second, which wraps around.
pub mod Dates
mod Examples
use vpma.Prelude.{
  ℕ, zero, suc, ◌+◌, ◌-◌, ◌*◌, ◌/◌, ◌%◌, ◌^◌, Bool, true, false, not, ◌&&◌, ◌||◌, Option, none,
  some, List, [], ◌∷◌, map, ltb, ◌==◌, if◌then◌else◌,
}

unfoldable pub is_leap_year : ℕ → Bool
is_leap_year year = (year % 4 == 0 && not (year % 100 == 0)) || year % 400 == 0

unfoldable pub days_in_year : ℕ → ℕ
days_in_year year = if is_leap_year year then 366 else 365

unfoldable pub days_in_months : ℕ → List ℕ
days_in_months year =
    if is_leap_year year
    then 31 ∷ 29 ∷ 31 ∷ 30 ∷ 31 ∷ 30 ∷ 31 ∷ 31 ∷ 30 ∷ 31 ∷ 30 ∷ 31 ∷ []
    else 31 ∷ 28 ∷ 31 ∷ 30 ∷ 31 ∷ 30 ∷ 31 ∷ 31 ∷ 30 ∷ 31 ∷ 30 ∷ 31 ∷ []

-- The `loop` over the years, on fuel: the year and the days left in it.
unfoldable pub year_loop : ℕ → ℕ → ℕ → Option (ℕ × ℕ)
year_loop zero year remaining_days = none
year_loop (suc fuel) year remaining_days =
    let rest = year_loop fuel (year + 1) (remaining_days - days_in_year year) in
    if ltb remaining_days (days_in_year year) then some (year, remaining_days) else rest

-- The `for` over the months: the month and the days left in it.
unfoldable pub month_loop : List ℕ → ℕ → ℕ → ℕ × ℕ
month_loop [] month remaining_days = (month, remaining_days)
month_loop (days_in_month ∷ rest) month remaining_days =
    if ltb remaining_days days_in_month
    then (month, remaining_days)
    else month_loop rest (month + 1) (remaining_days - days_in_month)

pub record Timestamp : Type 0 where
  pub year : ℕ
  pub month : ℕ
  pub day : ℕ
  pub hours : ℕ
  pub minutes : ℕ
  pub seconds : ℕ

unfoldable pub timestamp_fields : ℕ → ℕ → ℕ × ℕ → Timestamp
timestamp_fields secs year (month, remaining_days) = record {
  year = year;
  month = month;
  day = remaining_days + 1;
  hours = secs % 86400 / 3600;
  minutes = secs % 86400 % 3600 / 60;
  seconds = secs % 86400 % 60;
}

unfoldable pub in_year : ℕ → Option (ℕ × ℕ) → Option Timestamp
in_year secs none = none
in_year secs (some (year, remaining_days)) =
    some (timestamp_fields secs year (month_loop (days_in_months year) 1 remaining_days))

unfoldable pub get_timestamp : ℕ → ℕ → Option Timestamp
get_timestamp fuel secs = in_year secs (year_loop fuel 1970 (secs / 86400))

-- The `match` on the month in `sgx_get_timestamp`.
pub days_in_month : ℕ → ℕ → ℕ
days_in_month year m =
    if m == 2
    then if is_leap_year year then 29 else 28
    else if m == 4 || (m == 6 || (m == 9 || m == 11))
    then 30
    else 31

-- Its loop over the months that are left, where `month` starts at 1.
pub sgx_month_loop : ℕ → List ℕ → ℕ → ℕ × ℕ
sgx_month_loop year [] day_count = (1, day_count)
sgx_month_loop year (m ∷ ms) day_count =
    if ltb day_count (days_in_month year m)
    then (m, day_count)
    else sgx_month_loop year ms (day_count - days_in_month year m)

-- The absolute value of an i32 that is given by its word.
unfoldable pub magnitude : ℕ → ℕ
magnitude year = if ltb year (2 ^ 31) then year else 2 ^ 32 - year

-- Its loop over the years, with the year an i32.
unfoldable pub sgx_year_loop : ℕ → ℕ → ℕ → Option (ℕ × ℕ)
sgx_year_loop zero year day_count = none
sgx_year_loop (suc fuel) year day_count =
    let days = days_in_year (magnitude year) in
    let rest = sgx_year_loop fuel ((year + 1) % 2 ^ 32) (day_count - days) in
    if ltb day_count days then some (year, day_count) else rest

pub sgx_in_year : ℕ → Option (ℕ × ℕ) → Option Timestamp
sgx_in_year secs none = none
sgx_in_year secs (some (year, day_count)) = some (
    timestamp_fields secs year (
      sgx_month_loop (magnitude year) (1 ∷ 2 ∷ 3 ∷ 4 ∷ 5 ∷ 6 ∷ 7 ∷ 8 ∷ 9 ∷ 10 ∷ 11 ∷ 12 ∷ [])
        day_count))

pub sgx_get_timestamp : ℕ → ℕ → Option Timestamp
sgx_get_timestamp fuel secs = sgx_in_year secs (sgx_year_loop fuel 1970 (secs / 86400))
