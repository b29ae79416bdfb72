-- ===== src/Calendar/Examples.antt =====
-- A leap day.
use vpma.Prelude.{◌^◌, ◌<◌, ◌≡◌, refl, some, arith}
use vpma.Calendar.{
  is_leap_year, days_in_year, days_in_months, year_loop, month_loop, Timestamp, timestamp_fields,
  in_year, get_timestamp, sgx_get_timestamp,
}
use vpma.Calendar.Dates.{Tells, get_timestamp_lem}

-- 2024-02-29 12:34:56.
leap_day :
    get_timestamp 60 1709210096
    ≡ some (record { year = 2024; month = 2; day = 29; hours = 12; minutes = 34; seconds = 56 })
unfolding get_timestamp in_year timestamp_fields year_loop month_loop days_in_months days_in_year
    is_leap_year
leap_day = refl

get_timestamp_lem_example :
    (t : Timestamp) × (get_timestamp 20000 1709210096 ≡ some t)
    × (sgx_get_timestamp 20000 1709210096 ≡ some t)
    × Tells 1709210096 t
    × (t.year < 2 ^ 31)
get_timestamp_lem_example = get_timestamp_lem 20000 1709210096 (omega arith) (omega arith)
