-- ===== src/Calendar/Dates.antt =====
-- The loops end, and their date is the one of the calendar.
use vpma.Prelude.{
  ℕ, zero, suc, ◌+◌, ◌-◌, ◌*◌, ◌/◌, ◌%◌, ◌^◌, ◌≤◌, ◌<◌, ◌≡◌, refl, sym, ap, ap₂, subst, ◌∙◌, ◌⊎◌,
  inl, inr, false, some, List, [], ◌∷◌, arith, map, length, take, ltb, ◌==◌, Bool-cases,
}
use vpma.Attribution.Total.{sum}
use vpma.Calendar.{
  is_leap_year, days_in_year, days_in_months, year_loop, month_loop, Timestamp, timestamp_fields,
  in_year, get_timestamp, days_in_month, sgx_month_loop, magnitude, sgx_year_loop, sgx_in_year,
  sgx_get_timestamp,
}

-- The days before a year, from the year 0 on: 365 for each and one more for each leap year.
abbrev pub days_before_year : ℕ → ℕ
days_before_year y = 365 * y + (y + 3) / 4 + (y + 399) / 400 - (y + 99) / 100

-- A step of the quotient by 4, 100 or 400 that the formula counts.
quarter :
    (y : ℕ)
    → ((y % 4 ≡ 0) × ((y + 4) / 4 ≡ (y + 3) / 4 + 1))
      ⊎ (((y % 4 == 0) ≡ false) × ((y + 4) / 4 ≡ (y + 3) / 4))
quarter y = ground arith

century :
    (y : ℕ)
    → ((y % 100 ≡ 0) × ((y + 100) / 100 ≡ (y + 99) / 100 + 1))
      ⊎ (((y % 100 == 0) ≡ false) × ((y + 100) / 100 ≡ (y + 99) / 100))
century y = ground arith

four_centuries :
    (y : ℕ)
    → ((y % 400 ≡ 0) × ((y + 400) / 400 ≡ (y + 399) / 400 + 1))
      ⊎ (((y % 400 == 0) ≡ false) × ((y + 400) / 400 ≡ (y + 399) / 400))
four_centuries y = ground arith

next_year : (y : ℕ) → days_before_year (y + 1) ≡ days_before_year y + days_in_year y
unfolding days_in_year is_leap_year
next_year y = ground (arith, quarter y, century y, four_centuries y)

at_least : (y : ℕ) → 365 ≤ days_in_year y
unfolding days_in_year
at_least y = elim (Bool-cases (is_leap_year y)) [
  | inl t ↦ rw t (omega arith)
  | inr f ↦ rw f (omega arith)
]

year_loop_lem :
    (fuel y r : ℕ)
    → r < fuel
    → (y' : ℕ) × (r' : ℕ) × (year_loop fuel y r ≡ some (y', r'))
      × (r' < days_in_year y')
      × (days_before_year y' + r' ≡ days_before_year y + r)
unfolding year_loop
year_loop_lem zero y r l = absurd (omega (arith, l))
year_loop_lem (suc fuel) y r l = elim (Bool-cases (ltb r (days_in_year y))) [
  | inl t ↦ (y, r, rw t refl, ground (arith, t), refl)
  | inr f ↦
      let long : 365 ≤ days_in_year y = at_least y in
      let le : days_in_year y ≤ r = ground (arith, f) in
      let (y', r', e, small, total) =
        year_loop_lem fuel (y + 1) (r - days_in_year y) (omega (arith, l, long, le)) in
      (y', r', rw f e, small, total ∙ omega (arith, next_year y, le))
]

-- The days of the first months.
abbrev pub days_before_month : ℕ → ℕ → ℕ
days_before_month y month = sum (take (month - 1) (days_in_months y))

month_loop_lem :
    (ms : List ℕ) (m r : ℕ)
    → r < sum ms
    → (k : ℕ) × (month_loop ms m r ≡ (m + k, r - sum (take k ms)))
      × (k < length ms)
      × (sum (take k ms) ≤ r)
      × (r < sum (take (suc k) ms))
unfolding month_loop
month_loop_lem [] m r l = absurd (omega (arith, l))
month_loop_lem (d ∷ ms) m r l = elim (Bool-cases (ltb r d)) [
  | inl t ↦ (
    0,
    rw t (ap₂ (λ a b. (a, b)) (omega arith) (omega arith)),
    omega arith,
    omega arith,
    ground (arith, t),
  )
  | inr f ↦
      let le : d ≤ r = ground (arith, f) in
      let (k, e, room, low, high) = month_loop_lem ms (m + 1) (r - d) (omega (arith, l, le)) in
      (
        suc k,
        rw f (e ∙ ap₂ (λ a b. (a, b)) (omega arith) (omega arith)),
        omega (arith, room),
        omega (arith, low, le),
        omega (arith, high, le),
      )
]

months_of_year :
    (y : ℕ) → (sum (days_in_months y) ≡ days_in_year y) × (length (days_in_months y) ≡ 12)
unfolding days_in_months days_in_year
months_of_year y = elim (Bool-cases (is_leap_year y)) [
  | inl t ↦ rw t (refl, refl)
  | inr f ↦ rw f (refl, refl)
]

abbrev months_from : ℕ → ℕ → List ℕ
months_from m zero = []
months_from m (suc n) = m ∷ months_from (m + 1) n

same_month :
    (y m n r : ℕ)
    → r < sum (map (days_in_month y) (months_from m n))
    → sgx_month_loop y (months_from m n) r
      ≡ month_loop (map (days_in_month y) (months_from m n)) m r
unfolding sgx_month_loop month_loop
same_month y m zero r l = absurd (omega (arith, l))
same_month y m (suc n) r l = elim (Bool-cases (ltb r (days_in_month y m))) [
  | inl t ↦ rw t refl
  | inr f ↦
      let le : days_in_month y m ≤ r = ground (arith, f) in
      rw f (same_month y (m + 1) n (r - days_in_month y m) (omega (arith, l, le)))
]

same_lengths : (y : ℕ) → map (days_in_month y) (months_from 1 12) ≡ days_in_months y
unfolding days_in_month days_in_months
same_lengths y = elim (Bool-cases (is_leap_year y)) [ inl t ↦ rw t refl | inr f ↦ rw f refl ]

first_months :
    (ds : List ℕ) (k : ℕ)
    → (sum (take (1 + k - 1) ds) ≡ sum (take k ds))
      × (sum (take (1 + k + 1 - 1) ds) ≡ sum (take (suc k) ds))
first_months ds k =
    let e : 1 + k - 1 ≡ k = omega arith in
    let f : 1 + k + 1 - 1 ≡ suc k = omega arith in
    (ap (λ n. sum (take n ds)) e, ap (λ n. sum (take n ds)) f)

-- What a timestamp says: a month of the year, a day of that month and a time of day, which are so
-- many seconds after the start of 1970, day 719528 of the calendar.
abbrev pub Tells : ℕ → Timestamp → Type 0
Tells secs t =
    (1 ≤ t.month)
    × (t.month ≤ 12)
    × (1 ≤ t.day)
    × (days_before_month t.year t.month + t.day ≤ days_before_month t.year (t.month + 1))
    × (t.hours < 24)
    × (t.minutes < 60)
    × (t.seconds < 60)
    × (days_before_year t.year + days_before_month t.year t.month + t.day ≡ 719529 + secs / 86400)
    × (t.hours * 3600 + t.minutes * 60 + t.seconds ≡ secs % 86400)

-- Below 2^31 the i32 is the number.
magnitude_lem : (y : ℕ) → y < 2 ^ 31 → magnitude y ≡ y
unfolding magnitude
magnitude_lem y l = ground (arith, l)

same_year :
    (fuel y r : ℕ) → 365 * y + r < 365 * (2 ^ 31 - 1) → sgx_year_loop fuel y r ≡ year_loop fuel y r
unfolding sgx_year_loop year_loop
same_year zero y r l = refl
same_year (suc fuel) y r l =
    let year : magnitude y ≡ y = magnitude_lem y (omega (arith, l)) in
    let next : (y + 1) % 2 ^ 32 ≡ y + 1 = omega (arith, l) in
    rw (year, next)
      (elim (Bool-cases (ltb r (days_in_year y))) [
        | inl t ↦ rw t refl
        | inr f ↦
            let long : 365 ≤ days_in_year y = at_least y in
            let le : days_in_year y ≤ r = ground (arith, f) in
            rw f (same_year fuel (y + 1) (r - days_in_year y) (omega (arith, l, long, le)))
      ])

-- The calendar has at least 365 days for each year.
year_bounded : (y d : ℕ) → days_before_year y ≤ d → 365 * y ≤ d
year_bounded y d l = omega (arith, l)

-- The loop over the years ends: for seconds below 2^55, some 1.1 thousand million years, and with
-- fuel for more rounds than there are days since 1970, each timestamp function returns, both return
-- the same fields, and these are the calendar's for the seconds given, with a year that an i32
-- holds.
pub get_timestamp_lem :
    (fuel secs : ℕ)
    → secs < 2 ^ 55
    → secs / 86400 < fuel
    → (t : Timestamp) × (get_timestamp fuel secs ≡ some t)
      × (sgx_get_timestamp fuel secs ≡ some t)
      × Tells secs t
      × (t.year < 2 ^ 31)
unfolding get_timestamp sgx_get_timestamp in_year sgx_in_year timestamp_fields
get_timestamp_lem fuel secs small_clock l =
    let days = secs / 86400 in
    let (y, r, e, small, total) = year_loop_lem fuel 1970 days l in
    let (whole, twelve) = months_of_year y in
    let (k, month, room, low, high) =
      month_loop_lem (days_in_months y) 1 r (omega (arith, whole, small)) in
    let ms = days_in_months y in
    let (before, after) = first_months ms k in
    let within : r < sum (map (days_in_month y) (months_from 1 12)) =
      subst (λ ds. r < sum ds) (sym (same_lengths y)) (omega (arith, whole, small)) in
    let same : sgx_month_loop y (months_from 1 12) r ≡ (1 + k, r - sum (take k ms)) =
      same_month y 1 12 r within ∙ (ap (λ ds. month_loop ds 1 r) (same_lengths y) ∙ month) in
    let early : 365 * 1970 + days < 365 * (2 ^ 31 - 1) = omega (arith, small_clock) in
    let i32_year : sgx_year_loop fuel 1970 days ≡ some (y, r) =
      same_year fuel 1970 days early ∙ e in
    let fits : y < 2 ^ 31 =
      omega (arith, year_bounded y (days_before_year y) (omega arith), total, early) in
    (
      timestamp_fields secs y (1 + k, r - sum (take k ms)),
      rw (e, month) refl,
      rw (i32_year, magnitude_lem y fits) (ap (λ x. some (timestamp_fields secs y x)) same),
      (
        omega arith,
        omega (arith, room, twelve),
        omega arith,
        omega (arith, before, after, low, high),
        omega arith,
        omega arith,
        omega arith,
        omega (arith, before, total, low),
        omega arith,
      ),
      fits,
    )
