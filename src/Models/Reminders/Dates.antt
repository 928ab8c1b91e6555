-- ===== src/Models/Reminders/Dates.antt =====
-- The round trip of dates and day numbers (crates/vault-models/src/reminders.rs), split at the eras:
-- within an era the laws are tables, and the eras are linear arithmetic.
use safeory.Base.{
  ℕ, ◌+◌, ◌-◌, ◌*◌, ◌/◌, ◌%◌, ◌≡◌, ◌≤◌, ◌<◌, refl, inl, inr, Bool, true, not, ◌&&◌, ◌||◌, nat_eq,
  ◌==◌, ltb, leb, Bool-cases, every, arith, ℤ, pos, negsuc, ◌+ℤ◌, ◌-ℤ◌, ◌*ℤ◌, quot, as_u64, as_i32,
  IsI32, as_i32_self, if◌then◌else◌, every_pair,
}
use safeory.Models.Reminders.{
  is_leap_year, days_in_month, era_of_year, adjusted_year, month_index, days_since_civil,
  era_of_days, year_of_era, civil_of_era, civil_from_days,
}

-- The days of an era before a year of it.
abbrev start : ℕ → ℕ
start yoe = yoe * 365 + yoe / 4 - yoe / 100

-- The year of the era, counted from March, ends in a leap day.
abbrev is_long : ℕ → Bool
is_long yoe = (yoe + 1) % 4 == 0 && (not ((yoe + 1) % 100 == 0) || (yoe + 1) % 400 == 0)

abbrev year_test : ℕ → ℕ → Bool
year_test yoe doy =
    (doy == 365 && not (is_long yoe))
    || (year_of_era (start yoe + doy) == yoe && ltb (start yoe + doy) 146097)

year_table : every 400 (λ yoe. every 366 (year_test yoe)) ≡ true
unfolding every year_of_era
year_table = refl

abbrev month_days : ℕ → ℕ
month_days mp =
    if mp == 11 then 29 else if mp == 1 || (mp == 3 || (mp == 6 || mp == 8)) then 30 else 31

-- The day of the year, counted from March, of a month and a day.
abbrev day_of : ℕ → ℕ → ℕ
day_of mp d = (153 * mp + 2) / 5 + d - 1

abbrev month_test : ℕ → ℕ → Bool
month_test mp d =
    d == 0
    || (ltb (month_days mp) d
        || ((5 * day_of mp d + 2) / 153 == mp
            && (day_of mp d - (153 * mp + 2) / 5 + 1 == d
                && (ltb (day_of mp d) 366 && (not (day_of mp d == 365) || (mp == 11 && d == 29))))))

month_table : every 12 (λ mp. every 32 (month_test mp)) ≡ true
unfolding every
month_table = refl

-- The year of an era that a year counted from March is.
era_of_year_lem : (y : ℤ) → (yoe : ℕ) × (yoe < 400) × (y -ℤ era_of_year y *ℤ 400 ≡ pos yoe)
unfolding era_of_year quot ◌-ℤ◌ ◌*ℤ◌
era_of_year_lem (pos n) = (n % 400, omega arith, ground arith)
era_of_year_lem (negsuc n) = ((n / 400 + 1) * 400 - (n + 1), omega arith, ground arith)

year_back : (y era : ℤ) (yoe : ℕ) → y -ℤ era *ℤ 400 ≡ pos yoe → pos yoe +ℤ era *ℤ 400 ≡ y
unfolding ◌+ℤ◌ ◌-ℤ◌ ◌*ℤ◌
year_back y era yoe h = ground arith

-- The era of a day number, and the day of the era.
era_of_days_lem : (era : ℤ) (doe : ℕ) → doe < 146097 → era_of_days (era *ℤ 146097 +ℤ pos doe) ≡ era
unfolding era_of_days quot ◌+ℤ◌ ◌-ℤ◌ ◌*ℤ◌
era_of_days_lem (pos e) doe h = ground arith
era_of_days_lem (negsuc e) doe h = ground arith

shift_back : (x : ℤ) → x -ℤ pos 719468 +ℤ pos 719468 ≡ x
unfolding ◌+ℤ◌ ◌-ℤ◌
shift_back x = ground arith

day_of_era_lem :
    (era : ℤ) (doe : ℕ) → doe < 146097 → as_u64 (era *ℤ 146097 +ℤ pos doe -ℤ era *ℤ 146097) ≡ doe
unfolding ◌+ℤ◌ ◌-ℤ◌ ◌*ℤ◌
day_of_era_lem era doe h = ground arith

record MonthFacts (mp d : ℕ) : Type 0 where
  back : (5 * day_of mp d + 2) / 153 ≡ mp
  day : day_of mp d - (153 * mp + 2) / 5 + 1 ≡ d
  below : day_of mp d < 366
  last : day_of mp d ≡ 365 → (mp ≡ 11) × (d ≡ 29)

month_facts : (mp d : ℕ) → mp < 12 → 1 ≤ d → d ≤ month_days mp → MonthFacts mp d
month_facts mp d hm h1 hd =
    let t = every_pair 12 32 month_test mp d month_table hm (ground arith) in
    record {
      back = ground arith;
      day = ground arith;
      below = ground arith;
      last = λ e. ground arith;
    }

year_facts :
    (yoe doy : ℕ)
    → yoe < 400
    → doy < 366
    → (doy ≡ 365 → is_long yoe ≡ true)
    → (year_of_era (start yoe + doy) ≡ yoe) × (start yoe + doy < 146097)
year_facts yoe doy hy hd long =
    let t = every_pair 400 366 year_test yoe doy year_table hy hd in
    elim (Bool-cases (doy == 365)) [
      | inl e ↦ let l = long (ground arith) in ground arith
      | inr e ↦ ground arith
    ]

abbrev month_of : ℕ → ℕ
month_of mp = if ltb mp 10 then mp + 3 else mp - 9

-- Within an era.
civil_of_era_lem :
    (era : ℤ) (yoe mp d : ℕ)
    → year_of_era (start yoe + day_of mp d) ≡ yoe
    → MonthFacts mp d
    → civil_of_era era (start yoe + day_of mp d) ≡ record {
      year = as_i32 (pos yoe +ℤ era *ℤ 400 +ℤ pos (if leb (month_of mp) 2 then 1 else 0));
      month = month_of mp;
      day = d;
    }
unfolding civil_of_era
civil_of_era_lem era yoe mp d y m =
    let rest : start yoe + day_of mp d - (365 * yoe + yoe / 4 - yoe / 100) ≡ day_of mp d =
      omega arith in
    rw (y, rest, m.back, m.day)

abbrev IsMonth : ℕ → Type 0
IsMonth m = (1 ≤ m) × (m ≤ 12)

month_of-month_index : (m : ℕ) → IsMonth m → (month_of (month_index m) ≡ m) × (month_index m < 12)
month_of-month_index m h = (ground arith, ground arith)

-- A valid day is no longer than the longest of its month.
day_fits : (y : ℤ) (m d : ℕ) → IsMonth m → d ≤ days_in_month y m → d ≤ month_days (month_index m)
unfolding days_in_month
day_fits y m d h l = ground arith

-- A 29th of February is the last day of a year of the era that ends in a leap day.
leap_is_long :
    (y era : ℤ) (yoe d : ℕ)
    → d ≡ 29
    → d ≤ days_in_month y 2
    → y -ℤ pos 1 -ℤ era *ℤ 400 ≡ pos yoe
    → is_long yoe ≡ true
unfolding days_in_month is_leap_year ◌-ℤ◌ ◌*ℤ◌
leap_is_long y era yoe d e l h = ground arith

doe_lem :
    (yoe mp d : ℕ)
    → 1 ≤ d
    → pos yoe *ℤ 365
        +ℤ quot (pos yoe) 4
        -ℤ quot (pos yoe) 100
        +ℤ (pos ((153 * mp + 2) / 5 + d) -ℤ pos 1)
      ≡ pos (start yoe + day_of mp d)
unfolding ◌+ℤ◌ ◌-ℤ◌ ◌*ℤ◌ quot
doe_lem yoe mp d h = ground arith

year_again : (y : ℤ) (m : ℕ) → adjusted_year y m +ℤ pos (if leb m 2 then 1 else 0) ≡ y
unfolding adjusted_year ◌+ℤ◌ ◌-ℤ◌
year_again y m = ground arith

long_year :
    (y era : ℤ) (m d yoe : ℕ)
    → IsMonth m
    → d ≤ days_in_month y m
    → adjusted_year y m -ℤ era *ℤ 400 ≡ pos yoe
    → (month_index m ≡ 11) × (d ≡ 29)
    → is_long yoe ≡ true
unfolding adjusted_year
long_year y era m d yoe h l e (i, n) =
    let feb : m ≡ 2 = ground arith in leap_is_long y era yoe d n (rw feb at l) (rw feb at e)

-- The day number of a valid date whose year is an i32 leads back to the date.
pub civil_from_days-days_since_civil :
    (y : ℤ) (m d : ℕ)
    → IsI32 y
    → (1 ≤ m) × (m ≤ 12)
    → (1 ≤ d) × (d ≤ days_in_month y m)
    → civil_from_days (days_since_civil y m d) ≡ record { year = y; month = m; day = d }
unfolding days_since_civil civil_from_days
civil_from_days-days_since_civil y m d hy hm hd =
    let y_adj = adjusted_year y m in
    let era = era_of_year y_adj in
    let (yoe, low, e) = era_of_year_lem y_adj in
    let (back, index) = month_of-month_index m hm in
    let facts = month_facts (month_index m) d index hd.0 (day_fits y m d hm hd.1) in
    let (year, within) =
      year_facts yoe (day_of (month_index m) d) low facts.below
        (λ q. long_year y era m d yoe hm hd.1 e (facts.last q)) in
    let doe = start yoe + day_of (month_index m) d in
    rw (
      e,
      doe_lem yoe (month_index m) d hd.0,
      shift_back (era *ℤ 146097 +ℤ pos doe),
      era_of_days_lem era doe within,
      day_of_era_lem era doe within,
      civil_of_era_lem era yoe (month_index m) d year facts,
      back,
      year_back y_adj era yoe e,
      year_again y m,
      as_i32_self y hy,
    )
