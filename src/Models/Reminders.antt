-- ===== src/Models/Reminders.antt =====
-- Dates and day numbers (crates/vault-models/src/reminders.rs). A text is the list of its bytes.
pub mod Dates
pub mod Parse
use safeory.Base.{
  ℕ, zero, suc, ◌+◌, ◌-◌, ◌*◌, ◌/◌, ◌%◌, ◌^◌, ◌≡◌, refl, Bool, true, false, not, ◌&&◌, ◌||◌, Option,
  none, some, List, [], ◌∷◌, nat_eq, ◌==◌, ltb, leb, ℤ, pos, negsuc, pos_part, neg_part, ◌+ℤ◌, ◌-ℤ◌,
  ◌*ℤ◌, quot, is_nonneg, as_u64, as_i32, if◌then◌else◌,
}

pub record Date : Type 0 where
  pub year : ℤ
  pub month : ℕ
  pub day : ℕ

-- `year % k == 0`; the sign of the remainder does not matter.
abbrev pub divides : ℕ → ℤ → Bool
divides k year = (pos_part year + neg_part year) % k == 0

unfoldable pub is_leap_year : ℤ → Bool
is_leap_year year = divides 4 year && (not (divides 100 year) || divides 400 year)

unfoldable pub days_in_month : ℤ → ℕ → ℕ
days_in_month year month =
    if month == 1
      || (month == 3
          || (month == 5 || (month == 7 || (month == 8 || (month == 10 || month == 12)))))
    then 31
    else if month == 4 || (month == 6 || (month == 9 || month == 11))
    then 30
    else if month == 2
    then (if is_leap_year year then 29 else 28)
    else 0

abbrev pub is_ascii_digit : ℕ → Bool
is_ascii_digit byte = leb b'0' byte && leb byte b'9'

unfoldable pub check_date : ℕ → ℕ → ℕ → Option Date
check_date year month day =
    if not (leb 1 month && leb month 12)
    then none
    else if day == 0 || ltb (days_in_month (pos year) month) day
    then none
    else some (record { year = pos year; month = month; day = day })

-- The ten bytes of `YYYY-MM-DD`, each with its index.
unfoldable pub parse_bytes : ℕ → ℕ → ℕ → ℕ → ℕ → ℕ → ℕ → ℕ → ℕ → ℕ → Option Date
parse_bytes b0 b1 b2 b3 b4 b5 b6 b7 b8 b9 =
    if not (b4 == b'-') || not (b7 == b'-')
    then none
    else if not (
        is_ascii_digit b0
        && (is_ascii_digit b1
            && (is_ascii_digit b2
                && (is_ascii_digit b3
                    && (is_ascii_digit b5
                        && (is_ascii_digit b6 && (is_ascii_digit b8 && is_ascii_digit b9)))))))
    then none
    else let year = (b0 - b'0') * 1000 + (b1 - b'0') * 100 + (b2 - b'0') * 10 + (b3 - b'0') in
      let month = (b5 - b'0') * 10 + (b6 - b'0') in
      let day = (b8 - b'0') * 10 + (b9 - b'0') in check_date year month day

unfoldable pub parse_ymd : List ℕ → Option Date
unfolding parse_bytes
parse_ymd (b0 ∷ b1 ∷ b2 ∷ b3 ∷ b4 ∷ b5 ∷ b6 ∷ b7 ∷ b8 ∷ b9 ∷ []) =
    parse_bytes b0 b1 b2 b3 b4 b5 b6 b7 b8 b9
parse_ymd _ = none

-- The era of 400 years, from March to February.
unfoldable pub era_of_year : ℤ → ℤ
era_of_year y_adj = if is_nonneg y_adj then quot y_adj 400 else quot (y_adj -ℤ pos 399) 400

unfoldable pub adjusted_year : ℤ → ℕ → ℤ
adjusted_year y m = if leb m 2 then y -ℤ pos 1 else y

abbrev pub month_index : ℕ → ℕ
month_index m = if ltb 2 m then m - 3 else m + 9

unfoldable pub days_since_civil : ℤ → ℕ → ℕ → ℤ
unfolding era_of_year adjusted_year
days_since_civil y m d =
    let y_adj = adjusted_year y m in
    let era = era_of_year y_adj in
    let yoe = y_adj -ℤ era *ℤ 400 in
    let doy = pos ((153 * month_index m + 2) / 5 + d) -ℤ pos 1 in
    let doe = yoe *ℤ 365 +ℤ quot yoe 4 -ℤ quot yoe 100 +ℤ doy in era *ℤ 146097 +ℤ doe -ℤ pos 719468

unfoldable pub era_of_days : ℤ → ℤ
era_of_days z = quot (if is_nonneg z then z else z -ℤ pos 146096) 146097

unfoldable pub year_of_era : ℕ → ℕ
year_of_era doe = (doe - doe / 1460 + doe / 36524 - doe / 146096) / 365

-- The day of the year and what follows of it.
unfoldable pub civil_of_era : ℤ → ℕ → Date
unfolding year_of_era
civil_of_era era doe =
    let yoe = year_of_era doe in
    let y = pos yoe +ℤ era *ℤ 400 in
    let doy = doe - (365 * yoe + yoe / 4 - yoe / 100) in
    let mp = (5 * doy + 2) / 153 in
    let d = doy - (153 * mp + 2) / 5 + 1 in
    let m = if ltb mp 10 then mp + 3 else mp - 9 in
    record { year = as_i32 (y +ℤ pos (if leb m 2 then 1 else 0)); month = m; day = d }

unfoldable pub civil_from_days : ℤ → Date
unfolding civil_of_era era_of_days
civil_from_days day =
    let z = day +ℤ pos 719468 in
    let era = era_of_days z in civil_of_era era (as_u64 (z -ℤ era *ℤ 146097))

abbrev epoch : Date
epoch = record { year = pos 1970; month = 1; day = 1 }

epoch_is_zero : days_since_civil (pos 1970) 1 1 ≡ pos 0
unfolding days_since_civil ◌+ℤ◌ ◌-ℤ◌ ◌*ℤ◌ quot
epoch_is_zero = refl

epoch_back : civil_from_days (pos 0) ≡ epoch
unfolding civil_from_days ◌+ℤ◌ ◌-ℤ◌ ◌*ℤ◌ quot
epoch_back = refl

before_christ :
    civil_from_days (days_since_civil (negsuc 4) 2 28)
    ≡ record { year = negsuc 4; month = 2; day = 28 }
unfolding days_since_civil civil_from_days ◌+ℤ◌ ◌-ℤ◌ ◌*ℤ◌ quot
before_christ = refl
