-- ===== src/Examples/Reminders.antt =====
-- A leap day, read and counted (crates/vault-models/src/reminders.rs).
use safeory.Base.{ℕ, ◌≡◌, refl, some, none, List, [], ◌∷◌, pos, negsuc}
use safeory.Models.Reminders.{
  Date, days_in_month, is_leap_year, check_date, parse_ymd, days_since_civil, civil_from_days,
}
use safeory.Models.Reminders.Parse.{IsDate, parse_ymd_round_trip}

abbrev leap_day : Date
leap_day = record { year = pos 2024; month = 2; day = 29 }

-- "2024-02-29"
abbrev leap_text : List ℕ
leap_text = b'2' ∷ b'0' ∷ b'2' ∷ b'4' ∷ b'-' ∷ b'0' ∷ b'2' ∷ b'-' ∷ b'2' ∷ b'9' ∷ []

-- "2023-02-29"
common_year :
    parse_ymd (b'2' ∷ b'0' ∷ b'2' ∷ b'3' ∷ b'-' ∷ b'0' ∷ b'2' ∷ b'-' ∷ b'2' ∷ b'9' ∷ []) ≡ none
unfolding parse_ymd check_date days_in_month is_leap_year
common_year = refl

leap_read : parse_ymd leap_text ≡ some leap_day
unfolding parse_ymd check_date days_in_month is_leap_year
leap_read = refl

parse_ymd_round_trip_example :
    IsDate leap_day × (civil_from_days (days_since_civil (pos 2024) 2 29) ≡ leap_day)
parse_ymd_round_trip_example = parse_ymd_round_trip leap_text leap_day leap_read

february_of_leap : days_in_month (negsuc 3) 2 ≡ 29
unfolding days_in_month is_leap_year
february_of_leap = refl
