-- ===== src/Models/Reminders/Parse.antt =====
-- What the parser of dates accepts (crates/vault-models/src/reminders.rs).
use safeory.Base.{
  ℕ, ◌+◌, ◌-◌, ◌*◌, ◌≡◌, ◌≤◌, Bool, false, not, ◌&&◌, Option, none, some, List, [], ◌∷◌, nat_eq,
  arith, IsI32, if◌then◌else◌,
}
use safeory.Models.Reminders.{
  Date, days_in_month, check_date, is_ascii_digit, parse_bytes, parse_ymd, days_since_civil,
  civil_from_days,
}
use safeory.Models.Reminders.Dates.{civil_from_days-days_since_civil}

-- A date of the calendar whose year is an i32.
pub record IsDate (t : Date) : Type 0 where
  pub year_in : IsI32 t.year
  pub month_in : (1 ≤ t.month) × (t.month ≤ 12)
  pub day_in : (1 ≤ t.day) × (t.day ≤ days_in_month t.year t.month)

check_date-IsDate :
    (year month day : ℕ) (t : Date) → year ≤ 9999 → check_date year month day ≡ some t → IsDate t
unfolding check_date
check_date-IsDate year month day t l h = ground arith

two_guards :
    (a b : Bool) (x : Option Date) (t : Date)
    → (if a then none else if b then none else x) ≡ some t
    → (b ≡ false) × (x ≡ some t)
two_guards a b x t h = ground arith

year_bound :
    (a b c d : ℕ) (rest : Bool)
    → not
        (is_ascii_digit a && (is_ascii_digit b && (is_ascii_digit c && (is_ascii_digit d && rest))))
      ≡ false
    → (a - b'0') * 1000 + (b - b'0') * 100 + (c - b'0') * 10 + (d - b'0') ≤ 9999
year_bound a b c d rest h = ground arith

parse_bytes-IsDate :
    (b0 b1 b2 b3 b4 b5 b6 b7 b8 b9 : ℕ) (t : Date)
    → parse_bytes b0 b1 b2 b3 b4 b5 b6 b7 b8 b9 ≡ some t
    → IsDate t
unfolding parse_bytes
parse_bytes-IsDate b0 b1 b2 b3 b4 b5 b6 b7 b8 b9 t h =
    let (digits, found) = two_guards _ _ _ t h in
    check_date-IsDate _ _ _ t (year_bound b0 b1 b2 b3 _ digits) found

parse_ymd-IsDate : (text : List ℕ) (t : Date) → parse_ymd text ≡ some t → IsDate t
unfolding parse_ymd
parse_ymd-IsDate [] t h = cc
parse_ymd-IsDate (a ∷ []) t h = cc
parse_ymd-IsDate (a ∷ b ∷ []) t h = cc
parse_ymd-IsDate (a ∷ b ∷ c ∷ []) t h = cc
parse_ymd-IsDate (a ∷ b ∷ c ∷ d ∷ []) t h = cc
parse_ymd-IsDate (a ∷ b ∷ c ∷ d ∷ e ∷ []) t h = cc
parse_ymd-IsDate (a ∷ b ∷ c ∷ d ∷ e ∷ f ∷ []) t h = cc
parse_ymd-IsDate (a ∷ b ∷ c ∷ d ∷ e ∷ f ∷ g ∷ []) t h = cc
parse_ymd-IsDate (a ∷ b ∷ c ∷ d ∷ e ∷ f ∷ g ∷ i ∷ []) t h = cc
parse_ymd-IsDate (a ∷ b ∷ c ∷ d ∷ e ∷ f ∷ g ∷ i ∷ j ∷ []) t h = cc
parse_ymd-IsDate (a ∷ b ∷ c ∷ d ∷ e ∷ f ∷ g ∷ i ∷ j ∷ k ∷ []) t h =
    parse_bytes-IsDate a b c d e f g i j k t h
parse_ymd-IsDate (a ∷ b ∷ c ∷ d ∷ e ∷ f ∷ g ∷ i ∷ j ∷ k ∷ l ∷ text) t h = cc

-- A text that parse_ymd accepts is a date of the calendar, and its day number leads back to it.
pub parse_ymd_round_trip :
    (text : List ℕ) (t : Date)
    → parse_ymd text ≡ some t
    → IsDate t × (civil_from_days (days_since_civil t.year t.month t.day) ≡ t)
parse_ymd_round_trip text t h =
    let v = parse_ymd-IsDate text t h in
    (v, civil_from_days-days_since_civil t.year t.month t.day v.year_in v.month_in v.day_in)
