-- ===== src/Client/Clock/Width.antt =====
-- src/client/main.cpp, getCurrentTime: how wide its text is.
use my_chat_project.Prelude.{
  zero, ℕ, ◌+◌, ◌/◌, ◌%◌, ◌^◌, ◌<◌, ◌≤◌, ◌≡◌, refl, arith, true, suc, [], ◌∷◌, ◌++◌, ℤ, pos, Str,
  codes, to_string, digits, length, length-append, ltb,
}
use my_chat_project.Exec.{ok}
use my_chat_project.Client.Clock.{
  Tm, plus, is_int, add_int, two_digits, date_text, fit_date, get_current_time,
}

-- What localtime documents of its result, with the year in four digits.
pub record IsTm (tm : Tm) : Type 0 where
  pub years : ℕ
  pub months : ℕ
  pub days : ℕ
  pub hours : ℕ
  pub minutes : ℕ
  pub seconds : ℕ
  pub year : plus tm.tm_year 1900 ≡ pos years
  pub year_lower : 1000 ≤ years
  pub year_upper : years ≤ 9999
  pub month : tm.tm_mon ≡ pos months
  pub month_upper : months ≤ 11
  pub day : tm.tm_mday ≡ pos days
  pub day_upper : days ≤ 31
  pub hour : tm.tm_hour ≡ pos hours
  pub hour_upper : hours ≤ 23
  pub minute : tm.tm_min ≡ pos minutes
  pub minute_upper : minutes ≤ 59
  pub second : tm.tm_sec ≡ pos seconds
  pub second_upper : seconds ≤ 60

length-digits-base : (f n : ℕ) → n < 10 → length (digits (suc f) n) ≡ 1
unfolding digits
length-digits-base f n h = ground arith

length-digits-step :
    (f n : ℕ) → 10 ≤ n → length (digits (suc f) n) ≡ suc (length (digits f (n / 10)))
unfolding digits
length-digits-step f n h = ground (arith, length-append (digits f (n / 10)) ((48 + n % 10) ∷ []))

-- A number of two digits, and one of four.
length-digits-two : (f n : ℕ) → 10 ≤ n → n < 100 → length (digits (suc (suc f)) n) ≡ 2
length-digits-two f n low high =
    omega (arith, length-digits-step (suc f) n low, length-digits-base f (n / 10) (omega arith))

length-digits-four :
    (f n : ℕ) → 1000 ≤ n → n < 10000 → length (digits (suc (suc (suc (suc f)))) n) ≡ 4
length-digits-four f n low high = omega (
  arith,
  length-digits-step (suc (suc (suc f))) n (omega arith),
  length-digits-step (suc (suc f)) (n / 10) (omega arith),
  length-digits-two f (n / 10 / 10) (omega arith) (omega arith),
)

length-year : (n : ℕ) → 1000 ≤ n → n ≤ 9999 → length (to_string (pos n)) ≡ 4
unfolding to_string
length-year (suc (suc (suc n))) low high =
    length-digits-four n (suc (suc (suc n))) low (omega arith)
length-year _ low high = absurd (omega arith)

length-two_digits : (n : ℕ) → n ≤ 99 → length (two_digits (pos n)) ≡ 2
unfolding two_digits to_string digits
length-two_digits zero h = refl
length-two_digits (suc n) h =
    ground (arith, length-digits-base (suc n) (suc n), length-digits-two n (suc n))

width : (z : ℤ) (n : ℕ) → z ≡ pos n → n ≤ 99 → length (two_digits z) ≡ 2
width z n e h = rw e (length-two_digits n h)

length-separated : (c : Str) (a b : Str) → length (a ++ (c ++ b)) ≡ length a + length c + length b
length-separated c a b = omega (arith, length-append a (c ++ b), length-append c b)

length-date_text :
    (years months : ℕ) (tm : Tm)
    → IsTm tm
    → 1000 ≤ years
    → years ≤ 9999
    → months ≤ 12
    → length (date_text (pos years) (pos months) tm) ≡ 19
unfolding date_text
length-date_text years months tm t low high m =
    let second = two_digits tm.tm_sec in
    let minute = two_digits tm.tm_min ++ (codes ":" ++ second) in
    let hour = two_digits tm.tm_hour ++ (codes ":" ++ minute) in
    let day = two_digits tm.tm_mday ++ (codes " " ++ hour) in
    let month = two_digits (pos months) ++ (codes "-" ++ day) in
    omega (
      arith,
      length-separated (codes "-") (to_string (pos years)) month,
      length-separated (codes "-") (two_digits (pos months)) day,
      length-separated (codes " ") (two_digits tm.tm_mday) hour,
      length-separated (codes ":") (two_digits tm.tm_hour) minute,
      length-separated (codes ":") (two_digits tm.tm_min) second,
      length-year years low high,
      length-two_digits months (omega arith),
      width tm.tm_mday t.days t.day (omega (arith, t.day_upper)),
      width tm.tm_hour t.hours t.hour (omega (arith, t.hour_upper)),
      width tm.tm_min t.minutes t.minute (omega (arith, t.minute_upper)),
      width tm.tm_sec t.seconds t.second (omega (arith, t.second_upper)),
    )

-- For what localtime documents of its result, and a year of four digits, getCurrentTime gives a text
-- of 19 characters, in its buffer of 60.
pub get_current_time-IsTm :
    {S : Type 0} (tm : Tm) (s : S)
    → IsTm tm
    → (text : Str) × (get_current_time tm s ≡ (ok text, s)) × (length text ≡ 19)
unfolding get_current_time add_int fit_date is_int plus
get_current_time-IsTm tm s t =
    let text = date_text (pos t.years) (pos (t.months + 1)) tm in
    let wide : length text ≡ 19 =
      length-date_text t.years (t.months + 1) tm t t.year_lower t.year_upper
        (omega (arith, t.month_upper)) in
    let fits : ltb (length text) 60 ≡ true = ground arith in
    let years_fit : ltb t.years (2 ^ 31) ≡ true = ground (arith, t.year_upper) in
    let months_fit : ltb (t.months + 1) (2 ^ 31) ≡ true = ground (arith, t.month_upper) in
    (text, rw (t.year, t.month, years_fit, months_fit, fits) refl, wide)
