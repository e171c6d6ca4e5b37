-- ===== src/Tests/Clock.antt =====
-- getCurrentTime at concrete times.
use my_chat_project.Prelude.{
  Str, length, arith, ℕ, ◌^◌, ◌-◌, ◌≡◌, refl, pos, negsuc, codes, to_string, digits,
}
use my_chat_project.Exec.{ok, undefined}
use my_chat_project.Client.Clock.Width.{IsTm, get_current_time-IsTm}
use my_chat_project.Client.Clock.{
  Tm, get_current_time, two_digits, date_text, add_int, fit_date, plus, is_int,
}

abbrev morning : Tm
morning = record {
  tm_year = pos 125;
  tm_mon = pos 0;
  tm_mday = pos 9;
  tm_hour = pos 7;
  tm_min = pos 30;
  tm_sec = pos 5;
}

the_text : get_current_time {S = ℕ} morning 0 ≡ (ok (codes "2025-01-09 07:30:05"), 0)
unfolding get_current_time add_int plus is_int fit_date date_text two_digits to_string digits
the_text = refl

-- A minus sign counts among the two characters.
negative : two_digits (negsuc 4) ≡ codes "-5"
unfolding two_digits to_string digits
negative = refl

too_late :
    get_current_time {S = ℕ} (record morning { tm_year = pos (2 ^ 31 - 1) }) 0 ≡ (undefined, 0)
unfolding get_current_time add_int plus is_int
too_late = refl

morning-IsTm : IsTm morning
unfolding plus
morning-IsTm = record {
  years = 2025;
  months = 0;
  days = 9;
  hours = 7;
  minutes = 30;
  seconds = 5;
  year = refl;
  year_lower = omega arith;
  year_upper = omega arith;
  month = refl;
  month_upper = omega arith;
  day = refl;
  day_upper = omega arith;
  hour = refl;
  hour_upper = omega arith;
  minute = refl;
  minute_upper = omega arith;
  second = refl;
  second_upper = omega arith;
}

get_current_time-IsTm_example :
    (text : Str) × (get_current_time {S = ℕ} morning 0 ≡ (ok text, 0)) × (length text ≡ 19)
get_current_time-IsTm_example = get_current_time-IsTm morning 0 morning-IsTm
