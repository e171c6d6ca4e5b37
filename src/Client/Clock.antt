-- ===== src/Client/Clock.antt =====
-- src/client/main.cpp: getCurrentTime.
pub mod Width
use my_chat_project.Prelude.{
  ℕ, ◌+◌, ◌-◌, ◌^◌, Bool, true, false, ◌∷◌, ◌++◌, ℤ, pos, negsuc, Str, codes, to_string, length,
  ltb, if◌then◌else◌,
}
use my_chat_project.Exec.{Exec, pure, crash, ◌>>=◌}

-- The fields of `struct tm` that are read.
pub record Tm : Type 0 where
  pub tm_year : ℤ
  pub tm_mon : ℤ
  pub tm_mday : ℤ
  pub tm_hour : ℤ
  pub tm_min : ℤ
  pub tm_sec : ℤ

-- char date[60]
abbrev pub date_size : ℕ
date_size = 60

-- z + n, for an `int` z
unfoldable pub plus : ℤ → ℕ → ℤ
plus (pos m) n = pos (m + n)
plus (negsuc m) n = if ltb m n then pos (n - 1 - m) else negsuc (m - n)

unfoldable pub is_int : ℤ → Bool
is_int (pos m) = ltb m (2 ^ 31)
is_int (negsuc m) = ltb m (2 ^ 31)

-- z + n in `int`, where an overflow is undefined.
unfoldable pub add_int : {S : Type 0} → ℤ → ℕ → Exec S ℤ
unfolding plus is_int
add_int z n = if is_int (plus z n) then pure (plus z n) else crash

-- `%02d`; a negative number has two characters already.
unfoldable pub two_digits : ℤ → Str
two_digits z = if ltb (length (to_string z)) 2 then 48 ∷ to_string z else to_string z

-- "%d-%02d-%02d %02d:%02d:%02d"
unfoldable pub date_text : ℤ → ℤ → Tm → Str
unfolding two_digits
date_text year month tm =
    to_string year
    ++ (codes "-"
        ++ (two_digits month
            ++ (codes "-"
                ++ (two_digits tm.tm_mday
                    ++ (codes " "
                        ++ (two_digits tm.tm_hour
                            ++ (codes ":"
                                ++ (two_digits tm.tm_min
                                    ++ (codes ":" ++ two_digits tm.tm_sec)))))))))

-- sprintf into `date`, whose NUL has to fit.
unfoldable pub fit_date : {S : Type 0} → Str → Exec S Str
fit_date text = if ltb (length text) date_size then pure text else crash

-- getCurrentTime, from what localtime gives for the time of the clock.
unfoldable pub get_current_time : {S : Type 0} → Tm → Exec S Str
unfolding add_int date_text fit_date
get_current_time tm = do
  year ← add_int tm.tm_year 1900
  month ← add_int tm.tm_mon 1
  fit_date (date_text year month tm)
