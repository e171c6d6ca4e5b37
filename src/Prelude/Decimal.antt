-- ===== src/Prelude/Decimal.antt =====
-- Decimal text, printed by `to_string` and read by `atoi`.
use Prim.Native.Nat.{ℕ, zero, suc, ◌+◌, ◌-◌, ◌*◌, ◌/◌, ◌%◌, ◌^◌, ◌≤◌, ◌<◌}
use mathlib.Core.Path.{◌≡◌, refl, sym, ap, ◌∙◌}
use mathlib.Core.Logic.{inl, inr}
use mathlib.Core.Bool.{true, false}
use mathlib.Core.List.{[], ◌∷◌, ◌++◌}
use native.Mathlib.Omega.{arith}
use native.Mathlib.Nat.{pow-suc}
use my_chat_project.Prelude.Tests.{Bool-cases, ltb}
use my_chat_project.Prelude.Lists.{length, length-append}
use my_chat_project.Prelude.Int.{ℤ, pos, negsuc, IsInt}
use my_chat_project.Prelude.Text.{
  Str, c_str, digits, to_string, is_digit, is_space, read_digits, negate, atoi,
}

abbrev pub AllDigits : Str → Type 0
AllDigits [] = Unit {0}
AllDigits (c ∷ s) = (is_digit c ≡ true) × AllDigits s

AllDigits-append : (s t : Str) → AllDigits s → AllDigits t → AllDigits (s ++ t)
AllDigits-append [] t hs ht = ht
AllDigits-append (c ∷ s) t hs ht = (hs.0, AllDigits-append s t hs.1 ht)

last_digit : (d : ℕ) → d < 10 → is_digit (48 + d) ≡ true
unfolding is_digit
last_digit d h = ground arith

pub digits-AllDigits : (f n : ℕ) → AllDigits (digits f n)
unfolding digits
digits-AllDigits zero n = tt
digits-AllDigits (suc f) n = elim (Bool-cases (ltb n 10)) [
  | inl small ↦ rw (small, digits) (last_digit n (ground arith), tt)
  | inr large ↦
      rw (large, digits)
        (AllDigits-append (digits f (n / 10)) _ (digits-AllDigits f (n / 10))
          (last_digit (n % 10) (omega arith), tt))
]

read_digits-append :
    (acc : ℕ) (s t : Str)
    → AllDigits s
    → read_digits acc (s ++ t) ≡ read_digits (read_digits acc s) t
unfolding read_digits
read_digits-append acc [] t h = refl
read_digits-append acc (c ∷ s) t h =
    rw (h.0, read_digits) (read_digits-append (acc * 10 + (c - 48)) s t h.1)

read_digits-one : (acc d : ℕ) → d < 10 → read_digits acc ((48 + d) ∷ []) ≡ acc * 10 + d
unfolding read_digits
read_digits-one acc d h = rw (last_digit d h, read_digits) (omega arith)

read_digits-digits : (f n : ℕ) → n < f → read_digits 0 (digits f n) ≡ n
unfolding digits
read_digits-digits zero n h = absurd (omega arith)
read_digits-digits (suc f) n h = elim (Bool-cases (ltb n 10)) [
  | inl small ↦ rw (small, digits) (read_digits-one 0 n (ground arith) ∙ omega arith)
  | inr large ↦
      rw (large, digits)
        (rw (read_digits-append 0 (digits f (n / 10)) _ (digits-AllDigits f (n / 10))) (
          rw (read_digits-digits f (n / 10) (ground arith))
            (read_digits-one (n / 10) (n % 10) (omega arith) ∙ omega arith)))
]

digit-not_space : (c : ℕ) → is_digit c ≡ true → is_space c ≡ false
unfolding is_digit is_space
digit-not_space c h = ground arith

-- A text of digits is read as its number.
atoi-digits : (s : Str) → AllDigits s → atoi s ≡ pos (read_digits 0 s)
unfolding atoi is_digit
atoi-digits [] h = refl
atoi-digits (c ∷ s) h = ground arith

atoi-minus : (s : Str) → atoi (b'-' ∷ s) ≡ negate (read_digits 0 s)
unfolding atoi
atoi-minus s = refl

-- What std::to_string prints for an integer, atoi reads as that integer.
pub atoi-to_string : (z : ℤ) → atoi (to_string z) ≡ z
unfolding to_string negate
atoi-to_string (pos n) =
    atoi-digits (digits (suc n) n) (digits-AllDigits (suc n) n)
    ∙ ap pos (read_digits-digits (suc n) n (omega arith))
atoi-to_string (negsuc n) =
    atoi-minus (digits (suc (suc n)) (suc n))
    ∙ ap negate (read_digits-digits (suc (suc n)) (suc n) (omega arith))

pub to_string-injective : (a b : ℤ) → to_string a ≡ to_string b → a ≡ b
to_string-injective a b e = sym (atoi-to_string a) ∙ ap atoi e ∙ atoi-to_string b

length-digits-le : (k f n : ℕ) → n < 10 ^ suc k → length (digits f n) ≤ suc k
unfolding digits
length-digits-le k zero n h = omega arith
length-digits-le zero (suc f) n h = ground (arith, pow-suc 10 zero)
length-digits-le (suc k) (suc f) n h = ground (
  arith,
  length-append (digits f (n / 10)) ((48 + n % 10) ∷ []),
  length-digits-le k f (n / 10) (omega (arith, pow-suc 10 (suc k))),
)

-- An `int` takes at most eleven characters.
pub length-to_string-le : (z : ℤ) → IsInt z → length (to_string z) ≤ 11
unfolding to_string
length-to_string-le (pos n) h = omega (arith, length-digits-le 9 (suc n) n (omega arith))
length-to_string-le (negsuc n) h =
    omega (arith, length-digits-le 9 (suc (suc n)) (suc n) (omega arith))

digits-pos : (f n : ℕ) → 1 ≤ length (digits (suc f) n)
unfolding digits
digits-pos f n = ground (arith, length-append (digits f (n / 10)) ((48 + n % 10) ∷ []))

pub length-to_string-pos : (z : ℤ) → 1 ≤ length (to_string z)
unfolding to_string
length-to_string-pos (pos n) = digits-pos n n
length-to_string-pos (negsuc n) = omega arith

c_str-AllDigits : (s : Str) → AllDigits s → c_str s ≡ s
unfolding c_str is_digit
c_str-AllDigits [] h = refl
c_str-AllDigits (zero ∷ s) h = cc
c_str-AllDigits (suc c ∷ s) h = ap (λ t. suc c ∷ t) (c_str-AllDigits s h.1)

-- The text of a number holds no NUL.
pub c_str-to_string : (z : ℤ) → c_str (to_string z) ≡ to_string z
unfolding to_string c_str
c_str-to_string (pos n) = c_str-AllDigits (digits (suc n) n) (digits-AllDigits (suc n) n)
c_str-to_string (negsuc n) =
    ap (λ t. b'-' ∷ t)
      (c_str-AllDigits (digits (suc (suc n)) (suc n)) (digits-AllDigits (suc (suc n)) (suc n)))
