-- ===== src/Protocol/MsgId/Repeats.antt =====
-- generateUniqueMsgId with an empty client id, which the client never sets: the suffix is 0.
use Prim.Native.Nat.{bit_or, bit_or-bitwise, max, digits}
use my_chat_project.Prelude.{
  ℕ, zero, suc, ◌*◌, ◌/◌, ◌%◌, ◌^◌, ◌≤◌, ◌≡◌, ◌↔◌, refl, sym, ap, ◌∙◌, arith, [],
}
use my_chat_project.Exec.{ok}
use my_chat_project.Protocol.MsgId.{generate_unique_msg_id}

or_digits_zero : (n a : ℕ) → a ≤ n → digits (λ b. b) max n a 0 ≡ a
or_digits_zero zero zero h = refl
or_digits_zero zero (suc a) h = absurd (omega arith)
or_digits_zero (suc n) zero h = refl
or_digits_zero (suc n) (suc a) h = omega (arith, or_digits_zero n (suc a / 2) (omega arith))

bit_or-zero : (a : ℕ) → bit_or a 0 ≡ a
bit_or-zero a = bit_or-bitwise a 0 ∙ or_digits_zero a a (omega arith)

-- Without a client id, the id of a message is the time shifted left by 12 bits in 32 bits.
generate-shift : (now : ℕ) → generate_unique_msg_id now [] ≡ ok (now % 2 ^ 20 * 4096)
unfolding generate_unique_msg_id
generate-shift now = rw bit_or-zero (ap ok (omega arith))

ok-injective : (a b : ℕ) → ok a ≡ ok b → a ≡ b
ok-injective a b e = cc

ok_shift-injective : {a b : ℕ} → ok (a * 4096) ≡ ok (b * 4096) → a ≡ b
ok_shift-injective {a} {b} e = omega (arith, ok-injective (a * 4096) (b * 4096) e)

-- Without a client id, two message ids are equal exactly when the times at which they were made are
-- equal modulo 2 ^ 20 seconds: two messages of one second share an id, and ids come back after
-- twelve days.
pub generate-repeats :
    (now later : ℕ)
    → (generate_unique_msg_id now [] ≡ generate_unique_msg_id later [])
      ↔ (now % 2 ^ 20 ≡ later % 2 ^ 20)
generate-repeats now later = (
  λ e. ok_shift-injective (sym (generate-shift now) ∙ e ∙ generate-shift later),
  λ e. generate-shift now ∙ ap (λ t. ok (t * 4096)) e ∙ sym (generate-shift later),
)
