-- ===== src/Protocol/Cipher/Roundtrip.antt =====
-- aes256CBCEncrypt and aes256CBCDecrypt (src/server/encrypt.cpp) together.
use my_chat_project.Prelude.{
  ◌+◌, ◌≡◌, ◌≢◌, ◌/◌, ◌*◌, false, ap, arith, Str, some, [], ◌++◌, inl, inr, Option-cases, leb,
  length, length-append, take, drop, take-append_length, drop-append_length,
}
use my_chat_project.Exec.{ok}
use my_chat_project.Externals.{EvpLib, EvpLaws}
use my_chat_project.Protocol.Cipher.{
  aes256_cbc_encrypt, aes256_cbc_decrypt, encrypt_with, decrypt_with,
}

module _ {G Ctx : Type 0} (e : EvpLib G Ctx) where
  -- What a successful encryption consists of.
  record IsSealed (plaintext key cipher : Str) : Type 0 where
    c : Ctx
    c1 : Ctx
    c2 : Ctx
    iv : Str
    o1 : Str
    o2 : Str
    init : e.encrypt_init c key iv ≡ some c1
    update : e.encrypt_update c1 plaintext ≡ some (o1, c2)
    final : e.encrypt_final c2 ≡ some o2
    iv_filled : length iv ≡ e.iv_length
    text : cipher ≡ iv ++ (o1 ++ o2)

  encrypt_with-IsSealed :
      (c : Ctx) (key iv plaintext : Str)
      → length iv ≡ e.iv_length
      → encrypt_with e c key iv plaintext ≢ []
      → IsSealed plaintext key (encrypt_with e c key iv plaintext)
  unfolding encrypt_with
  encrypt_with-IsSealed c key iv plaintext filled nonempty =
      elim (Option-cases (e.encrypt_init c key iv)) [
        | inl h ↦ absurd (nonempty (rw (h, encrypt_with)))
        | inr (c1, h) ↦ elim (Option-cases (e.encrypt_update c1 plaintext)) [
          | inl h2 ↦ absurd (nonempty (rw (h, h2, encrypt_with)))
          | inr ((o1, c2), h2) ↦ elim (Option-cases (e.encrypt_final c2)) [
            | inl h3 ↦ absurd (nonempty (rw (h, h2, h3, encrypt_with)))
            | inr (o2, h3) ↦ record {
              c = c;
              c1 = c1;
              c2 = c2;
              iv = iv;
              o1 = o1;
              o2 = o2;
              init = h;
              update = h2;
              final = h3;
              iv_filled = filled;
              text = rw (h, h2, h3, encrypt_with);
            }
          ]
        ]
      ]

  encrypt-IsSealed :
      EvpLaws e
      → (plaintext key : Str) (g : G) → (aes256_cbc_encrypt e plaintext key g).0 ≢ []
      → IsSealed plaintext key (aes256_cbc_encrypt e plaintext key g).0
  unfolding aes256_cbc_encrypt
  encrypt-IsSealed laws plaintext key g nonempty = elim (Option-cases (e.ctx_new g).0) [
    | inl h ↦ absurd (nonempty (rw (h, aes256_cbc_encrypt)))
    | inr (c, h) ↦ elim (Option-cases (e.rand_bytes e.iv_length (e.ctx_new g).1).0) [
      | inl h2 ↦ absurd (nonempty (rw (h, h2, aes256_cbc_encrypt)))
      | inr (iv, h2) ↦
          rw (h, h2, aes256_cbc_encrypt)
            (encrypt_with-IsSealed c key iv plaintext (laws.filled _ _ iv h2)
              (λ z. nonempty (rw (h, h2, aes256_cbc_encrypt) z)))
    ]
  ]

  decrypt_with-IsSealed :
      EvpLaws e
      → (plaintext key cipher : Str) (d : Ctx) (v : IsSealed plaintext key cipher)
      → decrypt_with e d key v.iv (v.o1 ++ v.o2) ≡ ok plaintext
  unfolding decrypt_with
  decrypt_with-IsSealed laws plaintext key cipher d v =
      let back =
        laws.inverse v.c v.c1 v.c2 d key v.iv plaintext v.o1 v.o2 v.init v.update v.final in
      rw (back.4, back.5, back.6, decrypt_with) (ap ok back.7)

  IsSealed-long :
      EvpLaws e
      → (plaintext key cipher : Str) → IsSealed plaintext key cipher
      → leb (length cipher) e.iv_length ≡ false
  IsSealed-long laws plaintext key cipher v = ground (
    arith,
    v.text,
    length-append v.iv (v.o1 ++ v.o2),
    length-append v.o1 v.o2,
    laws.block v.c v.c1 v.c2 key v.iv plaintext v.o1 v.o2 v.init v.update v.final,
    laws.iv_is_block,
  )

  decrypt-IsSealed :
      EvpLaws e
      → (plaintext key cipher : Str) (g : G) (d : Ctx) → IsSealed plaintext key cipher
      → (e.ctx_new g).0 ≡ some d
      → (aes256_cbc_decrypt e cipher key g).0 ≡ ok plaintext
  unfolding aes256_cbc_decrypt
  decrypt-IsSealed laws plaintext key cipher g d v fresh =
      let iv_part : take e.iv_length cipher ≡ v.iv =
        rw v.text (take-append_length e.iv_length v.iv (v.o1 ++ v.o2) v.iv_filled) in
      let rest : drop e.iv_length cipher ≡ v.o1 ++ v.o2 =
        rw v.text (drop-append_length e.iv_length v.iv (v.o1 ++ v.o2) v.iv_filled) in
      rw (IsSealed-long laws plaintext key cipher v, fresh, aes256_cbc_decrypt)
        (rw (iv_part, rest) (decrypt_with-IsSealed laws plaintext key cipher d v))

  -- A ciphertext that `aes256CBCEncrypt` returns, that is not its failure value "", decrypts under
  -- the same key to the plaintext, wherever a cipher context can be had and the EVP functions behave
  -- as documented.
  pub decrypt-encrypt :
      (plaintext key : Str) (g later : G) (d : Ctx)
      → EvpLaws e
      → (aes256_cbc_encrypt e plaintext key g).0 ≢ []
      → (e.ctx_new later).0 ≡ some d
      → (aes256_cbc_decrypt e (aes256_cbc_encrypt e plaintext key g).0 key later).0 ≡ ok plaintext
  decrypt-encrypt plaintext key g later d laws nonempty fresh =
      decrypt-IsSealed laws plaintext key _ later d (encrypt-IsSealed laws plaintext key g nonempty)
        fresh

  -- A ciphertext that is not the failure value "" has 16 bytes for the IV and the plaintext padded to
  -- the next whole block of 16, by at least one byte, where the EVP functions behave as documented.
  pub length-encrypt :
      (plaintext key : Str) (g : G)
      → EvpLaws e
      → (aes256_cbc_encrypt e plaintext key g).0 ≢ []
      → length (aes256_cbc_encrypt e plaintext key g).0 ≡ 16 + (length plaintext / 16 + 1) * 16
  length-encrypt plaintext key g laws nonempty =
      let v = encrypt-IsSealed laws plaintext key g nonempty in
      omega (
        arith,
        ap length v.text,
        length-append v.iv (v.o1 ++ v.o2),
        length-append v.o1 v.o2,
        v.iv_filled,
        laws.block v.c v.c1 v.c2 key v.iv plaintext v.o1 v.o2 v.init v.update v.final,
        laws.iv_is_block,
      )
