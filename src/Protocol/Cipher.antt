-- ===== src/Protocol/Cipher.antt =====
-- src/server/encrypt.cpp: the AES-256-CBC envelope, an IV of `iv_length` bytes in front of the
-- ciphertext, over the EVP functions. Freeing the context has no effect on the result.
pub mod Roundtrip
use my_chat_project.Prelude.{
  ℕ, Str, codes, Option, none, some, [], ◌++◌, leb, length, take, drop, if◌then◌else◌,
}
use my_chat_project.Exec.{Exec, Outcome, ok, throws, runtime_error, Exception, throw}
use my_chat_project.Externals.{EvpLib}

-- MY_AES_KEY; EVP_CIPHER reads its 32 bytes.
abbrev pub my_aes_key : Str
my_aes_key = codes "1234567890ABCDEF1234567890ABCDEF"

module _ {G Ctx : Type 0} (e : EvpLib G Ctx) where
  -- EncryptInit, EncryptUpdate, EncryptFinal; each failure is the empty string.
  unfoldable pub encrypt_with : Ctx → Str → Str → Str → Str
  encrypt_with c key iv plaintext = elim (e.encrypt_init c key iv) [
    | none ↦ []
    | some c1 ↦ elim (e.encrypt_update c1 plaintext) [
      | none ↦ []
      | some (out1, c2) ↦ elim (e.encrypt_final c2) [ none ↦ [] | some out2 ↦ iv ++ (out1 ++ out2) ]
    ]
  ]

  encrypt_random : Ctx → Str → Str → Option Str → Str
  unfolding encrypt_with
  encrypt_random c key plaintext none = []
  encrypt_random c key plaintext (some iv) = encrypt_with c key iv plaintext

  encrypt_ctx : Option Ctx → Str → Str → G → Str × G
  unfolding encrypt_random
  encrypt_ctx none plaintext key g = ([], g)
  encrypt_ctx (some c) plaintext key g =
      let (iv, g') = e.rand_bytes e.iv_length g in (encrypt_random c key plaintext iv, g')

  -- aes256CBCEncrypt: "" on failure.
  unfoldable pub aes256_cbc_encrypt : Str → Str → G → Str × G
  unfolding encrypt_ctx
  aes256_cbc_encrypt plaintext key g = let (c, g') = e.ctx_new g in encrypt_ctx c plaintext key g'

  -- DecryptInit, DecryptUpdate, DecryptFinal; each failure throws.
  unfoldable pub decrypt_with : Ctx → Str → Str → Str → Outcome Str
  decrypt_with c key iv data_part = elim (e.decrypt_init c key iv) [
    | none ↦ throws runtime_error
    | some c1 ↦ elim (e.decrypt_update c1 data_part) [
      | none ↦ throws runtime_error
      | some (out1, c2) ↦ elim (e.decrypt_final c2) [
        | none ↦ throws runtime_error
        | some out2 ↦ ok (out1 ++ out2)
      ]
    ]
  ]

  decrypt_ctx : Option Ctx → Str → Str → G → Outcome Str × G
  unfolding decrypt_with
  decrypt_ctx none ciphertext key g = (throws runtime_error, g)
  decrypt_ctx (some c) ciphertext key g =
      (decrypt_with c key (take e.iv_length ciphertext) (drop e.iv_length ciphertext), g)

  -- aes256CBCDecrypt
  unfoldable pub aes256_cbc_decrypt : Str → Str → Exec G Str
  unfolding decrypt_ctx
  aes256_cbc_decrypt ciphertext key g =
      if leb (length ciphertext) e.iv_length
      then throw runtime_error g
      else (let (c, g') = e.ctx_new g in decrypt_ctx c ciphertext key g')
