-- ===== src/Exchange/Recv.antt =====
-- src/client/main.cpp, readTaskHandler: what the 4096 bytes of its recv mean for a frame.
use my_chat_project.Prelude.{
  length-append, length-take-ge, ℕ, ◌+◌, ◌-◌, ◌%◌, ◌^◌, ◌<◌, ◌≤◌, ◌≡◌, ◌∙◌, ap, refl, arith, true,
  false, Str, ◌++◌, length, take, take-append, take-all, ltb,
}
use my_chat_project.Exec.{ok}
use my_chat_project.Externals.{ClientExternals}
use my_chat_project.Protocol.Header.{MsgHeader, header_size, header_bytes, read_header}
use my_chat_project.Protocol.Header.Layout.{read_header-header_bytes, length-header_bytes}
use my_chat_project.Protocol.Cipher.{aes256_cbc_encrypt, my_aes_key}
use my_chat_project.Protocol.Frame.{frame, frame_header, encrypted_message_svr}
use my_chat_project.Protocol.Frame.Open.{length-frame, frame_header-IsHeader, frame-ne-nil}
use my_chat_project.Exchange.Frames.{frame-rest}
use my_chat_project.Client.{Client, Now}
use my_chat_project.Client.Receive.{receive, read_task, recv_size}

-- The bytes that the recv of a frame gives besides it.
abbrev pub beside : Str → Str → Str
beside bytes rest = take (recv_size - length bytes) rest

cut_lem :
    (n : ℕ)
    → 4096 < header_size + n
    → header_size + n < 2 ^ 32
    → ltb 4096 ((header_size + n) % 2 ^ 32) ≡ true
cut_lem n long short = ground arith

module _ {Json G Ctx K Q : Type 0} (y : ClientExternals Json G Ctx K Q) where
  -- A frame that fits one recv is handled with what the same recv gives besides it.
  pub read_task-append :
      (bytes rest : Str) (now : Now) (c : Client G K Q)
      → length bytes ≤ 4096
      → read_task y (bytes ++ rest) now c ≡ receive y (bytes ++ beside bytes rest) now c
  unfolding read_task
  read_task-append bytes rest now c h = ap (λ b. receive y b now c) (take-append 4096 bytes rest h)

  pub read_task-frame :
      (bytes : Str) (now : Now) (c : Client G K Q)
      → length bytes ≤ 4096
      → read_task y bytes now c ≡ receive y bytes now c
  unfolding read_task
  read_task-frame bytes now c h = ap (λ b. receive y b now c) (take-all 4096 bytes h)

  -- `receive`, as a function of the header.
  receive-cut :
      (buf : Str) (header : MsgHeader) (now : Now) (c : Client G K Q)
      → read_header buf ≡ header
      → ltb (length buf) header_size ≡ false
      → ltb (length buf) header.msg_length ≡ true
      → receive y buf now c ≡ (ok false, c)
  unfolding receive
  receive-cut buf header now c h long cut =
      let msg_length = ap (λ (h : MsgHeader). h.msg_length) h in rw (long, msg_length, cut) refl

  -- A frame of the server's of more than 4096 bytes, and less than 2 ^ 32, ends the client, which has
  -- not handled any of it: recv gives a part of it, and readTaskHandler exits. The type and the id
  -- are uint32_t values.
  pub read_task-long :
      (text rest : Str) (t id : ℕ) (g : G) (now : Now) (c : Client G K Q)
      → t < 2 ^ 32
      → id < 2 ^ 32
      → 4096 < length (encrypted_message_svr y.evp text t id g).0
      → length (encrypted_message_svr y.evp text t id g).0 < 2 ^ 32
      → read_task y ((encrypted_message_svr y.evp text t id g).0 ++ rest) now c ≡ (ok false, c)
  unfolding read_task encrypted_message_svr frame_header
  read_task-long text rest t id g now c wt w long short =
      let cipher = (aes256_cbc_encrypt y.evp text my_aes_key g).0 in
      let header = frame_header cipher t id in
      let sealed = frame-ne-nil y.evp text t id g (λ e. ground (arith, ap length e)) in
      let buf = take 4096 (frame cipher t id ++ rest) in
      let n = length-frame cipher t id sealed in
      let head = length-header_bytes header in
      let whole : length buf ≡ 4096 =
        length-take-ge 4096 (frame cipher t id ++ rest)
          (omega (arith, length-append (frame cipher t id) rest, long)) in
      let front : buf
          ≡ header_bytes header ++ take (4096 - length (header_bytes header)) (cipher ++ rest) =
        ap (take 4096) (frame-rest cipher rest t id sealed)
        ∙ take-append 4096 (header_bytes header) (cipher ++ rest) (omega (arith, head)) in
      let read : read_header buf ≡ header =
        ap read_header front
        ∙ read_header-header_bytes header
            (take (4096 - length (header_bytes header)) (cipher ++ rest))
            (frame_header-IsHeader cipher t id wt w) in
      receive-cut buf header now c read (rw whole refl)
        (rw whole (cut_lem (length cipher) (omega (arith, n, long)) (omega (arith, n, short))))
