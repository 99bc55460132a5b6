-- ===== src/Channel/Controller/Receiving.antt =====
-- The receiving loop: it ends with an empty buffer, and hands the messages of whole packets to the
-- controller one after another.
use fmtp.Prelude.{
  ℕ, zero, suc, ◌+◌, ◌*◌, ◌-◌, ◌<◌, ◌≡◌, refl, sym, ap, ◌∙◌, inl, inr, true, some, List, [], ◌∷◌,
  ◌++◌, arith, Bytes, length, length-drop, subst, pos, Bool-cases, foldl, All, nat_eq,
}
use fmtp.Protocol.Message.{FmtpMessage}
use fmtp.Protocol.Packet.{
  FmtpPacketTcpHeader, make_fmtp_packet, header_valid, parce_fmtp_packet_header, body_len,
}
use fmtp.Channel.Core.Buffer.{with_buffer}
use fmtp.Channel.Controller.Buffer.{process_fmtp_message-with_buffer}
use fmtp.Channel.Core.{Recoding, StateController}
use fmtp.Channel.Controller.{
  buffer_read, Frame, no_header, panicked, skipped, no_body, framed, read_body, header_frame,
  next_frame, receive_loop, receive, process_fmtp_message, round,
}
use fmtp.Channel.Controller.Framing.{IsSendable, next_frame-make_fmtp_packet}

-- What a round leaves is less than what it found, and a slice is never out of range.
length_zero : (bs : Bytes) → length bs ≡ 0 → bs ≡ []
length_zero [] h = refl
length_zero (b ∷ bs) h = absurd (omega arith)

abbrev Shrinks : ℕ → Frame → Type 0
Shrinks n no_header = n ≡ 0
Shrinks n panicked = ⊥
Shrinks n (skipped rest) = length rest < n
Shrinks n (no_body rest) = length rest ≡ 0
Shrinks n (framed msg rest) = length rest < n

read_body-Shrinks :
    (type n m : ℕ) (rest : Bytes) → length rest < m → Shrinks m (read_body type (pos n) rest)
unfolding read_body buffer_read
read_body-Shrinks type zero m [] h = h
read_body-Shrinks type (suc n) m [] h = refl
read_body-Shrinks type n m (b ∷ bs) h = omega (arith, length-drop n (b ∷ bs))

-- The length of a valid header is more than the header's own.
valid_body_len :
    (h : FmtpPacketTcpHeader)
    → header_valid h.version h.reserved h.pkg_len h.pkg_type ≡ true
    → body_len h ≡ pos (h.pkg_len - 5)
unfolding header_valid body_len
valid_body_len h valid = ground arith

header_frame-Shrinks :
    (h : FmtpPacketTcpHeader) (m : ℕ) (rest : Bytes)
    → h.is_valid ≡ header_valid h.version h.reserved h.pkg_len h.pkg_type
    → length rest < m
    → Shrinks m (header_frame (some h) rest)
unfolding header_frame
header_frame-Shrinks h m rest e short = elim (Bool-cases h.is_valid) [
  | inl valid ↦
      rw (valid, valid_body_len h (sym e ∙ valid))
        (read_body-Shrinks h.pkg_type (h.pkg_len - 5) m rest short)
  | inr invalid ↦ rw invalid short
]

header_bytes-Shrinks :
    (a b c d e m : ℕ) (rest : Bytes)
    → length rest < m
    → Shrinks m (header_frame (parce_fmtp_packet_header (a ∷ b ∷ c ∷ d ∷ e ∷ [])) rest)
unfolding parce_fmtp_packet_header
header_bytes-Shrinks a b c d e m rest short =
    let header : FmtpPacketTcpHeader = record {
      version = a;
      reserved = b;
      pkg_len = c * 256 + d;
      pkg_type = e;
      is_valid = header_valid a b (c * 256 + d) e;
    } in
    header_frame-Shrinks header m rest refl short

pub next_frame-Shrinks : (buffer : Bytes) → Shrinks (length buffer) (next_frame buffer)
unfolding next_frame
next_frame-Shrinks [] = refl
next_frame-Shrinks (a ∷ []) = header_bytes-Shrinks a 0 0 0 0 1 [] (omega arith)
next_frame-Shrinks (a ∷ b ∷ []) = header_bytes-Shrinks a b 0 0 0 2 [] (omega arith)
next_frame-Shrinks (a ∷ b ∷ c ∷ []) = header_bytes-Shrinks a b c 0 0 3 [] (omega arith)
next_frame-Shrinks (a ∷ b ∷ c ∷ d ∷ []) = header_bytes-Shrinks a b c d 0 4 [] (omega arith)
next_frame-Shrinks (a ∷ b ∷ c ∷ d ∷ e ∷ bs) =
    header_bytes-Shrinks a b c d e (suc (suc (suc (suc (suc (length bs)))))) bs (omega arith)

unfoldable pub packets : List FmtpMessage → Bytes
packets [] = []
packets (msg ∷ msgs) = make_fmtp_packet msg ++ packets msgs

packets_shorter :
    (msg : FmtpMessage) (rest : Bytes)
    → IsSendable msg
    → length rest < length (make_fmtp_packet msg ++ rest)
packets_shorter msg rest ok =
    subst (Shrinks (length (make_fmtp_packet msg ++ rest)))
      (next_frame-make_fmtp_packet msg rest ok) (next_frame-Shrinks (make_fmtp_packet msg ++ rest))

module _ (u : Recoding) where
  round-empty :
      (fuel : ℕ) (c : StateController) (f : Frame)
      → Shrinks (length c.received_buffer) f
      → length c.received_buffer < suc fuel
      → ((d : StateController)
          → length d.received_buffer < fuel
          → (receive_loop u fuel d).received_buffer ≡ [])
      → (round u (receive_loop u fuel) c f).received_buffer ≡ []
  round-empty fuel c no_header h enough later = length_zero c.received_buffer h
  round-empty fuel c panicked h enough later = absurd h
  round-empty fuel c (no_body rest) h enough later = length_zero rest h
  round-empty fuel c (skipped rest) h enough later = later (with_buffer rest c) (omega arith)
  round-empty fuel c (framed msg rest) h enough later =
      let next : StateController = process_fmtp_message u (with_buffer rest c) msg in
      let same : next.received_buffer ≡ rest =
        ap (λ d. d.received_buffer) (process_fmtp_message-with_buffer u c rest msg) in
      later next (subst (λ b. length b < fuel) (sym same) (omega arith))

  receive_loop-empty :
      (fuel : ℕ) (c : StateController)
      → length c.received_buffer < fuel
      → (receive_loop u fuel c).received_buffer ≡ []
  unfolding receive_loop
  receive_loop-empty zero c h = absurd (omega arith)
  receive_loop-empty (suc fuel) c h =
      round-empty fuel c (next_frame c.received_buffer) (next_frame-Shrinks c.received_buffer) h
        (receive_loop-empty fuel)

  -- Whatever bytes come, the loop ends with nothing left in the buffer: a part of a packet does not
  -- wait there for the rest.
  pub receive-empty :
      (c : StateController) (received : Bytes) → (receive u c received).received_buffer ≡ []
  unfolding receive
  receive-empty c received =
      receive_loop-empty (length (c.received_buffer ++ received) + 1)
        (with_buffer (c.received_buffer ++ received) c) (omega arith)

  receive_loop-packets :
      (fuel : ℕ) (c : StateController) (msgs : List FmtpMessage)
      → All IsSendable msgs
      → length (packets msgs) < fuel
      → receive_loop u fuel (with_buffer (packets msgs) c)
        ≡ with_buffer [] (foldl (process_fmtp_message u) c msgs)
  unfolding receive_loop packets next_frame
  receive_loop-packets zero c msgs ok h = absurd (omega arith)
  receive_loop-packets (suc fuel) c [] ok h = refl
  receive_loop-packets (suc fuel) c (msg ∷ msgs) (ok, oks) h =
      ap (round u (receive_loop u fuel) (with_buffer (packets (msg ∷ msgs)) c))
        (next_frame-make_fmtp_packet msg (packets msgs) ok)
      ∙ ap (receive_loop u fuel) (process_fmtp_message-with_buffer u c (packets msgs) msg)
      ∙ receive_loop-packets fuel (process_fmtp_message u c msg) msgs oks
          (omega (arith, packets_shorter msg (packets msgs) ok))

  foldl-with_buffer :
      (b : Bytes) (c : StateController) (msgs : List FmtpMessage)
      → foldl (process_fmtp_message u) (with_buffer b c) msgs
        ≡ with_buffer b (foldl (process_fmtp_message u) c msgs)
  foldl-with_buffer b c [] = refl
  foldl-with_buffer b c (msg ∷ msgs) =
      ap (λ d. foldl (process_fmtp_message u) d msgs) (process_fmtp_message-with_buffer u c b msg)
      ∙ foldl-with_buffer b (process_fmtp_message u c msg) msgs

  -- Bytes that are the packets of sendable messages, received with an empty buffer, have the effect
  -- of handling those messages in their order.
  pub receive-packets :
      (c : StateController) (msgs : List FmtpMessage)
      → c.received_buffer ≡ []
      → All IsSendable msgs
      → receive u c (packets msgs) ≡ foldl (process_fmtp_message u) c msgs
  unfolding receive
  receive-packets c msgs empty ok =
      let same : with_buffer [] c ≡ c = ap (λ b. with_buffer b c) (sym empty) in
      ap (λ b. receive_loop u (length (b ++ packets msgs) + 1) (with_buffer (b ++ packets msgs) c))
        empty
      ∙ receive_loop-packets (length (packets msgs) + 1) c msgs ok (omega arith)
      ∙ sym (foldl-with_buffer [] c msgs)
      ∙ ap (λ d. foldl (process_fmtp_message u) d msgs) same
