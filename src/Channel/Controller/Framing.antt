-- ===== src/Channel/Controller/Framing.antt =====
-- What the receiving loop reads from a buffer of packets.
use fmtp.Prelude.{
  ℕ, zero, suc, ◌+◌, ◌*◌, ◌<◌, ◌≡◌, refl, ap, ◌∙◌, true, some, [], ◌∷◌, ◌++◌, arith, Bytes, length,
  take, replicate, length-append, take-append, take-replicate, drop_all, take-append_length,
  drop-append_length, pos,
}
use mathlib.Core.List.{append_assoc}
use fmtp.Protocol.Message.{FmtpMessage}
use fmtp.Protocol.Packet.{
  FmtpPacketTcpHeader, fmtp_header_len, fmtp_package_body_max_len, make_fmtp_packet, header_valid,
  parce_fmtp_packet_header, body_len,
}
use fmtp.Protocol.Packet.RoundTrip.{
  IsKnown, length_field, header_of, make_fmtp_packet-header_of, parce-header_of, header_valid_iff,
  header_valid_untyped,
}
use fmtp.Channel.Controller.{buffer_read, skipped, framed, read_body, header_frame, next_frame}

-- A message that the length field of its packet can carry.
pub record IsSendable (msg : FmtpMessage) : Type 0 where
  pub known : IsKnown msg.type
  pub non_empty : 0 < length msg.text
  pub fits : length msg.text + fmtp_header_len < fmtp_package_body_max_len

buffer_read-append :
    (xs ys : Bytes) → 0 < length xs → buffer_read (length xs) (xs ++ ys) ≡ some (xs, ys)
unfolding buffer_read
buffer_read-append [] ys h = absurd (omega arith)
buffer_read-append (x ∷ xs) ys h =
    let padding : Bytes = replicate (length (x ∷ xs)) 0 in
    cc (
      ap (take (length (x ∷ xs))) (append_assoc (x ∷ xs) ys padding),
      take-append_length (x ∷ xs) (ys ++ padding),
      drop-append_length (x ∷ xs) ys,
    )

next_frame-header :
    (msg : FmtpMessage) (rest : Bytes)
    → next_frame (header_of msg ++ rest)
      ≡ header_frame (parce_fmtp_packet_header (header_of msg)) rest
unfolding next_frame header_of
next_frame-header msg rest = refl

length_field_small : (text : Bytes) → length text + 5 < 65530 → length_field text ≡ length text + 5
length_field_small text h = omega arith

-- The length of the body as the header gives it.
body_len_sub : (h : FmtpPacketTcpHeader) (n : ℕ) → h.pkg_len ≡ n + 5 → body_len h ≡ pos n
unfolding body_len
body_len_sub h n e = ground arith

header_frame_valid :
    (h : FmtpPacketTcpHeader) (text rest : Bytes)
    → h.is_valid ≡ true
    → h.pkg_len ≡ length text + 5
    → 0 < length text
    → header_frame (some h) (text ++ rest) ≡ framed (record { type = h.pkg_type; text = text }) rest
unfolding read_body header_frame
header_frame_valid h text rest valid len some_text =
    rw (valid, body_len_sub h (length text) len, read_body, buffer_read-append text rest some_text)

buffer_read_short :
    (n m : ℕ) (xs : Bytes)
    → 0 < length xs
    → n ≡ length xs + m
    → buffer_read n xs ≡ some (xs ++ replicate m 0, [])
unfolding buffer_read
buffer_read_short n m [] h e = absurd (omega arith)
buffer_read_short zero m (x ∷ xs) h e = absurd (omega arith)
buffer_read_short (suc n) m (x ∷ xs) h e = cc (
  take-append (suc n) m (x ∷ xs) (replicate (suc n) 0) e,
  take-replicate {A = ℕ} m (suc n) 0 (omega arith),
  drop_all (suc n) (x ∷ xs) (omega arith),
)

header_frame_short :
    (h : FmtpPacketTcpHeader) (text front : Bytes) (missing : ℕ)
    → h.is_valid ≡ true
    → h.pkg_len ≡ length text + 5
    → 0 < length front
    → length text ≡ length front + missing
    → header_frame (some h) front
      ≡ framed (record { type = h.pkg_type; text = front ++ replicate missing 0 }) []
unfolding read_body header_frame
header_frame_short h text front missing valid len some_front whole = rw (
  valid,
  body_len_sub h (length text) len,
  read_body,
  buffer_read_short (length text) missing front some_front whole,
)

-- A sendable message at the front of the buffer is read back whole, and what follows it stays.
pub next_frame-make_fmtp_packet :
    (msg : FmtpMessage) (rest : Bytes)
    → IsSendable msg
    → next_frame (make_fmtp_packet msg ++ rest) ≡ framed msg rest
next_frame-make_fmtp_packet msg rest h =
    rw
      (
        make_fmtp_packet-header_of msg,
        append_assoc (header_of msg) msg.text rest,
        next_frame-header msg (msg.text ++ rest),
        parce-header_of msg,
      )
      (header_frame_valid _ msg.text rest
        ((header_valid_iff (length_field msg.text) msg.type).1
          (h.known, omega arith, omega (arith, length_field_small msg.text h.fits)))
        (length_field_small msg.text h.fits) h.non_empty)

-- A buffer that ends inside a header loses what it holds: the missing bytes count as 0, so the type
-- is unknown, and nothing is left.
next_frame_cut_header :
    (buffer : Bytes)
    → 0 < length buffer
    → length buffer < fmtp_header_len
    → next_frame buffer ≡ skipped []
unfolding next_frame parce_fmtp_packet_header buffer_read header_valid
next_frame_cut_header [] h k = absurd (omega arith)
next_frame_cut_header (a ∷ []) h k = rw (header_valid_untyped a 0 0)
next_frame_cut_header (a ∷ b ∷ []) h k = rw (header_valid_untyped a b 0)
next_frame_cut_header (a ∷ b ∷ c ∷ []) h k = rw (header_valid_untyped a b (c * 256 + 0))
next_frame_cut_header (a ∷ b ∷ c ∷ d ∷ []) h k = rw (header_valid_untyped a b (c * 256 + d))
next_frame_cut_header (a ∷ b ∷ c ∷ d ∷ e ∷ r) h k = absurd (omega arith)

-- A buffer that ends inside a body gives a message all the same, filled up with zero bytes.
pub next_frame_cut_body :
    (msg : FmtpMessage) (front back : Bytes)
    → IsSendable msg
    → msg.text ≡ front ++ back
    → 0 < length front
    → next_frame (header_of msg ++ front)
      ≡ framed (record msg { text = front ++ replicate (length back) 0 }) []
next_frame_cut_body msg front back h cut some_front =
    next_frame-header msg front
    ∙ rw (parce-header_of msg) (
        header_frame_short _ msg.text front (length back)
          ((header_valid_iff (length_field msg.text) msg.type).1
            (h.known, omega arith, omega (arith, length_field_small msg.text h.fits)))
          (length_field_small msg.text h.fits) some_front whole)
  where
    whole : length msg.text ≡ length front + length back
    whole = rw cut (length-append front back)
