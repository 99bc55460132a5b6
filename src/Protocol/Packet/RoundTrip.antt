-- ===== src/Protocol/Packet/RoundTrip.antt =====
-- A header that `MakeFmtpPacket` writes, read back by `ParceFmtpPacketHeader`.
use fmtp.Prelude.{
  ℕ, ◌+◌, ◌*◌, ◌/◌, ◌%◌, ◌≤◌, ◌<◌, ◌≡◌, refl, ◌↔◌, true, false, not, zero, suc, nat_beq, some, [],
  ◌∷◌, ◌++◌, arith, ◌==◌, string_eq, Bytes, length,
}
use fmtp.Protocol.Message
use fmtp.Protocol.Message.{FmtpMessage, PacketType, operational, status, unknwn_fmtp_packet_type}
use fmtp.Protocol.Packet.{
  fmtp_header_len, fmtp_package_body_max_len, make_fmtp_packet, header_valid,
  parce_fmtp_packet_header,
}

-- The five types that a packet may have.
abbrev pub IsKnown : PacketType → Type 0
IsKnown t = (operational ≤ t) × (t ≤ status)

ne_of_lt : (a b : ℕ) → a < b → nat_beq a b ≡ false
ne_of_lt a b h = ground arith

known_beyond : (t : ℕ) → 6 < t → Message.to_string t ≡ unknwn_fmtp_packet_type
unfolding Message.to_string
known_beyond t h = rw (
  ne_of_lt 1 t (omega arith),
  ne_of_lt 2 t (omega arith),
  ne_of_lt 3 t (omega arith),
  ne_of_lt 4 t (omega arith),
  ne_of_lt 5 t (omega arith),
  ne_of_lt 6 t (omega arith),
  Message.to_string,
)

known_type :
    (t : PacketType) → (not (Message.to_string t == unknwn_fmtp_packet_type) ≡ true) ↔ IsKnown t
unfolding Message.to_string
known_type zero = (λ h. cc, λ h. absurd (omega arith))
known_type (suc zero) = (λ h. omega arith, λ h. refl)
known_type (suc (suc zero)) = (λ h. omega arith, λ h. refl)
known_type (suc (suc (suc zero))) = (λ h. omega arith, λ h. refl)
known_type (suc (suc (suc (suc zero)))) = (λ h. omega arith, λ h. refl)
known_type (suc (suc (suc (suc (suc zero))))) = (λ h. omega arith, λ h. refl)
known_type (suc (suc (suc (suc (suc (suc zero)))))) = (λ h. cc, λ h. absurd (omega arith))
known_type (suc (suc (suc (suc (suc (suc (suc t))))))) =
    rw (known_beyond (suc (suc (suc (suc (suc (suc (suc t))))))) (omega arith))
      (λ h. cc, λ h. absurd (omega arith))

-- What `PkgLen` holds for a text.
abbrev pub length_field : Bytes → ℕ
length_field text = (length text % 65536 + fmtp_header_len) % 65536

unfoldable pub header_of : FmtpMessage → Bytes
header_of msg =
    2 ∷ 0 ∷ (length_field msg.text / 256) ∷ (length_field msg.text % 256) ∷ msg.type ∷ []

small-div : (n : ℕ) → n < 65536 → n / 256 % 256 ≡ n / 256
small-div n h = omega arith

recombine : (n : ℕ) → n / 256 * 256 + n % 256 ≡ n
recombine n = omega arith

pub make_fmtp_packet-header_of :
    (msg : FmtpMessage) → make_fmtp_packet msg ≡ header_of msg ++ msg.text
unfolding make_fmtp_packet header_of
make_fmtp_packet-header_of msg = cc (small-div (length_field msg.text) (omega arith))

-- A header is valid for the known types and a whole length of 6 to 65529.
pub parce-header_of :
    (msg : FmtpMessage)
    → parce_fmtp_packet_header (header_of msg)
      ≡ some (record {
        version = 2;
        reserved = 0;
        pkg_len = length_field msg.text;
        pkg_type = msg.type;
        is_valid = header_valid 2 0 (length_field msg.text) msg.type;
      })
unfolding parce_fmtp_packet_header header_of
parce-header_of msg = cc (recombine (length_field msg.text))

pub header_valid_iff :
    (len : ℕ) (t : PacketType)
    → (header_valid 2 0 len t ≡ true)
      ↔ (IsKnown t × (fmtp_header_len < len) × (len < fmtp_package_body_max_len))
unfolding header_valid
header_valid_iff len t = ground (arith, known_type t)

-- No packet is of type 0.
pub header_valid_untyped : (version reserved len : ℕ) → header_valid version reserved len 0 ≡ false
unfolding header_valid
header_valid_untyped version reserved len = ground arith
