-- ===== src/Protocol/Packet.antt =====
-- fmtp/fmtp_package.go: the five header bytes of a packet, written and read.
pub mod RoundTrip
use fmtp.Prelude.{
  ℕ, ◌+◌, ◌-◌, ◌*◌, ◌/◌, ◌%◌, Bool, false, not, ◌&&◌, Option, none, some, [], ◌∷◌, ◌++◌, ltb, ◌==◌,
  if◌then◌else◌, nat_eq, string_eq, Bytes, length, ℤ, pos, sub_ℕ,
}
use fmtp.Protocol.Message
use fmtp.Protocol.Message.{PacketType, FmtpMessage, unknwn_fmtp_packet_type, packet_type_map}

abbrev pub fmtp_version : ℕ
fmtp_version = 2

abbrev pub fmtp_reserved : ℕ
fmtp_reserved = 0

abbrev pub fmtp_header_len : ℕ
fmtp_header_len = 5

abbrev pub fmtp_package_max_length : ℕ
fmtp_package_max_length = 65535

abbrev pub fmtp_package_body_max_len : ℕ
fmtp_package_body_max_len = fmtp_package_max_length - fmtp_header_len

-- `version`, `reserved` and `pkg_type` are `uint8`, `pkg_len` is `uint16`.
pub record FmtpPacketTcpHeader : Type 0 where
  pub version : ℕ
  pub reserved : ℕ
  pub pkg_len : ℕ
  pub pkg_type : PacketType
  pub is_valid : Bool

-- `byte(v >> 8)` and `byte(v)`, as `PutUint16` writes them.
abbrev put_uint16 : ℕ → Bytes
put_uint16 v = (v / 256 % 256) ∷ (v % 256) ∷ []

unfoldable pub marshal_fmtp_header : FmtpPacketTcpHeader → Bytes
marshal_fmtp_header h = h.version ∷ h.reserved ∷ (put_uint16 h.pkg_len ++ (h.pkg_type ∷ []))

-- The sum of the length is taken in `uint16`.
unfoldable pub make_fmtp_packet : FmtpMessage → Bytes
unfolding marshal_fmtp_header
make_fmtp_packet msg = marshal_fmtp_header header ++ msg.text
  where
    header : FmtpPacketTcpHeader
    header = record {
      version = 2;
      reserved = 0;
      pkg_len = (length msg.text % 65536 + fmtp_header_len) % 65536;
      pkg_type = msg.type;
      is_valid = false;
    }

-- The test on the fields of a header that has been read.
unfoldable pub header_valid : ℕ → ℕ → ℕ → ℕ → Bool
unfolding Message.to_string
header_valid version reserved length type =
    version == fmtp_version
    && reserved == fmtp_reserved
    && not (Message.to_string type == unknwn_fmtp_packet_type)
    && ltb length fmtp_package_body_max_len
    && ltb fmtp_header_len length

-- `none` is the panic on a slice of fewer than five bytes.
unfoldable pub parce_fmtp_packet_header : Bytes → Option FmtpPacketTcpHeader
unfolding header_valid
parce_fmtp_packet_header (version ∷ reserved ∷ high ∷ low ∷ type ∷ more) =
    let length = high * 256 + low in
    some (record {
      version = version;
      reserved = reserved;
      pkg_len = length;
      pkg_type = type;
      is_valid = header_valid version reserved length type;
    })
parce_fmtp_packet_header _ = none

unfoldable pub body_len : FmtpPacketTcpHeader → ℤ
body_len h = if h.pkg_len == 0 then pos 0 else sub_ℕ h.pkg_len fmtp_header_len
