-- ===== src/Protocol/Message.antt =====
-- fmtp/fmtp_messages.go: packet types, messages and the fixed messages of the protocol.
use mathlib.Core.Option
use fmtp.Prelude.{
  ℕ, String, Bool, Option, none, some, [], ◌∷◌, ◌++◌, ◌==◌, if◌then◌else◌, nat_eq, string_eq, Bytes,
  codes, GoMap, lookup, range_return,
}

-- A `uint8`: a header may carry any byte here.
abbrev pub PacketType : Type 0
PacketType = ℕ

abbrev pub operational : PacketType
operational = 1

abbrev pub operator : PacketType
operator = 2

abbrev pub identification : PacketType
identification = 3

abbrev pub system : PacketType
system = 4

abbrev pub status : PacketType
status = 5

abbrev pub unknown : PacketType
unknown = 6

abbrev pub unknwn_fmtp_packet_type : String
unknwn_fmtp_packet_type = "Unknown Typ"

abbrev pub packet_type_map : GoMap PacketType String
packet_type_map =
    (operational, "operational")
    ∷ (operator, "operator")
    ∷ (identification, "identification")
    ∷ (system, "system")
    ∷ (status, "status")
    ∷ (unknown, unknwn_fmtp_packet_type)
    ∷ []

unfoldable pub to_string : PacketType → String
unfolding lookup
to_string t = Option.get_or (lookup t packet_type_map) unknwn_fmtp_packet_type

abbrev pub named : String → PacketType × String → Option PacketType
named text (t, name) = if name == text then some t else none

-- `FromString` over the map in the order that `range` visits it.
unfoldable pub from_string_in : GoMap PacketType String → String → PacketType
from_string_in m text = Option.get_or (range_return (named text) m) unknown

unfoldable pub from_string : String → PacketType
unfolding range_return from_string_in
from_string text = from_string_in packet_type_map text

pub record FmtpMessage : Type 0 where
  pub type : PacketType
  pub text : Bytes

abbrev pub startup_message : FmtpMessage
startup_message = record { type = system; text = codes "01" }

abbrev pub shutdown_message : FmtpMessage
shutdown_message = record { type = system; text = codes "00" }

abbrev pub heartbeat_message : FmtpMessage
heartbeat_message = record { type = system; text = codes "03" }

abbrev pub reject_message : FmtpMessage
reject_message = record { type = identification; text = codes "REJECT" }

abbrev pub accept_message : FmtpMessage
accept_message = record { type = identification; text = codes "ACCEPT" }

unfoldable pub create_identification_message : Bytes → Bytes → Bool → FmtpMessage
create_identification_message local_name remote_name own_msg =
    if own_msg
    then record { type = identification; text = local_name ++ (codes "-" ++ remote_name) }
    else record { type = identification; text = remote_name ++ (codes "-" ++ local_name) }
