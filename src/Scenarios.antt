-- ===== src/Scenarios.antt =====
-- The theorems applied to concrete channels, messages and events.
pub mod Chief
pub mod Storage
pub mod Journal
pub mod Settings
pub mod Programs
pub mod Transport
pub mod Program
pub mod Configurator
pub mod Worker
pub mod Logger
pub mod Tcp
use fmtp.Prelude.{
  some, ◌≡◌, ◌≢◌, refl, true, false, none, List, [], ◌∷◌, ◌++◌, map, ◌==◌, string_eq, codes, pos,
  arith, bytes_beq, ◌↔◌, replicate,
}
use mathlib.Core.List.{Sublist}
use mathlib.Core.List.Perm
use fmtp.Protocol.State
use fmtp.Protocol.Event
use fmtp.Protocol.State.{
  FmtpState, idle, ready, con_pending, ass_pending, data_ready, empt, fmtp_state_map, state_eq,
}
use fmtp.Protocol.Event.{
  FmtpEvent, fmtp_event_map, l_setup, r_setup, l_disconnect, r_disconnect, l_shutdown, r_id_valid,
  l_startup, r_startup, ts_timeout, r_accept, r_disconnect,
}
use fmtp.Protocol.Message.{FmtpMessage, heartbeat_message, operational}
use fmtp.Protocol.Packet.{make_fmtp_packet}
use fmtp.Protocol.Packet.RoundTrip.{header_of}
use fmtp.Protocol.Machine.{init_state_machine, get_next_state, next_in}
use fmtp.Protocol.Machine.Table.{next_state, get_next_state-next_state}
use fmtp.Protocol.Machine.Handshake.{handshake, data_ready_handshake}
use fmtp.Channel.Settings.{ChannelSettings, check_settings, tcp_client_text}
use fmtp.Channel.Settings.Check.{IsComplete, check_settings-IsComplete}
use fmtp.Channel.Core.{Recoding, send_packet}
use fmtp.Channel.Transitions.{init_enter_trans_func_map, init_exit_trans_func_map}
use fmtp.Channel.Controller.{
  start, handle, receive, process_fmtp_message, next_frame, framed, skipped, force_new_event, enter,
  leave, log_change, tcp_connected, transport_event, tr_deadline, Input,
}
use fmtp.Channel.Controller.Framing.{IsSendable, next_frame-make_fmtp_packet, next_frame_cut_body}
use fmtp.Channel.Controller.Receiving.{packets, receive-empty, receive-packets}
use fmtp.Channel.Controller.Synced.{IsSynced}
use fmtp.Channel.Controller.Reachable.{reach, reach-IsSynced}
use fmtp.Channel.Controller.Outcomes.{
  sends, packed, IsStuck, force_new_event-sends, tr_deadline-IsStuck,
}

-- Texts that the two encodings share.
abbrev same_text : Recoding
same_text = record { utf8_to_win1251 = λ bs. bs; win1251_to_utf8 = λ bs. bs }

abbrev client_settings : ChannelSettings
client_settings = record {
  id = pos 7;
  version = "1.0.0";
  data_type = "OLDI";
  net_role = "client";
  local_name = codes "UUUU";
  local_atc = codes "UUUWZQZX";
  remote_name = codes "EEEE";
  remote_atc = codes "EETTZQZX";
  interval_ts = pos 15;
  interval_tr = pos 40;
  interval_ti = pos 60;
  reconnect_timeout = pos 5;
  fmtp_init_state_str = "data_ready";
  fmtp_init_state = empt;
  remote_address = "192.168.1.2";
  remote_port = pos 8500;
  local_port = pos 0;
  data_encoding = "UTF-8";
  log_debug = false;
  is_working = true;
  url_address = "127.0.0.1";
  url_path = "channel";
  url_port = pos 13000;
}

client_settings_accepted : (check_settings client_settings).1 ≡ none
unfolding check_settings bytes_beq
client_settings_accepted = refl

abbrev hello : FmtpMessage
hello = record { type = operational; text = codes "(ABI)" }

hello-IsSendable : IsSendable hello
hello-IsSendable = record {
  known = (omega arith, omega arith);
  non_empty = omega arith;
  fits = omega arith;
}

heartbeat-IsSendable : IsSendable heartbeat_message
heartbeat-IsSendable = record {
  known = (omega arith, omega arith);
  non_empty = omega arith;
  fits = omega arith;
}

get_next_state-next_state_example :
    get_next_state (init_state_machine "client") data_ready ts_timeout
    ≡ next_state true data_ready ts_timeout
get_next_state-next_state_example = get_next_state-next_state "client" data_ready ts_timeout

data_ready_handshake_example :
    Sublist
      (handshake false)
      (r_setup ∷ r_id_valid ∷ r_accept ∷ l_startup ∷ r_startup ∷ ts_timeout ∷ [])
unfolding init_state_machine get_next_state
data_ready_handshake_example =
    data_ready_handshake "server"
      (r_setup ∷ r_id_valid ∷ r_accept ∷ l_startup ∷ r_startup ∷ ts_timeout ∷ []) refl

next_frame-make_fmtp_packet_example :
    next_frame (make_fmtp_packet hello ++ 2 ∷ 0 ∷ []) ≡ framed hello (2 ∷ 0 ∷ [])
next_frame-make_fmtp_packet_example =
    next_frame-make_fmtp_packet hello (2 ∷ 0 ∷ []) hello-IsSendable

next_frame_cut_body_example :
    next_frame (header_of hello ++ codes "(A")
    ≡ framed (record hello { text = codes "(A" ++ replicate 3 0 }) []
next_frame_cut_body_example =
    next_frame_cut_body hello (codes "(A") (codes "BI)") hello-IsSendable refl (omega arith)

receive-empty_example :
    (receive same_text (start client_settings) (2 ∷ 0 ∷ 0 ∷ [])).received_buffer ≡ []
receive-empty_example = receive-empty same_text (start client_settings) (2 ∷ 0 ∷ 0 ∷ [])

receive-packets_example :
    receive same_text (start client_settings) (packets (hello ∷ heartbeat_message ∷ []))
    ≡ process_fmtp_message same_text
        (process_fmtp_message same_text (start client_settings) hello)
        heartbeat_message
unfolding start
receive-packets_example =
    receive-packets same_text (start client_settings) (hello ∷ heartbeat_message ∷ []) refl
      (hello-IsSendable, (heartbeat-IsSendable, tt))

check_settings-IsComplete_example :
    ((check_settings client_settings).1 ≡ none) ↔ IsComplete client_settings
check_settings-IsComplete_example = check_settings-IsComplete client_settings

-- The channel of a client that has been let in and has asked for an association.
abbrev asking : List Input
asking =
    tcp_connected true
    ∷ transport_event r_setup
    ∷ transport_event r_id_valid
    ∷ transport_event l_startup
    ∷ []

con_pending_moves : con_pending ≢ empt
con_pending_moves e = ground (arith, e)

force_new_event-sends_example :
    ((force_new_event same_text (start client_settings) l_setup).send_chan
      ≡ (start client_settings).send_chan
        ++ map
            (packed same_text "UTF-8")
            (sends true (start client_settings).own_identification_msg idle l_setup))
    × ((force_new_event same_text (start client_settings) l_setup).reconnects_planned
        ≡ (start client_settings).reconnects_planned)
unfolding start
force_new_event-sends_example =
    force_new_event-sends same_text true (start client_settings) l_setup
      (reach-IsSynced same_text client_settings [] client_settings_accepted) con_pending_moves

asking_state : (reach same_text client_settings asking).current_state ≡ ass_pending
unfolding handle force_new_event get_next_state start init_state_machine enter
    init_enter_trans_func_map leave init_exit_trans_func_map log_change send_packet
asking_state = refl

tr_deadline-IsStuck_example :
    IsStuck
      (reach same_text client_settings asking)
      (handle same_text (reach same_text client_settings asking) tr_deadline)
tr_deadline-IsStuck_example =
    tr_deadline-IsStuck same_text true (reach same_text client_settings asking)
      (reach-IsSynced same_text client_settings asking client_settings_accepted) asking_state
