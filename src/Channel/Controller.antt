-- ===== src/Channel/Controller.antt =====
-- channel/fmtp_states/state_controller.go: the controller of a channel's states. Each case of the
-- `select` in `Work` is an input; a case runs to its end before the next one starts.
pub mod Framing
pub mod Receiving
pub mod Buffer
pub mod Timers
pub mod Timeouts
pub mod Synced
pub mod Reachable
pub mod Outcomes
use fmtp.Prelude.{
  ℕ, zero, suc, ◌+◌, ◌-◌, String, Bool, true, false, not, Option, none, some, List, [], ◌∷◌, ◌++◌,
  ◌==◌, if◌then◌else◌, string_eq, bytes_eq, nat_eq, Bytes, length, take, drop, replicate, lookup, ℤ,
  pos, negsuc, codes,
}
use fmtp.Protocol.State
use fmtp.Protocol.State.{FmtpState, idle, data_ready, empt, state_eq}
use fmtp.Protocol.Event.{
  FmtpEvent, l_setup, r_disconnect, l_data, r_data, r_accept, r_reject, r_id_valid, r_id_invalid,
  r_heartbeat, r_shutdown, r_startup, ts_timeout, tr_timeout, ti_timeout, event_eq,
}
use fmtp.Protocol.Message
use fmtp.Protocol.Message.{
  FmtpMessage, operational, identification, system, startup_message, shutdown_message,
  heartbeat_message, reject_message, accept_message, create_identification_message,
}
use fmtp.Protocol.Packet.{FmtpPacketTcpHeader, fmtp_header_len, parce_fmtp_packet_header, body_len}
use fmtp.Protocol.Machine.{init_state_machine, get_next_state}
use fmtp.Channel.Settings.{ChannelSettings, encode1251}
use fmtp.Channel.State.{ChannelState, channel_state_ok, channel_state_error}
use fmtp.Channel.Log.{
  LogEntry, state_changed, identification_mismatch, event_content, content, severity_debug,
  severity_info, severity_warning, direction_incoming, log_channel_st, log_channel_stdt,
}
use fmtp.Channel.Timer.{Timer, new_fmtp_timer, elapse}
use fmtp.Channel.Core.{
  Recoding, StateController, log_entry, log_entry_if, is_logged, recode, send_packet,
}
use fmtp.Channel.Transitions.{TransitionFunc, init_enter_trans_func_map, init_exit_trans_func_map}

-- `if f, ok := map[state]; ok { f(fsc, event) }`
abbrev run_func : Option TransitionFunc → TransitionFunc
run_func none c event = c
run_func (some f) c event = f c event

-- `new` and the part of `Work` before its loop.
unfoldable pub start : ChannelSettings → StateController
unfolding new_fmtp_timer
start settings = record {
  send_chan = [];
  ti_timer = new_fmtp_timer settings.interval_ti ti_timeout;
  ts_timer = new_fmtp_timer settings.interval_ts ts_timeout;
  tr_timer = new_fmtp_timer settings.interval_tr tr_timeout;
  current_state = idle;
  fmtp_state_chan = [];
  cur_set = settings;
  state_machine = init_state_machine settings.net_role;
  own_identification_msg =
      create_identification_message settings.local_atc settings.remote_atc true;
  remote_identification_msg =
      create_identification_message settings.local_atc settings.remote_atc false;
  log_message_chan = [];
  fmtp_data_receive_chan = [];
  received_buffer = [];
  reconnects_planned = 0;
}

module _ (u : Recoding) where
  unfoldable pub log_change : StateController → FmtpState → FmtpEvent → StateController
  log_change c next event =
      log_entry_if (not (c.current_state == next)) c
        (log_channel_st severity_info (state_changed c.current_state next event))

  unfoldable pub leave : StateController → FmtpEvent → StateController
  leave c event =
      run_func (lookup c.current_state (init_exit_trans_func_map u c.cur_set.net_role)) c event

  unfoldable pub enter : StateController → FmtpEvent → StateController
  enter c event =
      run_func (lookup c.current_state (init_enter_trans_func_map u c.cur_set.net_role)) c event

  unfoldable pub force_new_event : StateController → FmtpEvent → StateController
  force_new_event c event =
      let next = get_next_state c.state_machine c.current_state event in
      let left = leave (log_change c next event) event in
      if next == empt then c else enter (record left { current_state = next }) event

  unfoldable pub log_event : StateController → FmtpEvent → FmtpMessage → String → StateController
  log_event c event msg severity =
      let shown =
        if event == r_data then recode u.win1251_to_utf8 c.cur_set.data_encoding msg else msg in
      log_entry_if (is_logged c severity) c (
        log_channel_stdt severity (Message.to_string msg.type) direction_incoming
          (event_content shown.text event))

  unfoldable pub process_event_message :
      StateController → FmtpEvent → FmtpMessage → String → StateController
  process_event_message c event msg severity =
      force_new_event (log_event c event msg severity) event

  unfoldable pub process_data_message : StateController → FmtpMessage → StateController
  process_data_message c msg =
      let decoded = recode u.win1251_to_utf8 c.cur_set.data_encoding msg in
      let logged = log_entry c (
        log_channel_stdt severity_info (Message.to_string msg.type) direction_incoming
          (content decoded.text)) in
      record logged { fmtp_data_receive_chan = c.fmtp_data_receive_chan ++ decoded ∷ [] }

  unfoldable pub process_identification : StateController → FmtpMessage → StateController
  process_identification c msg =
      if msg.text == reject_message.text
      then process_event_message c r_reject msg severity_info
      else if msg.text == accept_message.text
      then process_event_message c r_accept msg severity_info
      else if msg.text == c.remote_identification_msg.text
      then process_event_message c r_id_valid msg severity_info
      else process_event_message
          (log_entry c (
            log_channel_stdt severity_warning (Message.to_string msg.type) direction_incoming
              (identification_mismatch c.remote_identification_msg.text msg.text)))
          r_id_invalid msg severity_info

  -- A system message with another text is dropped.
  unfoldable pub process_system : StateController → FmtpMessage → StateController
  process_system c msg =
      if msg.text == startup_message.text
      then process_event_message c r_startup msg severity_info
      else if msg.text == shutdown_message.text
      then process_event_message c r_shutdown msg severity_info
      else if msg.text == heartbeat_message.text
      then process_event_message c r_heartbeat msg
          (if c.cur_set.log_debug then severity_info else severity_debug)
      else c

  unfoldable pub process_fmtp_message : StateController → FmtpMessage → StateController
  process_fmtp_message c msg =
      if msg.type == identification
      then process_identification c msg
      else if msg.type == system
      then process_system c msg
      else if msg.type == operational
      then process_data_message (process_event_message c r_data msg severity_debug) msg
      else process_data_message c msg

-- `make([]byte, n)` and `bytes.Buffer.Read`: what is missing of the n bytes stays 0; `none` is
-- `io.EOF`, which an empty buffer answers.
unfoldable pub buffer_read : ℕ → Bytes → Option (Bytes × Bytes)
buffer_read zero [] = some ([], [])
buffer_read (suc n) [] = none
buffer_read n (b ∷ bs) = some (take n ((b ∷ bs) ++ replicate n 0), drop n (b ∷ bs))

-- What one round of the receiving loop finds in the buffer, with what it leaves there. `panicked`
-- is a slice out of range or of negative length.
pub data Frame : Type 0 where
  no_header panicked : Frame
  skipped no_body : Bytes → Frame
  framed : FmtpMessage → Bytes → Frame

abbrev body_frame : ℕ → Option (Bytes × Bytes) → Bytes → Frame
body_frame type none rest = no_body rest
body_frame type (some (body, more)) rest = framed (record { type = type; text = body }) more

abbrev read_body : ℕ → ℤ → Bytes → Frame
unfolding buffer_read
read_body type (pos n) rest = body_frame type (buffer_read n rest) rest
read_body type (negsuc n) rest = panicked

abbrev header_frame : Option FmtpPacketTcpHeader → Bytes → Frame
unfolding buffer_read body_len
header_frame none rest = panicked
header_frame (some h) rest =
    if h.is_valid then read_body h.pkg_type (body_len h) rest else skipped rest

abbrev read_header : Option (Bytes × Bytes) → Frame
unfolding buffer_read body_len parce_fmtp_packet_header
read_header none = no_header
read_header (some (header, rest)) = header_frame (parce_fmtp_packet_header header) rest

unfoldable pub next_frame : Bytes → Frame
unfolding buffer_read body_len parce_fmtp_packet_header
next_frame buffer = read_header (buffer_read fmtp_header_len buffer)

-- What the controller reports of its channel.
abbrev pub current_channel_state : StateController → ChannelState
current_channel_state c = record {
  channel_id = c.cur_set.id;
  local_name = c.cur_set.local_atc;
  remote_name = c.cur_set.remote_name;
  daemon_state = if c.current_state == data_ready then channel_state_ok else channel_state_error;
  fmtp_state = State.to_string c.current_state;
  channel_url = record {
    address = c.cur_set.url_address;
    port = c.cur_set.url_port;
    path = c.cur_set.url_path;
  };
  state_color = "";
}

module _ (u : Recoding) where
  -- One round, and the further ones where the loop goes on.
  abbrev pub round : (StateController → StateController) → StateController → Frame → StateController
  round more c no_header = c
  round more c panicked = c
  round more c (no_body rest) = record c { received_buffer = rest }
  round more c (skipped rest) = more (record c { received_buffer = rest })
  round more c (framed msg rest) =
      more (process_fmtp_message u (record c { received_buffer = rest }) msg)

  -- Each round takes a byte at least, so one round more than there are bytes is enough.
  unfoldable pub receive_loop : ℕ → StateController → StateController
  receive_loop zero c = c
  receive_loop (suc fuel) c = round (receive_loop fuel) c (next_frame c.received_buffer)

  unfoldable pub receive : StateController → Bytes → StateController
  receive c received =
      let buffer = c.received_buffer ++ received in
      receive_loop (length buffer + 1) (record c { received_buffer = buffer })

  unfoldable pub force_elapsed : StateController → Option FmtpEvent → StateController
  force_elapsed c none = c
  force_elapsed c (some event) = force_new_event u c event

  unfoldable pub report : StateController → StateController
  report c = record c { fmtp_state_chan = c.fmtp_state_chan ++ current_channel_state c ∷ [] }

-- The cases of the `select`. A timer's event comes when its deadline passes.
pub data Input : Type 0 where
  tcp_connected : Bool → Input
  msg_from_chief : FmtpMessage → Input
  received_data : Bytes → Input
  transport_log : LogEntry → Input
  transport_event : FmtpEvent → Input
  ti_deadline ts_deadline tr_deadline state_tick : Input

module _ (u : Recoding) where
  unfoldable pub handle : StateController → Input → StateController
  handle c (tcp_connected up) = force_new_event u c (if up then l_setup else r_disconnect)
  handle c (msg_from_chief msg) = send_packet u c msg l_data severity_info
  handle c (received_data received) = receive u c received
  handle c (transport_log entry) = log_entry c entry
  handle c (transport_event event) = force_new_event u c event
  handle c ti_deadline =
      let (t, event) = elapse c.ti_timer in force_elapsed u (record c { ti_timer = t }) event
  handle c ts_deadline =
      let (t, event) = elapse c.ts_timer in force_elapsed u (record c { ts_timer = t }) event
  handle c tr_deadline =
      let (t, event) = elapse c.tr_timer in force_elapsed u (record c { tr_timer = t }) event
  handle c state_tick = report u c
