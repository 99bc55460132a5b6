-- ===== src/Channel/Transport/Wire.antt =====
-- channel/tcp_transport/tcp_transport_client.go: the two loops of a connection beside the goroutine of
-- `Work`. They meet at channels without a buffer, so a write waits for its reader: a loop that fails
-- waits for `Work`, and `Work`, when it stops the client, waits for a loop that can be cancelled.
pub mod Account
use fmtp.Prelude.{
  ℕ, suc, ◌+◌, ◌-◌, String, Bool, true, false, not, ◌&&◌, Option, none, some, List, [], ◌∷◌, ◌++◌,
  Bytes, ◌==◌, ltb, if◌then◌else◌,
}
use fmtp.Protocol.Event.{FmtpEvent, none_event, event_eq}
use fmtp.Channel.Core.{DataAndEvent}
use fmtp.Channel.Log.{
  LogEntry, transport_text, transport_error, log_channel_st, log_channel_stdt, severity_error,
  direction_incoming, none_fmtp_type,
}

pub record Wire : Type 0 where
  -- `tcpClient` is not nil.
  pub has_client : Bool
  -- `Work` is in `stopClient`, where it writes to `cancelWorkChan`.
  pub stopping : Bool
  -- The receiving loops that are about to read, that read, and that wait to pass on an error.
  pub polling : ℕ
  pub reading : ℕ
  pub read_failing : ℕ
  -- The sending loops that wait for a packet, and that wait to pass on an error.
  pub waiting : ℕ
  pub write_failing : ℕ
  pub to_send_data_chan : List DataAndEvent
  pub received_data_chan : List Bytes
  pub event_chan : List FmtpEvent
  pub conn_state_chan : List Bool
  pub log_message_chan : List LogEntry
  -- The packets that have been taken off `toSendDataChan`, and whether they could be written.
  pub taken : List (DataAndEvent × Bool)

abbrev pub new_wire : Wire
new_wire = record {
  has_client = false;
  stopping = false;
  polling = 0;
  reading = 0;
  read_failing = 0;
  waiting = 0;
  write_failing = 0;
  to_send_data_chan = [];
  received_data_chan = [];
  event_chan = [];
  conn_state_chan = [];
  log_message_chan = [];
  taken = [];
}

abbrev pub log_to : Wire → LogEntry → Wire
log_to w entry = record w { log_message_chan = w.log_message_chan ++ entry ∷ [] }

abbrev pub report_state : Wire → Bool → Wire
report_state w state = record w { conn_state_chan = w.conn_state_chan ++ state ∷ [] }

-- What the loops and `Work` may do next. A read ends with bytes, or with an error, which is none at
-- the end of the stream; closing ends with an error or none. What cannot happen leaves all as it is.
pub data WireEvent : Type 0 where
  packet_queued : DataAndEvent → WireEvent
  read_begun : WireEvent
  bytes_read : Bytes → WireEvent
  read_failed : Option Bytes → WireEvent
  packet_written : WireEvent
  write_failed : Bytes → WireEvent
  read_error_taken : WireEvent
  write_error_taken : WireEvent
  receiver_cancelled : Option Bytes → WireEvent
  sender_cancelled : Option Bytes → WireEvent

unfoldable pub begin_read : Wire → Wire
begin_read w =
    if ltb 0 w.polling then record w { polling = w.polling - 1; reading = suc w.reading } else w

unfoldable pub end_read : Bytes → Wire → Wire
end_read buffer w =
    if ltb 0 w.reading
    then record w {
      reading = w.reading - 1;
      polling = suc w.polling;
      received_data_chan = w.received_data_chan ++ buffer ∷ [];
    }
    else w

unfoldable pub log_read_error : Option Bytes → Wire → Wire
unfolding log_channel_stdt
log_read_error none w = w
log_read_error (some err) w = log_to w (
    log_channel_stdt severity_error none_fmtp_type direction_incoming
      (transport_error "Ошибка чтения данных из FMTP канала. Ошибка: <%s>." err))

unfoldable pub fail_read : Option Bytes → Wire → Wire
unfolding log_read_error
fail_read err w =
    if ltb 0 w.reading
    then log_read_error err
        (record w { reading = w.reading - 1; read_failing = suc w.read_failing })
    else w

abbrev pub raise_after : FmtpEvent → Wire → Wire
raise_after event w =
    if event == none_event then w else record w { event_chan = w.event_chan ++ event ∷ [] }

-- A loop takes the packet, writes it and raises its event in one step, which tells what becomes of
-- the loops; Transport/Loops has the three steps one by one.
unfoldable pub write_first : Wire → List DataAndEvent → Wire
write_first w [] = w
write_first w (cur_data ∷ others) =
    if ltb 0 w.waiting
    then raise_after cur_data.event_after_send
        (record w { to_send_data_chan = others; taken = w.taken ++ (cur_data, true) ∷ [] })
    else w

unfoldable pub fail_first : Bytes → Wire → List DataAndEvent → Wire
unfolding log_channel_stdt
fail_first err w [] = w
fail_first err w (cur_data ∷ others) =
    if ltb 0 w.waiting
    then log_to
        (record w {
          to_send_data_chan = others;
          taken = w.taken ++ (cur_data, false) ∷ [];
          waiting = w.waiting - 1;
          write_failing = suc w.write_failing;
        })
        (log_channel_stdt severity_error none_fmtp_type direction_incoming
          (transport_error "Ошибка отправки данных в FMTP канала. Ошибка: <%s>." err))
    else w

-- `Work` reads from `errorChan`, the loop ends, and `stopClient` begins.
unfoldable pub take_read_error : Wire → Wire
take_read_error w =
    if not w.stopping && ltb 0 w.read_failing
    then record w { read_failing = w.read_failing - 1; stopping = true }
    else w

unfoldable pub take_write_error : Wire → Wire
take_write_error w =
    if not w.stopping && ltb 0 w.write_failing
    then record w { write_failing = w.write_failing - 1; stopping = true }
    else w

module _ (close_client : Option Bytes → Wire → Wire) where
  -- A loop reads from `cancelWorkChan` and ends; `stopClient` goes on with what `close_client` does.
  unfoldable pub cancel_receiver : Option Bytes → Wire → Wire
  cancel_receiver err w =
      if w.stopping && ltb 0 w.polling
      then close_client err (record w { polling = w.polling - 1; stopping = false })
      else w

  unfoldable pub cancel_sender : Option Bytes → Wire → Wire
  cancel_sender err w =
      if w.stopping && ltb 0 w.waiting
      then close_client err (record w { waiting = w.waiting - 1; stopping = false })
      else w

  unfoldable pub wire_step : WireEvent → Wire → Wire
  unfolding begin_read end_read fail_read write_first fail_first take_read_error take_write_error
      cancel_receiver cancel_sender
  wire_step (packet_queued cur_data) w = record w {
    to_send_data_chan = w.to_send_data_chan ++ cur_data ∷ [];
  }
  wire_step read_begun w = begin_read w
  wire_step (bytes_read buffer) w = end_read buffer w
  wire_step (read_failed err) w = fail_read err w
  wire_step packet_written w = write_first w w.to_send_data_chan
  wire_step (write_failed err) w = fail_first err w w.to_send_data_chan
  wire_step read_error_taken w = take_read_error w
  wire_step write_error_taken w = take_write_error w
  wire_step (receiver_cancelled err) w = cancel_receiver err w
  wire_step (sender_cancelled err) w = cancel_sender err w
