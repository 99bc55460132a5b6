-- ===== src/Channel/Transport/Client.antt =====
-- channel/tcp_transport/tcp_transport_client.go: the client, which dials.
pub mod Stuck
pub mod Ledger
use fmtp.Prelude.{
  ℕ, suc, String, Bool, true, false, not, ◌&&◌, Option, none, some, List, [], ◌∷◌, Bytes, bytes_eq,
  ◌==◌, if◌then◌else◌,
}
use fmtp.Channel.Core.{DataAndEvent}
use fmtp.Channel.Log.{
  transport_text, transport_error, log_channel_st, severity_error, severity_debug,
}
use fmtp.Channel.Transport.Settings.{TcpTransportSettings, no_settings, same_settings}
use fmtp.Channel.Transport.Wire.{Wire, new_wire, log_to, report_state, WireEvent, wire_step}

pub record TcpTransportClient : Type 0 where
  pub wire : Wire
  pub cur_sett : TcpTransportSettings
  pub last_connect_error : Bytes
  pub last_keepalive_error : Bytes

unfoldable pub new_fmtp_tcp_client : TcpTransportClient
new_fmtp_tcp_client = record {
  wire = new_wire;
  cur_sett = no_settings;
  last_connect_error = [];
  last_keepalive_error = [];
}

-- An error that was the last one too is not logged again.
abbrev pub log_if_new : Bytes → Bytes → String → Wire → Wire
unfolding log_channel_st
log_if_new err last text w =
    if not (err == last)
    then log_to w (log_channel_st severity_error (transport_error text err))
    else w

unfoldable pub keep_alive : Option Bytes → TcpTransportClient → TcpTransportClient
unfolding log_if_new
keep_alive none ftc = record ftc {
  wire = record (ftc.wire) { polling = suc ftc.wire.polling; waiting = suc ftc.wire.waiting };
}
keep_alive (some err) ftc = record ftc {
  last_keepalive_error = err;
  wire =
      report_state
        (log_if_new err ftc.last_keepalive_error
          "При установке флага keep_alive TCP соединения возникла ошибка. Ошибка:<%s>" ftc.wire)
        false;
}

-- `startClient`, with the errors of `Dial` and of `SetKeepAlive`, if any. After a failed `Dial` there
-- is no connection, and a loop that still lives panics when it next uses it; here it goes on, so there
-- are more runs here than of the code.
unfoldable pub start_client : Option Bytes → Option Bytes → TcpTransportClient → TcpTransportClient
unfolding log_if_new keep_alive log_channel_st
start_client (some err) alive ftc = record ftc {
  last_connect_error = err;
  wire =
      report_state
        (log_if_new err ftc.last_connect_error
          "При установке TCP соединения возникла ошибка. Ошибка:<%s>"
          (record (ftc.wire) { has_client = false }))
        false;
}
start_client none alive ftc = keep_alive alive (record ftc {
  wire =
      report_state
        (log_to (record (ftc.wire) { has_client = true })
          (log_channel_st severity_debug
            (transport_text "Установлено TCP соединение FMTP канала.")))
        true;
})

-- The end of `stopClient`.
unfoldable pub close_client : Option Bytes → Wire → Wire
unfolding log_channel_st
close_client (some err) w = log_to (report_state w false) (
    log_channel_st severity_error
      (transport_error "Ошибка при закрытии TCP соединение FMTP канала. Ошибка: <%s>." err))
close_client none w =
    log_to (report_state w false)
      (log_channel_st severity_error (transport_text "Закрыто TCP соединение FMTP канала."))

pub data ClientEvent : Type 0 where
  settings_given : TcpTransportSettings → Option Bytes → Option Bytes → ClientEvent
  reconnect_signalled : Option Bytes → Option Bytes → ClientEvent
  wire_went_on : WireEvent → ClientEvent

-- `Work` takes new settings and signals only while it is not in `stopClient`.
unfoldable pub client_step : ClientEvent → TcpTransportClient → TcpTransportClient
unfolding start_client wire_step close_client
client_step (settings_given new_settings dial alive) ftc =
    if not ftc.wire.stopping && not (same_settings ftc.cur_sett new_settings)
    then start_client dial alive (record ftc { cur_sett = new_settings })
    else ftc
client_step (reconnect_signalled dial alive) ftc =
    if not ftc.wire.stopping then start_client dial alive ftc else ftc
client_step (wire_went_on event) ftc = record ftc { wire = wire_step close_client event ftc.wire }

unfoldable pub client_run : List ClientEvent → TcpTransportClient → TcpTransportClient
unfolding client_step
client_run [] ftc = ftc
client_run (event ∷ events) ftc = client_run events (client_step event ftc)
