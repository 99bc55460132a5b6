-- ===== src/Channel/Transport/Server.antt =====
-- channel/tcp_transport/tcp_transport_server.go: the server, which listens and accepts one client.
pub mod Accept
use fmtp.Prelude.{
  ℕ, suc, String, Bool, true, false, not, ◌&&◌, ◌||◌, Option, none, some, List, [], ◌∷◌, ◌++◌,
  Bytes, bytes_eq, ◌==◌, ltb, if◌then◌else◌,
}
use fmtp.Protocol.Event.{r_setup}
use fmtp.Channel.Log.{
  transport_text, transport_error, log_channel_st, severity_error, severity_warning, severity_info,
}
use fmtp.Channel.Transport.Settings.{TcpTransportSettings, no_settings, same_settings}
use fmtp.Channel.Transport.Wire.{
  Wire, new_wire, log_to, report_state, WireEvent, read_begun, begin_read, wire_step,
}

pub record TcpTransportServer : Type 0 where
  pub wire : Wire
  pub cur_sett : TcpTransportSettings
  -- The goroutines of `startServer`.
  pub listeners : ℕ

unfoldable pub new_fmtp_tcp_server : TcpTransportServer
new_fmtp_tcp_server = record { wire = new_wire; cur_sett = no_settings; listeners = 0 }

-- The beginning of `startServer`, with the error of `Listen` if any.
unfoldable pub start_server : Option Bytes → TcpTransportServer → TcpTransportServer
unfolding log_channel_st
start_server (some err) fts = record fts {
  wire =
      report_state
        (log_to (fts.wire) (
          log_channel_st severity_error
            (transport_error "Ошибка запуска TCP сервера FMTP канала. Ошибка: <%s>." err)))
        false;
}
start_server none fts = record fts {
  wire =
      log_to (report_state (fts.wire) true)
        (log_channel_st severity_info (transport_text "Запущен TCP сервер FMTP канала."));
  listeners = suc fts.listeners;
}

unfoldable pub log_accept : String → String → Bytes → Wire → Wire
unfolding log_channel_st
log_accept severity text addr w = log_to w (log_channel_st severity (transport_error text addr))

-- The client becomes the one of the server, and its loops start.
abbrev pub take_client : Wire → Wire
take_client w = record w {
  has_client = true;
  conn_state_chan = w.conn_state_chan ++ true ∷ [];
  event_chan = w.event_chan ++ r_setup ∷ [];
  polling = suc w.polling;
  waiting = suc w.waiting;
}

-- The server has no client yet.
unfoldable pub accept_first : Bytes → TcpTransportServer → Wire
unfolding log_accept
accept_first addr fts =
    if not (fts.cur_sett.client_addr == []) && not (addr == fts.cur_sett.client_addr)
    then log_accept severity_warning
        "Отклонено входящее подключение к TCP серверу FMTP канала. Адрес клиента не соответствует. Адрес отклоненного клиента: <%s>"
        addr fts.wire
    else take_client (
        log_accept severity_info
          "Успешное подключение клиента к TCP серверу FMTP канала. Адрес подключенного клиента: <%s>"
          addr fts.wire)

-- A round of the loop of `startServer`: a client with an address has been accepted. `tcpClient` is
-- tested and set in one step, which is exact for one listener, and the program starts one.
unfoldable pub accept : Bytes → TcpTransportServer → TcpTransportServer
unfolding log_accept accept_first
accept addr fts = record fts {
  wire =
      if fts.wire.has_client
      then log_accept severity_warning
          "Отклонено входящее подключение к TCP серверу FMTP канала. Клиент уже подключен. Адрес отклоненного клиента: <%s>"
          addr fts.wire
      else accept_first addr fts;
}

unfoldable pub accept_failed : Bytes → TcpTransportServer → TcpTransportServer
unfolding log_accept
accept_failed err fts = record fts {
  wire =
      log_accept severity_error
        "Ошибка подключения клиента к TCP серверу FMTP канала. Ошибка: <%s>." err fts.wire;
}

-- The end of `stopClient`: a client that does not close stays the client of the server.
unfoldable pub close_server_client : Option Bytes → Wire → Wire
unfolding log_channel_st
close_server_client err w = if w.has_client then closed err else report_state w false
  where
    closed : Option Bytes → Wire
    closed none =
        log_to (record (report_state w false) { has_client = false })
          (log_channel_st severity_info
            (transport_text "Закрыто клиентское TCP соединение FMTP канала."))
    closed (some err) = log_to (report_state w false) (
        log_channel_st severity_error (
          transport_error
            "Ошибка при закрытии клиентского TCP подключения FMTP канала. Ошибка: <%s>." err))

-- The loops are those of the client, but for a receiving loop with no client, which does not read.
unfoldable pub server_wire_step : WireEvent → Wire → Wire
unfolding begin_read wire_step close_server_client
server_wire_step read_begun w = if w.has_client then begin_read w else w
server_wire_step event w = wire_step close_server_client event w

pub data ServerEvent : Type 0 where
  server_settings_given : TcpTransportSettings → Option Bytes → ServerEvent
  client_accepted : Bytes → ServerEvent
  accepting_failed : Bytes → ServerEvent
  server_wire_went_on : WireEvent → ServerEvent

-- A listener accepts; `Work` takes new settings only while it is not in `stopClient`.
unfoldable pub server_step : ServerEvent → TcpTransportServer → TcpTransportServer
unfolding start_server accept accept_failed server_wire_step
server_step (server_settings_given new_settings listen) fts =
    if not fts.wire.stopping && not (same_settings fts.cur_sett new_settings)
    then start_server listen (record fts { cur_sett = new_settings })
    else fts
server_step (client_accepted addr) fts = if ltb 0 fts.listeners then accept addr fts else fts
server_step (accepting_failed err) fts = if ltb 0 fts.listeners then accept_failed err fts else fts
server_step (server_wire_went_on event) fts = record fts { wire = server_wire_step event fts.wire }

unfoldable pub server_run : List ServerEvent → TcpTransportServer → TcpTransportServer
unfolding server_step
server_run [] fts = fts
server_run (event ∷ events) fts = server_run events (server_step event fts)
