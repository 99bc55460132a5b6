-- ===== src/Channel/ChiefClient.antt =====
-- chief_channel/chief_channel_client.go: the client by which a channel speaks with the chief. The
-- web socket is a library, which reports when it is connected or not.
pub mod AsksOnce
pub mod GivesUp
use fmtp.Prelude.{
  ℕ, suc, ◌+◌, ◌*◌, ◌^◌, String, Bool, true, false, not, ◌&&◌, Option, none, some, List, [], ◌∷◌,
  ◌++◌, Bytes, bytes_eq, int_eq, ◌==◌, ltb, if◌then◌else◌, ℤ, pos,
}
use fmtp.Channel.Log.{
  LogEntry, LogText, id_text, id_state_text, transport_error, log_channel_st, severity_debug,
  severity_error,
}
use fmtp.Chief.Protocol.{ChannelMsg, ChiefMsg, settings_request}

pub record ClientSettings : Type 0 where
  pub chief_address : Bytes
  pub chief_port : ℤ
  pub channel_id : ℤ

abbrev same_client_settings : ClientSettings → ClientSettings → Bool
same_client_settings a b =
    a.chief_address == b.chief_address
    && a.chief_port == b.chief_port
    && a.channel_id == b.channel_id

pub data WsState : Type 0 where
  client_connected client_disconnected : WsState

pub record Client : Type 0 where
  pub log_chan : List LogEntry
  pub receive_chan : List ChiefMsg
  pub send_chan : List ChannelMsg
  pub setts : ClientSettings
  -- The goroutines of the web socket that have been started.
  pub ws_works : ℕ
  -- What has been given to the web socket.
  pub ws_send_data : List ChannelMsg
  pub send_settings_request : Bool
  -- `none` is the zero time.
  pub disconn_time : Option ℕ
  -- How often `CloseChan` has been written to.
  pub closes : ℕ

unfoldable pub new_chief_channel_client : Client
new_chief_channel_client = record {
  log_chan = [];
  receive_chan = [];
  send_chan = [];
  setts = record { chief_address = []; chief_port = pos 0; channel_id = pos 0 };
  ws_works = 0;
  ws_send_data = [];
  send_settings_request = false;
  disconn_time = none;
  closes = 0;
}

-- A minute in nanoseconds.
abbrev pub minute : ℕ
minute = 60 * 10 ^ 9

abbrev pub log_debug : LogText → Client → Client
unfolding log_channel_st
log_debug text c = record c { log_chan = c.log_chan ++ log_channel_st severity_debug text ∷ [] }

-- The settings are asked for once.
unfoldable pub request_settings : Client → Client
unfolding log_debug
request_settings c =
    if not c.send_settings_request
    then record (log_debug (id_text "Запрос настроек от FMTP канала id = %d." c.setts.channel_id)
        (log_debug (id_text "Запущен FMTP канал id = %d." c.setts.channel_id) c)) {
          send_chan = c.send_chan ++ settings_request c.setts.channel_id ∷ [];
          send_settings_request = true;
        }
    else c

unfoldable pub note_disconnected : ℕ → Option ℕ → Client → Client
note_disconnected now none c = record c { disconn_time = some now }
note_disconnected now (some time) c =
    if ltb (time + minute) now then record c { closes = suc c.closes } else c

abbrev pub state_text : WsState → String
state_text client_connected = "Подключен"
state_text client_disconnected = "Не подключен"

unfoldable pub note_state : WsState → ℕ → Client → Client
unfolding request_settings note_disconnected
note_state client_connected now c = request_settings (record c { disconn_time = none })
note_state client_disconnected now c = note_disconnected now c.disconn_time c

-- The case of `StateChan`, at an instant.
unfoldable pub change_state : WsState → ℕ → Client → Client
unfolding log_debug note_state
change_state ws_state now c =
    log_debug
      (id_state_text
        "Изменено состояние подключения FMTP канала в контроллеру. Id канала = %d. Состояние: %s"
        c.setts.channel_id (state_text ws_state))
      (note_state ws_state now c)

pub data ChiefClientEvent : Type 0 where
  client_settings_given : ClientSettings → ChiefClientEvent
  -- The program writes to `SendChan`.
  message_queued : ChannelMsg → ChiefClientEvent
  message_taken : ChiefClientEvent
  message_received : ChiefMsg → ChiefClientEvent
  state_changed : WsState → ℕ → ChiefClientEvent
  ws_failed : Bytes → ChiefClientEvent

unfoldable pub take_message : Client → List ChannelMsg → Client
take_message c [] = c
take_message c (msg ∷ others) = record c {
  send_chan = others;
  ws_send_data = c.ws_send_data ++ msg ∷ [];
}

unfoldable pub chief_client_step : ChiefClientEvent → Client → Client
unfolding change_state take_message log_channel_st
chief_client_step (client_settings_given new_setts) c =
    if same_client_settings c.setts new_setts
    then c
    else record c { setts = new_setts; ws_works = suc c.ws_works }
chief_client_step (message_queued msg) c = record c { send_chan = c.send_chan ++ msg ∷ [] }
chief_client_step message_taken c = take_message c c.send_chan
chief_client_step (message_received msg) c = record c { receive_chan = c.receive_chan ++ msg ∷ [] }
chief_client_step (state_changed ws_state now) c = change_state ws_state now c
chief_client_step (ws_failed err) c = record c {
  log_chan =
      c.log_chan
      ++ log_channel_st severity_error (
          transport_error "Ошибка сетевого взаимодействия FMTP канала и контроллера. Ошибка: %s."
            err)
        ∷ [];
}

-- The events in the order of time, the last one first.
unfoldable pub chief_client_run : List ChiefClientEvent → Client
unfolding chief_client_step new_chief_channel_client
chief_client_run [] = new_chief_channel_client
chief_client_run (event ∷ before) = chief_client_step event (chief_client_run before)
