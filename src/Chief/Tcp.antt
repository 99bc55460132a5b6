-- ===== src/Chief/Tcp.antt =====
-- chief/oldi/oldi_tcp_controller.go: the provider over TCP. Each event is one step of one of its
-- goroutines: that of `Work`, that of the server, and two loops for each connection.
mod Clients
pub mod Sent
pub mod Empty
use fmtp.Prelude.{
  ℕ, zero, suc, String, Bool, true, false, not, ◌&&◌, Option, none, some, List, [], ◌∷◌, ◌++◌, map,
  ◌==◌, string_eq, nat_eq, int_eq, bytes_eq, if◌then◌else◌, Bytes, codes, ℤ, pos,
}
use fmtp.Channel.Settings.{encode1251}
use fmtp.Chief.Settings.{ProviderSettings}
use fmtp.Chief.State.{ChiefState, ProviderState, state_ok, state_error, set_oldi_provider_state}

-- A connection that has been accepted: `oldiClnt` with what its two loops keep.
pub record OldiClnt : Type 0 where
  -- The text of its remote address.
  pub remote_addr : Bytes
  -- It is in `providerClients`; otherwise its `cancelWorkChan` is closed.
  pub listed : Bool
  pub to_send_data_chan : List Bytes
  -- What has been written to the connection.
  pub written : List Bytes
  pub receives : Bool
  pub sends : Bool

pub record OldiTcpController : Type 0 where
  pub setts : List ProviderSettings
  pub provider_encoding : String
  pub from_oldi_data_chan : List Bytes
  -- The connections by the order of their acceptance.
  pub provider_clients : List OldiClnt
  pub tcp_listener_work : Bool
  pub tcp_local_port : ℤ
  -- The ports that a server has been started for, and the number of servers stopped.
  pub started : List ℤ
  pub stopped : ℕ

unfoldable pub new_oldi_tcp_controller : OldiTcpController
new_oldi_tcp_controller = record {
  setts = [];
  provider_encoding = "";
  from_oldi_data_chan = [];
  provider_clients = [];
  tcp_listener_work = false;
  tcp_local_port = pos 0;
  started = [];
  stopped = 0;
}

abbrev pub new_clnt : Bytes → OldiClnt
new_clnt remote_addr = record {
  remote_addr = remote_addr;
  listed = true;
  to_send_data_chan = [];
  written = [];
  receives = true;
  sends = true;
}

abbrev pub close_clnt : OldiClnt → OldiClnt
close_clnt clnt = record clnt { listed = false }

-- The connection with a number is changed; there is none with a number too high.
abbrev pub at_clnt : ℕ → (OldiClnt → OldiClnt) → List OldiClnt → List OldiClnt
at_clnt n change [] = []
at_clnt zero change (clnt ∷ clnts) = change clnt ∷ clnts
at_clnt (suc n) change (clnt ∷ clnts) = clnt ∷ at_clnt n change clnts

abbrev pub get_clnt : ℕ → List OldiClnt → Option OldiClnt
get_clnt n [] = none
get_clnt zero (clnt ∷ clnts) = some clnt
get_clnt (suc n) (clnt ∷ clnts) = get_clnt n clnts

-- The port and the encoding are those of the last provider.
abbrev pub last_port : List ProviderSettings → ℤ → ℤ
last_port [] port = port
last_port (val ∷ vals) port = last_port vals val.local_port

abbrev pub last_encoding : List ProviderSettings → String → String
last_encoding [] encoding = encoding
last_encoding (val ∷ vals) encoding = last_encoding vals val.provider_encoding

unfoldable pub stop_server : OldiTcpController → OldiTcpController
stop_server c = record c {
  provider_clients = map close_clnt c.provider_clients;
  stopped = suc c.stopped;
}

-- A server that listens is stopped first.
abbrev pub stop_working : Bool → OldiTcpController → OldiTcpController
unfolding stop_server
stop_working true c = stop_server c
stop_working false c = c

-- The flag says that the port is the same.
abbrev pub move_to : Bool → ℤ → OldiTcpController → OldiTcpController
unfolding stop_working
move_to true local_port c = c
move_to false local_port c =
    let ready = stop_working c.tcp_listener_work c in
    record ready { tcp_local_port = local_port; started = ready.started ++ local_port ∷ [] }

unfoldable pub change_providers : List ProviderSettings → OldiTcpController → OldiTcpController
unfolding move_to
change_providers setts c =
    let local_port = last_port setts (pos 0) in
    move_to (c.tcp_local_port == local_port) local_port
      (record c { setts = setts; provider_encoding = last_encoding setts c.provider_encoding })

-- A packet for the provider goes to every client that is listed.
abbrev pub give_packet : Bytes → OldiClnt → OldiClnt
give_packet packet clnt =
    if clnt.listed
    then record clnt { to_send_data_chan = clnt.to_send_data_chan ++ packet ∷ [] }
    else clnt

abbrev has_prefix : Bytes → Bytes → Bool
has_prefix [] text = true
has_prefix (x ∷ xs) [] = false
has_prefix (x ∷ xs) (y ∷ ys) = x == y && has_prefix xs ys

abbrev connected_from : Bytes → List OldiClnt → Bool
connected_from ip [] = false
connected_from ip (clnt ∷ clnts) =
    if clnt.listed && has_prefix ip clnt.remote_addr then true else connected_from ip clnts

abbrev any_connected : List String → List OldiClnt → Bool
any_connected [] clnts = false
any_connected (ip ∷ ips) clnts =
    if connected_from (codes ip) clnts then true else any_connected ips clnts

abbrev state_of : List OldiClnt → ProviderSettings → ProviderState
state_of clnts val = record {
  provider_id = val.id;
  provider_type = val.data_type;
  provider_ips = val.ip_addresses;
  provider_state = if any_connected val.ip_addresses clnts then state_ok else state_error;
}

-- The ticker that checks the state.
unfoldable pub check_providers : OldiTcpController → ChiefState → ChiefState
check_providers c state = set_oldi_provider_state state (map (state_of c.provider_clients) c.setts)

pub data TcpEvent : Type 0 where
  -- The cases of `Work`.
  setts_given : List ProviderSettings → TcpEvent
  packet_given : Bytes → TcpEvent
  -- The server: whether it listens, and the address of a new connection.
  server_listens : Bool → TcpEvent
  accepted : Bytes → TcpEvent
  -- A loop of the connection with a number: what it has read, `none` where it fails; whether its
  -- write succeeds; or it sees that it is cancelled.
  data_read : ℕ → Option Bytes → TcpEvent
  data_written : ℕ → Bool → TcpEvent
  receive_cancelled send_cancelled : ℕ → TcpEvent

-- The recoding is a library's.
module _ (win1251_to_utf8 utf8_to_win1251 : Bytes → Bytes) where
  -- What is written for a packet: without the encoding, `dataToSend` stays empty.
  abbrev pub recoded_packet : String → Bytes → Bytes
  recoded_packet encoding packet = if encoding == encode1251 then utf8_to_win1251 packet else []

  abbrev pub received : String → Bytes → Bytes
  received encoding buffer = if encoding == encode1251 then win1251_to_utf8 buffer else buffer

  abbrev pub write_oldest : String → Bool → List Bytes → OldiClnt → OldiClnt
  write_oldest encoding done [] clnt = clnt
  write_oldest encoding true (packet ∷ packets) clnt = record clnt {
    to_send_data_chan = packets;
    written = clnt.written ++ recoded_packet encoding packet ∷ [];
  }
  write_oldest encoding false (packet ∷ packets) clnt =
      close_clnt (record clnt { to_send_data_chan = packets })

  unfoldable pub send_step : String → Bool → OldiClnt → OldiClnt
  send_step encoding done clnt =
      if clnt.sends then write_oldest encoding done clnt.to_send_data_chan clnt else clnt

  abbrev pub receive_from :
      ℕ → Option Bytes → Option OldiClnt → OldiTcpController → OldiTcpController
  receive_from n read none c = c
  receive_from n none (some clnt) c =
      if clnt.receives
      then record c { provider_clients = at_clnt n close_clnt c.provider_clients }
      else c
  receive_from n (some buffer) (some clnt) c =
      if clnt.receives
      then record c {
        from_oldi_data_chan = c.from_oldi_data_chan ++ received c.provider_encoding buffer ∷ [];
      }
      else c

  unfoldable pub tcp_step : TcpEvent → OldiTcpController → OldiTcpController
  unfolding change_providers send_step
  tcp_step (setts_given setts) c = change_providers setts c
  tcp_step (packet_given packet) c = record c {
    provider_clients = map (give_packet packet) c.provider_clients;
  }
  tcp_step (server_listens works) c = record c { tcp_listener_work = works }
  tcp_step (accepted remote_addr) c = record c {
    provider_clients = c.provider_clients ++ new_clnt remote_addr ∷ [];
  }
  tcp_step (data_read n read) c = receive_from n read (get_clnt n c.provider_clients) c
  tcp_step (data_written n done) c = record c {
    provider_clients = at_clnt n (send_step c.provider_encoding done) c.provider_clients;
  }
  tcp_step (receive_cancelled n) c = record c {
    provider_clients =
        at_clnt n (λ clnt. if clnt.listed then clnt else record clnt { receives = false })
          c.provider_clients;
  }
  tcp_step (send_cancelled n) c = record c {
    provider_clients =
        at_clnt n (λ clnt. if clnt.listed then clnt else record clnt { sends = false })
          c.provider_clients;
  }

  -- From the first event to the last.
  unfoldable pub tcp_run : List TcpEvent → OldiTcpController → OldiTcpController
  unfolding tcp_step
  tcp_run [] c = c
  tcp_run (event ∷ events) c = tcp_run events (tcp_step event c)
