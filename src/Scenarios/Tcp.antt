-- ===== src/Scenarios/Tcp.antt =====
-- The provider over TCP at concrete events.
use fmtp.Prelude.{refl, inr, true, none, List, [], ◌∷◌, ◌++◌, map, Bytes, codes, pos, String}
use fmtp.Channel.Settings.{encode1251}
use fmtp.Chief.Settings.{ProviderSettings, oldi_provider}
use fmtp.Chief.Tcp.{
  OldiTcpController, TcpEvent, setts_given, packet_given, accepted, data_read, data_written,
  send_cancelled, new_oldi_tcp_controller, new_clnt, tcp_run,
}
use fmtp.Chief.Tcp.Sent.{OwesAt, packets_in, tcp_run-OwesAt}
use fmtp.Chief.Tcp.Empty.{AllMute, tcp_run-AllMute}

abbrev provider : String → ProviderSettings
provider encoding = record {
  id = pos 1;
  ip_addresses = "10.0.0.7" ∷ [];
  status = "primary";
  data_type = oldi_provider;
  provider_encoding = encoding;
  local_port = pos 13200;
}

abbrev controller : String → OldiTcpController
controller encoding = record new_oldi_tcp_controller {
  provider_encoding = encoding;
  provider_clients = new_clnt (codes "10.0.0.7:5000") ∷ [];
  tcp_local_port = pos 13200;
  tcp_listener_work = true;
}

abbrev events : String → List TcpEvent
events encoding =
    setts_given (provider encoding ∷ [])
    ∷ packet_given (codes "(ABI)")
    ∷ packet_given (codes "(ACT)")
    ∷ data_written 0 true
    ∷ accepted (codes "10.0.0.8:5000")
    ∷ data_read 1 none
    ∷ send_cancelled 1
    ∷ []

-- A recoding that marks what it recodes.
abbrev marked : Bytes → Bytes
marked packet = 0 ∷ packet

tcp_run-OwesAt_example :
    OwesAt marked marked
      ([] ++ map marked (packets_in (events encode1251)))
      0
      (tcp_run marked marked (events encode1251) (controller encode1251))
unfolding new_oldi_tcp_controller
tcp_run-OwesAt_example =
    tcp_run-OwesAt marked marked (events encode1251) [] 0 (controller encode1251)
      ((refl, tt), (tt, (tt, (tt, (tt, (tt, (tt, tt))))))) (inr refl, refl)

tcp_run-AllMute_example :
    AllMute marked marked (tcp_run marked marked (events "UTF-8") (controller "UTF-8"))
unfolding new_oldi_tcp_controller
tcp_run-AllMute_example =
    tcp_run-AllMute marked marked (events "UTF-8") (controller "UTF-8")
      ((refl, tt), (tt, (tt, (tt, (tt, (tt, (tt, tt))))))) ((tt, tt), refl)
