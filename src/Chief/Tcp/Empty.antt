-- ===== src/Chief/Tcp/Empty.antt =====
-- What a provider without the encoding Windows-1251 is written.
use fmtp.Prelude.{
  ℕ, String, ◌≡◌, Bool, true, false, if_holds, if_false, Option, none, some, List, [], ◌∷◌, All,
  All-append, Bytes, ◌==◌, string_eq, if◌then◌else◌,
}
use fmtp.Channel.Settings.{encode1251}
use fmtp.Chief.Settings.{ProviderSettings}
use fmtp.Chief.Tcp.{
  OldiClnt, OldiTcpController, TcpEvent, setts_given, packet_given, server_listens, accepted,
  data_read, data_written, receive_cancelled, send_cancelled, get_clnt, close_clnt, give_packet,
  write_oldest, send_step, receive_from, tcp_step, tcp_run,
}
use fmtp.Chief.Tcp.Clients.{All-at_clnt, All-map_clnt, last_encoding-keeps, change_providers-keeps}

abbrev pub IsPlain : String → Type 0
IsPlain encoding = (encoding == encode1251) ≡ false

-- Settings none of whose providers has the encoding.
abbrev pub IsPlainEvent : TcpEvent → Type 0
IsPlainEvent (setts_given setts) =
    All (λ (val : ProviderSettings). IsPlain val.provider_encoding) setts
IsPlainEvent _ = Unit

-- All that has been written to a client is empty.
abbrev pub IsMute : OldiClnt → Type 0
IsMute clnt = All (λ (sent : Bytes). sent ≡ []) clnt.written

module _ (win1251_to_utf8 utf8_to_win1251 : Bytes → Bytes) where
  write_oldest-IsMute :
      (encoding : String) (done : Bool) (packets : List Bytes) (clnt : OldiClnt)
      → IsPlain encoding
      → IsMute clnt
      → IsMute (write_oldest win1251_to_utf8 utf8_to_win1251 encoding done packets clnt)
  write_oldest-IsMute encoding done [] clnt plain h = h
  write_oldest-IsMute encoding false (packet ∷ packets) clnt plain h = h
  write_oldest-IsMute encoding true (packet ∷ packets) clnt plain h =
      All-append (λ (sent : Bytes). sent ≡ []) clnt.written (_ ∷ []) h (if_false _ _ _ plain, tt)

  send_step-IsMute :
      (encoding : String) (done : Bool) (clnt : OldiClnt)
      → IsPlain encoding
      → IsMute clnt
      → IsMute (send_step win1251_to_utf8 utf8_to_win1251 encoding done clnt)
  unfolding send_step
  send_step-IsMute encoding done clnt plain h =
      if_holds IsMute clnt.sends _ clnt
        (λ sends. write_oldest-IsMute encoding done clnt.to_send_data_chan clnt plain h) (λ quit. h)

  give_packet-IsMute :
      (packet : Bytes) (clnt : OldiClnt) → IsMute clnt → IsMute (give_packet packet clnt)
  give_packet-IsMute packet clnt h = if_holds IsMute clnt.listed _ clnt (λ listed. h) (λ closed. h)

  quit-IsMute :
      (clnt next : OldiClnt)
      → IsMute next
      → IsMute clnt
      → IsMute (if clnt.listed then clnt else next)
  quit-IsMute clnt next g h = if_holds IsMute clnt.listed clnt next (λ listed. h) (λ closed. g)

  abbrev pub AllMute : OldiTcpController → Type 0
  AllMute c = All IsMute c.provider_clients × IsPlain c.provider_encoding

  receive_from-AllMute :
      (k : ℕ) (read : Option Bytes) (clnt : Option OldiClnt) (c : OldiTcpController)
      → AllMute c
      → AllMute (receive_from win1251_to_utf8 utf8_to_win1251 k read clnt c)
  receive_from-AllMute k read none c h = h
  receive_from-AllMute k none (some clnt) c (h, plain) =
      if_holds AllMute clnt.receives _ c
        (λ receives. (All-at_clnt IsMute close_clnt (λ clnt g. g) k c.provider_clients h, plain))
        (λ quit. (h, plain))
  receive_from-AllMute k (some buffer) (some clnt) c h =
      if_holds AllMute clnt.receives _ c (λ receives. h) (λ quit. h)

  tcp_step-AllMute :
      (event : TcpEvent) (c : OldiTcpController)
      → IsPlainEvent event
      → AllMute c
      → AllMute (tcp_step win1251_to_utf8 utf8_to_win1251 event c)
  unfolding tcp_step
  tcp_step-AllMute (setts_given setts) c all (h, plain) =
      let (kept, same) =
        change_providers-keeps (All IsMute) (All-map_clnt IsMute close_clnt (λ clnt g. g)) setts c
          h in
      (kept, rw same (last_encoding-keeps IsPlain setts c.provider_encoding all plain))
  tcp_step-AllMute (packet_given packet) c all (h, plain) = (
    All-map_clnt IsMute (give_packet packet) (give_packet-IsMute packet) c.provider_clients h,
    plain,
  )
  tcp_step-AllMute (server_listens works) c all h = h
  tcp_step-AllMute (accepted remote_addr) c all (h, plain) =
      (All-append IsMute c.provider_clients (_ ∷ []) h (tt, tt), plain)
  tcp_step-AllMute (data_read k read) c all h =
      receive_from-AllMute k read (get_clnt k c.provider_clients) c h
  tcp_step-AllMute (data_written k done) c all (h, plain) = (
    All-at_clnt IsMute _ (λ clnt. send_step-IsMute c.provider_encoding done clnt plain) k
        c.provider_clients h,
    plain,
  )
  tcp_step-AllMute (receive_cancelled k) c all (h, plain) =
      (All-at_clnt IsMute _ (λ clnt g. quit-IsMute clnt _ g g) k c.provider_clients h, plain)
  tcp_step-AllMute (send_cancelled k) c all (h, plain) =
      (All-at_clnt IsMute _ (λ clnt g. quit-IsMute clnt _ g g) k c.provider_clients h, plain)

  -- Where the encoding is another one than Windows-1251, and is so in all settings that come: whatever
  -- happens, all that is written to a provider is empty.
  pub tcp_run-AllMute :
      (events : List TcpEvent) (c : OldiTcpController)
      → All IsPlainEvent events
      → AllMute c
      → AllMute (tcp_run win1251_to_utf8 utf8_to_win1251 events c)
  unfolding tcp_run
  tcp_run-AllMute [] c all h = h
  tcp_run-AllMute (event ∷ events) c (plain, all) h =
      tcp_run-AllMute events _ all (tcp_step-AllMute event c plain h)
