-- ===== src/Chief/Tcp/Sent.antt =====
-- What a connected provider is written.
use fmtp.Prelude.{
  ℕ, String, ◌≡◌, refl, sym, ap, ◌∙◌, ◌⊎◌, inl, inr, Bool, true, false, if_holds, if_true, Option,
  none, some, List, [], ◌∷◌, ◌++◌, map, All, Bytes, string_eq, if◌then◌else◌,
}
use mathlib.Core.List.{append-nil, append_assoc, map-append}
use fmtp.Channel.Settings.{encode1251}
use fmtp.Chief.Settings.{ProviderSettings}
use fmtp.Chief.Tcp.{
  OldiClnt, OldiTcpController, TcpEvent, setts_given, packet_given, server_listens, accepted,
  data_read, data_written, receive_cancelled, send_cancelled, get_clnt, close_clnt, give_packet,
  write_oldest, send_step, receive_from, recoded_packet, tcp_step, tcp_run,
}
use fmtp.Chief.Tcp.Clients.{
  Has, Has-map, Has-at_clnt, Has-append, last_encoding-keeps, change_providers-keeps,
}

-- Settings whose providers all have the encoding.
abbrev pub IsRecoded : TcpEvent → Type 0
IsRecoded (setts_given setts) =
    All (λ (val : ProviderSettings). val.provider_encoding ≡ encode1251) setts
IsRecoded _ = Unit

abbrev pub packets_of : TcpEvent → List Bytes
packets_of (packet_given packet) = packet ∷ []
packets_of _ = []

abbrev pub packets_in : List TcpEvent → List Bytes
packets_in [] = []
packets_in (event ∷ events) = packets_of event ++ packets_in events

module _ (win1251_to_utf8 utf8_to_win1251 : Bytes → Bytes) where
  -- What has been written, and what waits to be, recoded.
  abbrev pub owed : OldiClnt → List Bytes
  owed clnt = clnt.written ++ map utf8_to_win1251 clnt.to_send_data_chan

  -- The client is closed, or this is what it is owed.
  abbrev pub Owes : List Bytes → OldiClnt → Type 0
  Owes list clnt = (clnt.listed ≡ false) ⊎ (owed clnt ≡ list)

  close_clnt-Owes :
      (list : List Bytes) (clnt : OldiClnt) → Owes list clnt → Owes list (close_clnt clnt)
  close_clnt-Owes list clnt h = inl refl

  give_packet-Owes :
      (list : List Bytes) (packet : Bytes) (clnt : OldiClnt)
      → Owes list clnt
      → Owes (list ++ utf8_to_win1251 packet ∷ []) (give_packet packet clnt)
  give_packet-Owes list packet clnt h =
      if_holds (Owes (list ++ utf8_to_win1251 packet ∷ [])) clnt.listed _ clnt (λ listed. given h)
        (λ closed. inl closed)
    where
      given :
          Owes list clnt
          → Owes
              (list ++ utf8_to_win1251 packet ∷ [])
              (record clnt { to_send_data_chan = clnt.to_send_data_chan ++ packet ∷ [] })
      given (inl closed) = inl closed
      given (inr owes) = inr (
          ap (λ more. clnt.written ++ more)
            (map-append utf8_to_win1251 clnt.to_send_data_chan (packet ∷ []))
          ∙ sym (append_assoc clnt.written _ _)
          ∙ ap (λ more. more ++ utf8_to_win1251 packet ∷ []) owes)

  recoded_packet-recoded :
      (encoding : String) (packet : Bytes)
      → encoding ≡ encode1251
      → recoded_packet win1251_to_utf8 utf8_to_win1251 encoding packet ≡ utf8_to_win1251 packet
  recoded_packet-recoded encoding packet recoded =
      if_true _ _ _ ((string_eq.beq_iff encoding encode1251).1 recoded)

  write_oldest-Owes :
      (list : List Bytes) (encoding : String) (done : Bool) (packets : List Bytes) (clnt : OldiClnt)
      → encoding ≡ encode1251
      → clnt.to_send_data_chan ≡ packets
      → Owes list clnt
      → Owes list (write_oldest win1251_to_utf8 utf8_to_win1251 encoding done packets clnt)
  write_oldest-Owes list encoding done [] clnt recoded e h = h
  write_oldest-Owes list encoding false (packet ∷ packets) clnt recoded e h = inl refl
  write_oldest-Owes list encoding true (packet ∷ packets) clnt recoded e (inl closed) = inl closed
  write_oldest-Owes list encoding true (packet ∷ packets) clnt recoded e (inr owes) = inr (
      append_assoc clnt.written _ _
      ∙ ap (λ sent. clnt.written ++ sent ∷ map utf8_to_win1251 packets)
          (recoded_packet-recoded encoding packet recoded)
      ∙ ap (λ waiting. clnt.written ++ map utf8_to_win1251 waiting) (sym e)
      ∙ owes)

  send_step-Owes :
      (list : List Bytes) (encoding : String) (done : Bool) (clnt : OldiClnt)
      → encoding ≡ encode1251
      → Owes list clnt
      → Owes list (send_step win1251_to_utf8 utf8_to_win1251 encoding done clnt)
  unfolding send_step
  send_step-Owes list encoding done clnt recoded h =
      if_holds (Owes list) clnt.sends _ clnt
        (λ sends. write_oldest-Owes list encoding done clnt.to_send_data_chan clnt recoded refl h)
        (λ quit. h)

  -- A loop that sees that its connection is closed.
  quit-Owes :
      (list : List Bytes) (clnt next : OldiClnt)
      → (clnt.listed ≡ false → next.listed ≡ false)
      → Owes list clnt
      → Owes list (if clnt.listed then clnt else next)
  quit-Owes list clnt next closed h =
      if_holds (Owes list) clnt.listed clnt next (λ listed. h)
        (λ not_listed. inl (closed not_listed))

  -- The connection with a number owes a list, and the encoding is the one that recodes.
  abbrev pub OwesAt : List Bytes → ℕ → OldiTcpController → Type 0
  OwesAt list n c =
      Has (Owes list) (get_clnt n c.provider_clients) × (c.provider_encoding ≡ encode1251)

  receive_from-OwesAt :
      (list : List Bytes) (n k : ℕ) (read : Option Bytes) (clnt : Option OldiClnt)
      (c : OldiTcpController)
      → OwesAt list n c
      → OwesAt list n (receive_from win1251_to_utf8 utf8_to_win1251 k read clnt c)
  receive_from-OwesAt list n k read none c h = h
  receive_from-OwesAt list n k none (some clnt) c (h, recoded) =
      if_holds (OwesAt list n) clnt.receives _ c
        (λ receives. (
          Has-at_clnt (Owes list) close_clnt (close_clnt-Owes list) k n c.provider_clients h,
          recoded,
        ))
        (λ quit. (h, recoded))
  receive_from-OwesAt list n k (some buffer) (some clnt) c h =
      if_holds (OwesAt list n) clnt.receives _ c (λ receives. h) (λ quit. h)

  tcp_step-OwesAt :
      (event : TcpEvent) (list : List Bytes) (n : ℕ) (c : OldiTcpController)
      → IsRecoded event
      → OwesAt list n c
      → OwesAt
          (list ++ map utf8_to_win1251 (packets_of event))
          n
          (tcp_step win1251_to_utf8 utf8_to_win1251 event c)
  unfolding tcp_step
  tcp_step-OwesAt (setts_given setts) list n c all (h, recoded) =
      let (kept, same) =
        change_providers-keeps (λ clnts. Has (Owes list) (get_clnt n clnts))
          (Has-map (Owes list) (Owes list) close_clnt (close_clnt-Owes list) n) setts c h in
      rw (append-nil list) (
        kept,
        same
            ∙ last_encoding-keeps (λ encoding. encoding ≡ encode1251) setts c.provider_encoding all
                recoded,
      )
  tcp_step-OwesAt (packet_given packet) list n c all (h, recoded) = (
    Has-map (Owes list) (Owes (list ++ utf8_to_win1251 packet ∷ [])) (give_packet packet)
        (give_packet-Owes list packet) n c.provider_clients h,
    recoded,
  )
  tcp_step-OwesAt (server_listens works) list n c all h = rw (append-nil list) h
  tcp_step-OwesAt (accepted remote_addr) list n c all (h, recoded) =
      rw (append-nil list) (Has-append (Owes list) n c.provider_clients _ h, recoded)
  tcp_step-OwesAt (data_read k read) list n c all h =
      rw (append-nil list) (receive_from-OwesAt list n k read (get_clnt k c.provider_clients) c h)
  tcp_step-OwesAt (data_written k done) list n c all (h, recoded) = rw (append-nil list) (
    Has-at_clnt (Owes list) _ (λ clnt. send_step-Owes list c.provider_encoding done clnt recoded) k
        n c.provider_clients h,
    recoded,
  )
  tcp_step-OwesAt (receive_cancelled k) list n c all (h, recoded) = rw (append-nil list) (
    Has-at_clnt (Owes list) _ (λ clnt. quit-Owes list clnt _ (λ e. e)) k n c.provider_clients h,
    recoded,
  )
  tcp_step-OwesAt (send_cancelled k) list n c all (h, recoded) = rw (append-nil list) (
    Has-at_clnt (Owes list) _ (λ clnt. quit-Owes list clnt _ (λ e. e)) k n c.provider_clients h,
    recoded,
  )

  -- Where the encoding is Windows-1251, and is in all settings that come: whatever happens, a client
  -- that is connected and has not been closed has been written, or waits to be written, what it was
  -- owed and the packets that have come since, recoded, each once and in order.
  pub tcp_run-OwesAt :
      (events : List TcpEvent) (list : List Bytes) (n : ℕ) (c : OldiTcpController)
      → All IsRecoded events
      → OwesAt list n c
      → OwesAt
          (list ++ map utf8_to_win1251 (packets_in events))
          n
          (tcp_run win1251_to_utf8 utf8_to_win1251 events c)
  unfolding tcp_run
  tcp_run-OwesAt [] list n c all h = rw (append-nil list) h
  tcp_run-OwesAt (event ∷ events) list n c (recoded, all) h =
      rw (map-append utf8_to_win1251 (packets_of event) (packets_in events), ← append_assoc)
        (tcp_run-OwesAt events (list ++ map utf8_to_win1251 (packets_of event)) n _ all
          (tcp_step-OwesAt event list n c recoded h))
