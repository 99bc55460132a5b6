-- ===== src/Channel/Transport/Server/Accept.antt =====
-- The server never has the loops of two clients at once.
use fmtp.Prelude.{
  ℕ, ◌+◌, ◌*◌, ◌≤◌, ◌≡◌, sym, subst, Bool, true, false, not, ◌&&◌, Option, none, some, List, [],
  ◌∷◌, Bytes, bytes_eq, ◌==◌, ltb, if_true, if_false, Bool-cases, inl, inr, arith,
}
use fmtp.Channel.Core.{DataAndEvent}
use fmtp.Channel.Transport.Settings.{same_settings}
use fmtp.Channel.Transport.Wire.{
  Wire, WireEvent, packet_queued, read_begun, bytes_read, read_failed, packet_written, write_failed,
  read_error_taken, write_error_taken, receiver_cancelled, sender_cancelled, begin_read, end_read,
  log_read_error, fail_read, write_first, fail_first, take_read_error, take_write_error,
  cancel_receiver, cancel_sender, wire_step,
}
use fmtp.Channel.Transport.Server.{
  TcpTransportServer, new_fmtp_tcp_server, start_server, accept, accept_first, server_run,
  accept_failed, log_accept, close_server_client, server_wire_step, ServerEvent,
  server_settings_given, client_accepted, accepting_failed, server_wire_went_on, server_step,
}

abbrev pub bit : Bool → ℕ
bit true = 1
bit false = 0

-- The receiving loops, and the sending loops.
abbrev pub receivers : Wire → ℕ
receivers w = w.polling + w.reading + w.read_failing

abbrev pub senders : Wire → ℕ
senders w = w.waiting + w.write_failing

abbrev IsSingle : Wire → Type 0
IsSingle w =
    (receivers w ≤ 1)
    × (senders w ≤ 1)
    × (receivers w + senders w + bit w.stopping ≤ 2 * bit w.has_client)

begin_read-IsSingle : (w : Wire) → IsSingle w → IsSingle (begin_read w)
unfolding begin_read
begin_read-IsSingle w h = ground (arith, h)

end_read-IsSingle : (buffer : Bytes) (w : Wire) → IsSingle w → IsSingle (end_read buffer w)
unfolding end_read
end_read-IsSingle buffer w h = ground (arith, h)

fail_read-IsSingle : (err : Option Bytes) (w : Wire) → IsSingle w → IsSingle (fail_read err w)
unfolding fail_read log_read_error
fail_read-IsSingle none w h = ground (arith, h)
fail_read-IsSingle (some err) w h = ground (arith, h)

write_first-IsSingle :
    (w : Wire) (list : List DataAndEvent) → IsSingle w → IsSingle (write_first w list)
unfolding write_first
write_first-IsSingle w [] h = h
write_first-IsSingle w (cur_data ∷ others) h = ground (arith, h)

fail_first-IsSingle :
    (err : Bytes) (w : Wire) (list : List DataAndEvent)
    → IsSingle w
    → IsSingle (fail_first err w list)
unfolding fail_first
fail_first-IsSingle err w [] h = h
fail_first-IsSingle err w (cur_data ∷ others) h = ground (arith, h)

take_read_error-IsSingle : (w : Wire) → IsSingle w → IsSingle (take_read_error w)
unfolding take_read_error
take_read_error-IsSingle w h = ground (arith, h)

take_write_error-IsSingle : (w : Wire) → IsSingle w → IsSingle (take_write_error w)
unfolding take_write_error
take_write_error-IsSingle w h = ground (arith, h)

close_server_client-IsSingle :
    (err : Option Bytes) (w : Wire)
    → receivers w + senders w + bit w.stopping ≡ 0
    → IsSingle (close_server_client err w)
unfolding close_server_client
close_server_client-IsSingle none w h = elim (Bool-cases w.has_client) [
  | inl one ↦ rw one (omega (arith, h))
  | inr nobody ↦ rw nobody (omega (arith, h))
]
close_server_client-IsSingle (some err) w h = elim (Bool-cases w.has_client) [
  | inl one ↦ rw one (omega (arith, h))
  | inr nobody ↦ rw nobody (omega (arith, h))
]

cancel_receiver-IsSingle :
    (err : Option Bytes) (w : Wire)
    → IsSingle w
    → IsSingle (cancel_receiver close_server_client err w)
unfolding cancel_receiver
cancel_receiver-IsSingle err w h = elim (Bool-cases (w.stopping && ltb 0 w.polling)) [
  | inr other ↦ rw other h
  | inl ends ↦ rw ends (close_server_client-IsSingle err _ (ground (arith, h, ends)))
]

cancel_sender-IsSingle :
    (err : Option Bytes) (w : Wire)
    → IsSingle w
    → IsSingle (cancel_sender close_server_client err w)
unfolding cancel_sender
cancel_sender-IsSingle err w h = elim (Bool-cases (w.stopping && ltb 0 w.waiting)) [
  | inr other ↦ rw other h
  | inl ends ↦ rw ends (close_server_client-IsSingle err _ (ground (arith, h, ends)))
]

server_wire_step-IsSingle :
    (event : WireEvent) (w : Wire) → IsSingle w → IsSingle (server_wire_step event w)
unfolding server_wire_step wire_step
server_wire_step-IsSingle (packet_queued cur_data) w h = h
server_wire_step-IsSingle read_begun w h = elim (Bool-cases w.has_client) [
  | inl one ↦
      subst IsSingle (sym (if_true w.has_client (begin_read w) w one)) (begin_read-IsSingle w h)
  | inr nobody ↦ subst IsSingle (sym (if_false w.has_client (begin_read w) w nobody)) h
]
server_wire_step-IsSingle (bytes_read buffer) w h = end_read-IsSingle buffer w h
server_wire_step-IsSingle (read_failed err) w h = fail_read-IsSingle err w h
server_wire_step-IsSingle packet_written w h = write_first-IsSingle w w.to_send_data_chan h
server_wire_step-IsSingle (write_failed err) w h = fail_first-IsSingle err w w.to_send_data_chan h
server_wire_step-IsSingle read_error_taken w h = take_read_error-IsSingle w h
server_wire_step-IsSingle write_error_taken w h = take_write_error-IsSingle w h
server_wire_step-IsSingle (receiver_cancelled err) w h = cancel_receiver-IsSingle err w h
server_wire_step-IsSingle (sender_cancelled err) w h = cancel_sender-IsSingle err w h

-- A client is taken only where the server has none, and so no loop.
accept_first-IsSingle :
    (addr : Bytes) (fts : TcpTransportServer)
    → fts.wire.has_client ≡ false
    → IsSingle fts.wire
    → IsSingle (accept_first addr fts)
unfolding accept_first log_accept
accept_first-IsSingle addr fts nobody h =
    let other = not (fts.cur_sett.client_addr == []) && not (addr == fts.cur_sett.client_addr) in
    elim (Bool-cases other) [
      | inl refused ↦ subst IsSingle (sym (if_true other _ _ refused)) h
      | inr wanted ↦ subst IsSingle (sym (if_false other _ _ wanted)) (ground (arith, h, nobody))
    ]

accept-IsSingle :
    (addr : Bytes) (fts : TcpTransportServer) → IsSingle fts.wire → IsSingle (accept addr fts).wire
unfolding accept log_accept
accept-IsSingle addr fts h = elim (Bool-cases fts.wire.has_client) [
  | inl one ↦ subst IsSingle (sym (if_true fts.wire.has_client _ _ one)) h
  | inr nobody ↦
      subst IsSingle (sym (if_false fts.wire.has_client _ _ nobody))
        (accept_first-IsSingle addr fts nobody h)
]

start_server-IsSingle :
    (listen : Option Bytes) (fts : TcpTransportServer)
    → IsSingle fts.wire
    → IsSingle (start_server listen fts).wire
unfolding start_server
start_server-IsSingle none fts h = h
start_server-IsSingle (some err) fts h = h

server_step-IsSingle :
    (event : ServerEvent) (fts : TcpTransportServer)
    → IsSingle fts.wire
    → IsSingle (server_step event fts).wire
unfolding server_step accept_failed log_accept
server_step-IsSingle (server_settings_given setts listen) fts h =
    let taken = not fts.wire.stopping && not (same_settings fts.cur_sett setts) in
    let next : TcpTransportServer = start_server listen (record fts { cur_sett = setts }) in
    elim (Bool-cases taken) [
      | inr kept ↦ subst (λ s. IsSingle s.wire) (sym (if_false taken next fts kept)) h
      | inl given ↦
          subst (λ s. IsSingle s.wire) (sym (if_true taken next fts given))
            (start_server-IsSingle listen (record fts { cur_sett = setts }) h)
    ]
server_step-IsSingle (client_accepted addr) fts h = elim (Bool-cases (ltb 0 fts.listeners)) [
  | inr deaf ↦ subst (λ s. IsSingle s.wire) (sym (if_false (ltb 0 fts.listeners) _ fts deaf)) h
  | inl listens ↦
      subst (λ s. IsSingle s.wire) (sym (if_true (ltb 0 fts.listeners) _ fts listens))
        (accept-IsSingle addr fts h)
]
server_step-IsSingle (accepting_failed err) fts h = elim (Bool-cases (ltb 0 fts.listeners)) [
  | inr deaf ↦ subst (λ s. IsSingle s.wire) (sym (if_false (ltb 0 fts.listeners) _ fts deaf)) h
  | inl listens ↦ subst (λ s. IsSingle s.wire) (sym (if_true (ltb 0 fts.listeners) _ fts listens)) h
]
server_step-IsSingle (server_wire_went_on event) fts h = server_wire_step-IsSingle event fts.wire h

run-IsSingle :
    (events : List ServerEvent) (fts : TcpTransportServer)
    → IsSingle fts.wire
    → IsSingle (server_run events fts).wire
unfolding server_run
run-IsSingle [] fts h = h
run-IsSingle (event ∷ events) fts h =
    run-IsSingle events (server_step event fts) (server_step-IsSingle event fts h)

-- Whatever clients come, and whatever fails in whatever order, the server never has more than one
-- receiving loop and one sending loop, and it has one only while it has a client.
pub server_run-IsSingle :
    (events : List ServerEvent)
    → let w = (server_run events new_fmtp_tcp_server).wire in
      (receivers w ≤ 1)
      × (senders w ≤ 1)
      × (receivers w + senders w + bit w.stopping ≤ 2 * bit w.has_client)
unfolding new_fmtp_tcp_server
server_run-IsSingle events =
    run-IsSingle events new_fmtp_tcp_server (omega arith, omega arith, omega arith)
