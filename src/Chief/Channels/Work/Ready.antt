-- ===== src/Chief/Channels/Work/Ready.antt =====
-- A message of the provider reaches a channel that has reported `data_ready`.
use fmtp.Prelude.{
  ℕ, ◌≡◌, refl, sym, ap, ◌∙◌, some, [], ◌∷◌, ◌++◌, ◌==◌, if◌then◌else◌, string_eq, int_eq, ℤ, GoMap,
  lookup, insert, lookup-insert, Option-cases, inl, inr, Bool-cases,
}
use mathlib.Core.Option
use fmtp.Protocol.State
use fmtp.Protocol.State.{FmtpState, idle, data_ready, state_eq}
use fmtp.Channel.Core.{StateController}
use fmtp.Channel.Controller.{current_channel_state}
use fmtp.Chief.Message.{MsgWithChanId}
use fmtp.Chief.Protocol.{channel_heartbeat, create_chief_data_msg}
use fmtp.Chief.Channels.{ChannelStateTime, WsPackage, ChiefChannelServer}
use fmtp.Chief.Channels.Work.{
  receive_ws, note_heartbeat, keep_client, process_oldi_packet, send_to_client, send_to_ready,
}

name_case : (s : FmtpState) → (State.to_string s == State.to_string data_ready) ≡ (s == data_ready)
unfolding State.to_string
name_case idle = refl
name_case _ = refl

lookup-keep_client :
    (id : ℤ) (sock : ℕ) (clients : GoMap ℤ ℕ)
    → lookup id (keep_client id sock (lookup id clients) clients)
      ≡ some (Option.get_or (lookup id clients) sock)
unfolding keep_client
lookup-keep_client id sock clients = elim (Option-cases (lookup id clients)) [
  | inl new ↦ rw new (lookup-insert id id sock clients ∙ rw ((int_eq.beq_iff id id).1 refl) refl)
  | inr (known, e) ↦ rw e e
]

-- The package that takes a message to a channel.
abbrev ws_package : MsgWithChanId → ℕ → WsPackage
ws_package m sock = record { msg = create_chief_data_msg m.chan_id m.pb_msg.txt; sock = some sock }

send_to_ready-ws_sent :
    (d : ChiefChannelServer) (m : MsgWithChanId) (sock : ℕ) (known : ChannelStateTime)
    → (send_to_ready d m sock (some known)).ws_sent ≡ (
        if known.channel_state.fmtp_state == State.to_string data_ready
        then d.ws_sent ++ ws_package m sock ∷ []
        else d.ws_sent)
unfolding send_to_ready
send_to_ready-ws_sent d m sock known =
    elim (Bool-cases (known.channel_state.fmtp_state == State.to_string data_ready)) [
      | inl ready ↦ rw ready refl
      | inr other ↦ rw other refl
    ]

process_oldi_packet-known :
    (d : ChiefChannelServer) (m : MsgWithChanId) (sock : ℕ) (known : ChannelStateTime)
    → lookup m.chan_id d.ws_clients ≡ some sock
    → lookup m.chan_id d.ch_states ≡ some known
    → (process_oldi_packet d m).ws_sent ≡ (
        if known.channel_state.fmtp_state == State.to_string data_ready
        then d.ws_sent ++ ws_package m sock ∷ []
        else d.ws_sent)
unfolding process_oldi_packet send_to_client
process_oldi_packet-known d m sock known client state =
    ap (λ o. (send_to_client d m o).ws_sent) client
    ∙ ap (λ o. (send_to_ready d m sock o).ws_sent) state
    ∙ send_to_ready-ws_sent d m sock known

-- After a channel has reported itself, a message of the provider for it is sent to it exactly when it
-- is in `data_ready`: once, with the same text, on the connection that the chief has for it.
pub process_oldi_packet-receive_ws :
    (cc : ChiefChannelServer) (now : ℕ) (c : StateController) (sock : ℕ) (m : MsgWithChanId)
    → m.chan_id ≡ c.cur_set.id
    → (process_oldi_packet
        (receive_ws cc now (channel_heartbeat (current_channel_state c)) sock)
        m).ws_sent
      ≡ (if c.current_state == data_ready
          then cc.ws_sent
            ++ record {
              msg = create_chief_data_msg m.chan_id m.pb_msg.txt;
              sock = some (Option.get_or (lookup m.chan_id cc.ws_clients) sock);
            }
              ∷ []
          else cc.ws_sent)
unfolding receive_ws note_heartbeat
process_oldi_packet-receive_ws cc now c sock m same =
    let id = c.cur_set.id in
    let known : ChannelStateTime = record { channel_state = current_channel_state c; time = now } in
    let after = note_heartbeat cc now (current_channel_state c) sock in
    let client : lookup m.chan_id after.ws_clients
        ≡ some (Option.get_or (lookup m.chan_id cc.ws_clients) sock) =
      ap (λ i. lookup i after.ws_clients) same
      ∙ lookup-keep_client id sock cc.ws_clients
      ∙ ap (λ i. some (Option.get_or (lookup i cc.ws_clients) sock)) (sym same) in
    let state : lookup m.chan_id after.ch_states ≡ some known =
      ap (λ i. lookup i after.ch_states) same ∙ found id known cc.ch_states in
    process_oldi_packet-known after m (Option.get_or (lookup m.chan_id cc.ws_clients) sock) known
      client state
    ∙ ap
        (λ b.
          if b
          then cc.ws_sent ++ ws_package m (Option.get_or (lookup m.chan_id cc.ws_clients) sock) ∷ []
          else cc.ws_sent)
        (name_case c.current_state)
  where
    found :
        (id : ℤ) (known : ChannelStateTime) (states : GoMap ℤ ChannelStateTime)
        → lookup id (insert id known states) ≡ some known
    found id known states =
        lookup-insert id id known states ∙ rw ((int_eq.beq_iff id id).1 refl) refl
