-- ===== src/Channel/ChiefClient/AsksOnce.antt =====
-- How often a channel asks for its settings.
use fmtp.Prelude.{
  ℕ, suc, ◌+◌, ◌≤◌, ◌≡◌, refl, ap, inl, inr, Bool, true, false, Option, none, some, List, [], ◌∷◌,
  ◌++◌, ltb, Bool-cases, arith, All,
}
use fmtp.Chief.Protocol.{
  ChannelMsg, settings_request, channel_heartbeat, channel_log, channel_message, unreadable,
}
use fmtp.Channel.ChiefClient.{
  Client, client_connected, client_disconnected, new_chief_channel_client, minute, request_settings,
  note_disconnected, note_state, change_state, ChiefClientEvent, client_settings_given,
  message_queued, message_taken, message_received, state_changed, ws_failed, take_message,
  chief_client_step, chief_client_run, same_client_settings,
}

-- The requests for settings among messages.
abbrev pub requests : List ChannelMsg → ℕ
requests [] = 0
requests (settings_request id ∷ others) = suc (requests others)
requests (channel_heartbeat state ∷ others) = requests others
requests (channel_log entry ∷ others) = requests others
requests (channel_message msg ∷ others) = requests others
requests (unreadable ∷ others) = requests others

requests-append : (xs ys : List ChannelMsg) → requests (xs ++ ys) ≡ requests xs + requests ys
requests-append [] ys = omega arith
requests-append (settings_request id ∷ xs) ys = omega (arith, requests-append xs ys)
requests-append (channel_heartbeat state ∷ xs) ys = requests-append xs ys
requests-append (channel_log entry ∷ xs) ys = requests-append xs ys
requests-append (channel_message msg ∷ xs) ys = requests-append xs ys
requests-append (unreadable ∷ xs) ys = requests-append xs ys

abbrev bit : Bool → ℕ
bit true = 1
bit false = 0

-- The program itself asks for no settings.
abbrev pub AsksNothing : ChiefClientEvent → Type 0
AsksNothing (message_queued msg) = requests (msg ∷ []) ≡ 0
AsksNothing event = Unit

-- All the requests, sent or waiting.
abbrev pub asked : Client → ℕ
asked c = requests c.ws_send_data + requests c.send_chan

abbrev AskedOnce : Client → Type 0
AskedOnce c = asked c ≡ bit c.send_settings_request

request_settings-AskedOnce : (c : Client) → AskedOnce c → AskedOnce (request_settings c)
unfolding request_settings
request_settings-AskedOnce c h = elim (Bool-cases c.send_settings_request) [
  | inl already ↦ rw already (omega (arith, h, ap bit already))
  | inr first ↦ rw first (
      omega (
        arith,
        h,
        ap bit first,
        requests-append c.send_chan (settings_request c.setts.channel_id ∷ []),
      ))
]

note_disconnected-AskedOnce :
    (now : ℕ) (old : Option ℕ) (c : Client) → AskedOnce c → AskedOnce (note_disconnected now old c)
unfolding note_disconnected
note_disconnected-AskedOnce now none c h = h
note_disconnected-AskedOnce now (some time) c h = elim (Bool-cases (ltb (time + minute) now)) [
  | inl late ↦ rw late h
  | inr soon ↦ rw soon h
]

take_message-AskedOnce :
    (c : Client) (list : List ChannelMsg)
    → c.send_chan ≡ list
    → AskedOnce c
    → AskedOnce (take_message c list)
unfolding take_message
take_message-AskedOnce c [] e h = h
take_message-AskedOnce c (msg ∷ others) e h = omega (
  arith,
  h,
  ap requests e,
  requests-append c.ws_send_data (msg ∷ []),
  requests-append (msg ∷ []) others,
)

run-AskedOnce :
    (events : List ChiefClientEvent) → All AsksNothing events → AskedOnce (chief_client_run events)
unfolding chief_client_run chief_client_step change_state note_state new_chief_channel_client
run-AskedOnce [] asks = refl
run-AskedOnce (state_changed client_connected now ∷ before) (asks, all) =
    request_settings-AskedOnce (record (chief_client_run before) { disconn_time = none })
      (run-AskedOnce before all)
run-AskedOnce (state_changed client_disconnected now ∷ before) (asks, all) =
    note_disconnected-AskedOnce now _ (chief_client_run before) (run-AskedOnce before all)
run-AskedOnce (client_settings_given setts ∷ before) (asks, all) =
    given (chief_client_run before) (run-AskedOnce before all)
  where
    given :
        (c : Client) → AskedOnce c → AskedOnce (chief_client_step (client_settings_given setts) c)
    given c h = elim (Bool-cases (same_client_settings c.setts setts)) [
      | inl same ↦ rw same h
      | inr other ↦ rw other h
    ]
run-AskedOnce (message_queued msg ∷ before) (asks, all) = omega (
  arith,
  run-AskedOnce before all,
  asks,
  requests-append (chief_client_run before).send_chan (msg ∷ []),
)
run-AskedOnce (message_taken ∷ before) (asks, all) =
    take_message-AskedOnce (chief_client_run before) _ refl (run-AskedOnce before all)
run-AskedOnce (message_received msg ∷ before) (asks, all) = run-AskedOnce before all
run-AskedOnce (ws_failed err ∷ before) (asks, all) = run-AskedOnce before all

-- Where the program itself asks for no settings, the client asks the chief at most once, however
-- often the connection is lost and found again.
pub chief_client_run-asked :
    (events : List ChiefClientEvent) → All AsksNothing events → asked (chief_client_run events) ≤ 1
chief_client_run-asked events asks = at_most (chief_client_run events) (run-AskedOnce events asks)
  where
    at_most : (c : Client) → AskedOnce c → asked c ≤ 1
    at_most c h = elim (Bool-cases c.send_settings_request) [
      | inl yes_asked ↦ omega (arith, h, ap bit yes_asked)
      | inr not_asked ↦ omega (arith, h, ap bit not_asked)
    ]
