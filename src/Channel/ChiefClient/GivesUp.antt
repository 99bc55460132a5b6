-- ===== src/Channel/ChiefClient/GivesUp.antt =====
-- When a channel gives up.
use fmtp.Prelude.{
  ℕ, ◌+◌, ◌<◌, ◌≡◌, ◌≢◌, refl, ap, ◌∙◌, sym, ◌⊎◌, inl, inr, not, Option, none, some, List, [], ◌∷◌,
  ltb, Bool-cases, arith,
}
use mathlib.Core.Option.{none-ne-some, some-injective}
use fmtp.Chief.Protocol.{ChannelMsg}
use fmtp.Channel.ChiefClient.{
  Client, ClientSettings, client_connected, client_disconnected, new_chief_channel_client, minute,
  request_settings, note_disconnected, note_state, change_state, ChiefClientEvent,
  client_settings_given, message_queued, message_taken, message_received, state_changed, ws_failed,
  take_message, chief_client_step, chief_client_run, same_client_settings,
}

-- At an instant the connection was lost, and it has not been found again since; the last event is
-- the first of the list.
abbrev pub LostAt : ℕ → List ChiefClientEvent → Type 0
LostAt time [] = ⊥
LostAt time (state_changed client_connected now ∷ before) = ⊥
LostAt time (state_changed client_disconnected now ∷ before) = (time ≡ now) ⊎ LostAt time before
LostAt time (client_settings_given setts ∷ before) = LostAt time before
LostAt time (message_queued msg ∷ before) = LostAt time before
LostAt time (message_taken ∷ before) = LostAt time before
LostAt time (message_received msg ∷ before) = LostAt time before
LostAt time (ws_failed err ∷ before) = LostAt time before

-- The time and the number of signals, as a step finds them.
abbrev Clock : Type 0
Clock = Option ℕ × ℕ

abbrev clock : Client → Clock
clock c = (c.disconn_time, c.closes)

request_settings-clock : (c : Client) → clock (request_settings c) ≡ clock c
unfolding request_settings
request_settings-clock c = elim (Bool-cases (not c.send_settings_request)) [
  | inl first ↦ rw first refl
  | inr asked ↦ rw asked refl
]

take_message-clock : (c : Client) (list : List ChannelMsg) → clock (take_message c list) ≡ clock c
unfolding take_message
take_message-clock c [] = refl
take_message-clock c (msg ∷ others) = refl

note_disconnected-time :
    (now : ℕ) (old : Option ℕ) (c : Client)
    → c.disconn_time ≡ old
    → (note_disconnected now old c).disconn_time
      ≡ elim old [ none ↦ some now | some time ↦ some time ]
unfolding note_disconnected
note_disconnected-time now none c e = refl
note_disconnected-time now (some time) c e = elim (Bool-cases (ltb (time + minute) now)) [
  | inl late ↦ rw late e
  | inr soon ↦ rw soon e
]

settings-clock :
    (setts : ClientSettings) (c : Client)
    → clock (chief_client_step (client_settings_given setts) c) ≡ clock c
unfolding chief_client_step
settings-clock setts c = elim (Bool-cases (same_client_settings c.setts setts)) [
  | inl same ↦ rw same refl
  | inr other ↦ rw other refl
]

-- The time that the client keeps is one at which the connection was lost.
disconn_time-LostAt :
    (events : List ChiefClientEvent) (time : ℕ)
    → (chief_client_run events).disconn_time ≡ some time
    → LostAt time events
unfolding chief_client_run chief_client_step change_state note_state new_chief_channel_client
disconn_time-LostAt [] time e = cc
disconn_time-LostAt (state_changed client_connected now ∷ before) time e =
    let cleared : Client = record (chief_client_run before) { disconn_time = none } in
    absurd (none-ne-some time (sym (ap (λ k. k.0) (request_settings-clock cleared)) ∙ e))
disconn_time-LostAt (state_changed client_disconnected now ∷ before) time e =
    by_old (chief_client_run before).disconn_time refl
      (sym (note_disconnected-time now _ (chief_client_run before) refl) ∙ e)
      (disconn_time-LostAt before time)
  where
    by_old :
        (old : Option ℕ)
        → (chief_client_run before).disconn_time ≡ old
        → elim old [ none ↦ some now | some last ↦ some last ] ≡ some time
        → ((chief_client_run before).disconn_time ≡ some time → LostAt time before)
        → (time ≡ now) ⊎ LostAt time before
    by_old none there e earlier = inl (sym (some-injective _ _ e))
    by_old (some last) there e earlier = inr (earlier (there ∙ e))
disconn_time-LostAt (client_settings_given setts ∷ before) time e =
    disconn_time-LostAt before time
      (sym (ap (λ k. k.0) (settings-clock setts (chief_client_run before))) ∙ e)
disconn_time-LostAt (message_queued msg ∷ before) time e = disconn_time-LostAt before time e
disconn_time-LostAt (message_taken ∷ before) time e =
    disconn_time-LostAt before time
      (sym (ap (λ k. k.0) (take_message-clock (chief_client_run before) _)) ∙ e)
disconn_time-LostAt (message_received msg ∷ before) time e = disconn_time-LostAt before time e
disconn_time-LostAt (ws_failed err ∷ before) time e = disconn_time-LostAt before time e

note_disconnected-closes :
    (now : ℕ) (old : Option ℕ) (c : Client)
    → (note_disconnected now old c).closes ≢ c.closes
    → (time : ℕ) × (old ≡ some time) × (time + minute < now)
unfolding note_disconnected
note_disconnected-closes now none c more = absurd (more refl)
note_disconnected-closes now (some time) c more = elim (Bool-cases (ltb (time + minute) now)) [
  | inl late ↦ (time, refl, ground (arith, late))
  | inr soon ↦ absurd (more (rw soon refl))
]

-- The client gives up, whatever it has been through, only at a report that it is not connected, where
-- it lost the connection more than a minute ago and has not found it again since.
pub closes-LostAt :
    (event : ChiefClientEvent) (before : List ChiefClientEvent)
    → (chief_client_run (event ∷ before)).closes ≢ (chief_client_run before).closes
    → (now : ℕ) × (time : ℕ) × (event ≡ state_changed client_disconnected now)
      × LostAt time before
      × (time + minute < now)
unfolding chief_client_run chief_client_step change_state note_state
closes-LostAt (state_changed client_connected now) before more =
    absurd (more (ap (λ k. k.1) (request_settings-clock _)))
closes-LostAt (state_changed client_disconnected now) before more =
    let (time, kept, late) = note_disconnected-closes now _ (chief_client_run before) more in
    (now, time, refl, disconn_time-LostAt before time kept, late)
closes-LostAt (client_settings_given setts) before more =
    absurd (more (ap (λ k. k.1) (settings-clock setts (chief_client_run before))))
closes-LostAt (message_queued msg) before more = absurd (more refl)
closes-LostAt message_taken before more =
    absurd (more (ap (λ k. k.1) (take_message-clock (chief_client_run before) _)))
closes-LostAt (message_received msg) before more = absurd (more refl)
closes-LostAt (ws_failed err) before more = absurd (more refl)
