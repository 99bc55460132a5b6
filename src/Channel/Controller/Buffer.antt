-- ===== src/Channel/Controller/Buffer.antt =====
-- What the controller does with a message neither reads nor changes the buffer of received bytes.
use fmtp.Prelude.{
  ◌≡◌, refl, ap, ◌∙◌, inl, inr, [], ◌∷◌, arith, Bytes, All, String, Bool-cases, GoMap, lookup, ◌==◌,
  string_eq, nat_eq, bytes_eq,
}
use fmtp.Protocol.State.{FmtpState, state_eq}
use fmtp.Protocol.Event.{
  FmtpEvent, event_eq, r_data, r_reject, r_accept, r_id_valid, r_id_invalid, r_startup, r_shutdown,
  r_heartbeat,
}
use fmtp.Protocol.Message
use fmtp.Protocol.Message.{FmtpMessage, identification, system, operational}
use fmtp.Protocol.Machine.{get_next_state}
use fmtp.Channel.Log.{
  severity_info, severity_debug, severity_warning, identification_mismatch, direction_incoming,
  log_channel_stdt,
}
use fmtp.Channel.Core.{Recoding, StateController, log_entry}
use fmtp.Channel.Core.Buffer.{with_buffer}
use fmtp.Channel.Transitions.{TransitionFunc, init_enter_trans_func_map, init_exit_trans_func_map}
use fmtp.Channel.Transitions.Buffer.{Ignores, Entry, enter_map-Ignores, exit_map-Ignores}
use fmtp.Channel.Controller.{
  run_func, log_change, leave, enter, force_new_event, log_event, process_event_message,
  process_data_message, process_identification, process_system, process_fmtp_message,
}

lookup-Ignores :
    (s : FmtpState) (m : GoMap FmtpState TransitionFunc)
    → All Entry m
    → Ignores (run_func (lookup s m))
unfolding lookup
lookup-Ignores s [] h c b e = refl
lookup-Ignores s ((t, f) ∷ m) (hf, hm) c b e = elim (Bool-cases (t == s)) [
  | inl here ↦ rw (here, lookup, run_func) (hf c b e)
  | inr there ↦ rw (there, lookup, run_func) (lookup-Ignores s m hm c b e)
]

module _ (u : Recoding) where
  leave-with_buffer :
      (c : StateController) (b : Bytes) (e : FmtpEvent)
      → leave u (with_buffer b c) e ≡ with_buffer b (leave u c e)
  unfolding leave
  leave-with_buffer c b e =
      lookup-Ignores c.current_state (init_exit_trans_func_map u c.cur_set.net_role)
        (exit_map-Ignores u c.cur_set.net_role) c b e

  enter-with_buffer :
      (c : StateController) (b : Bytes) (e : FmtpEvent)
      → enter u (with_buffer b c) e ≡ with_buffer b (enter u c e)
  unfolding enter
  enter-with_buffer c b e =
      lookup-Ignores c.current_state (init_enter_trans_func_map u c.cur_set.net_role)
        (enter_map-Ignores u c.cur_set.net_role) c b e

  log_change-with_buffer :
      (c : StateController) (b : Bytes) (next : FmtpState) (e : FmtpEvent)
      → log_change u (with_buffer b c) next e ≡ with_buffer b (log_change u c next e)
  unfolding log_change
  log_change-with_buffer c b next e = ground arith

  force_new_event-with_buffer :
      (c : StateController) (b : Bytes) (e : FmtpEvent)
      → force_new_event u (with_buffer b c) e ≡ with_buffer b (force_new_event u c e)
  unfolding force_new_event
  force_new_event-with_buffer c b e = ground (
    arith,
    log_change-with_buffer c b (get_next_state c.state_machine c.current_state e) e,
    leave-with_buffer (log_change u c (get_next_state c.state_machine c.current_state e) e) b e,
    enter-with_buffer
        (record (leave u (log_change u c (get_next_state c.state_machine c.current_state e) e) e) {
          current_state = get_next_state c.state_machine c.current_state e;
        })
        b e,
  )

  log_event-with_buffer :
      (c : StateController) (b : Bytes) (e : FmtpEvent) (msg : FmtpMessage) (severity : String)
      → log_event u (with_buffer b c) e msg severity ≡ with_buffer b (log_event u c e msg severity)
  unfolding log_event
  log_event-with_buffer c b e msg severity = ground arith

  process_event_message-with_buffer :
      (c : StateController) (b : Bytes) (e : FmtpEvent) (msg : FmtpMessage) (severity : String)
      → process_event_message u (with_buffer b c) e msg severity
        ≡ with_buffer b (process_event_message u c e msg severity)
  unfolding process_event_message
  process_event_message-with_buffer c b e msg severity =
      ap (λ logged. force_new_event u logged e) (log_event-with_buffer c b e msg severity)
      ∙ force_new_event-with_buffer (log_event u c e msg severity) b e

  process_data_message-with_buffer :
      (c : StateController) (b : Bytes) (msg : FmtpMessage)
      → process_data_message u (with_buffer b c) msg ≡ with_buffer b (process_data_message u c msg)
  unfolding process_data_message
  process_data_message-with_buffer c b msg = ground arith

  process_identification-with_buffer :
      (c : StateController) (b : Bytes) (msg : FmtpMessage)
      → process_identification u (with_buffer b c) msg
        ≡ with_buffer b (process_identification u c msg)
  unfolding process_identification
  process_identification-with_buffer c b msg =
      let mismatch = log_entry c (
        log_channel_stdt severity_warning (Message.to_string msg.type) direction_incoming
          (identification_mismatch c.remote_identification_msg.text msg.text)) in
      ground (
        arith,
        process_event_message-with_buffer c b r_reject msg severity_info,
        process_event_message-with_buffer c b r_accept msg severity_info,
        process_event_message-with_buffer c b r_id_valid msg severity_info,
        process_event_message-with_buffer mismatch b r_id_invalid msg severity_info,
      )

  process_system-with_buffer :
      (c : StateController) (b : Bytes) (msg : FmtpMessage)
      → process_system u (with_buffer b c) msg ≡ with_buffer b (process_system u c msg)
  unfolding process_system
  process_system-with_buffer c b msg = ground (
    arith,
    process_event_message-with_buffer c b r_startup msg severity_info,
    process_event_message-with_buffer c b r_shutdown msg severity_info,
    process_event_message-with_buffer c b r_heartbeat msg severity_info,
    process_event_message-with_buffer c b r_heartbeat msg severity_debug,
  )

  pub process_fmtp_message-with_buffer :
      (c : StateController) (b : Bytes) (msg : FmtpMessage)
      → process_fmtp_message u (with_buffer b c) msg ≡ with_buffer b (process_fmtp_message u c msg)
  unfolding process_fmtp_message
  process_fmtp_message-with_buffer c b msg = ground (
    arith,
    process_identification-with_buffer c b msg,
    process_system-with_buffer c b msg,
    process_event_message-with_buffer c b r_data msg severity_debug,
    process_data_message-with_buffer c b msg,
    process_data_message-with_buffer (process_event_message u c r_data msg severity_debug) b msg,
  )
