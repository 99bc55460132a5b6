-- ===== src/Channel/Transitions/Buffer.antt =====
-- No transition function reads or changes the buffer of received bytes.
use fmtp.Prelude.{String, ◌≡◌, refl, arith, Bytes, All, Bool-cases, inl, inr, ◌==◌, string_eq}
use fmtp.Protocol.State.{FmtpState, state_eq}
use fmtp.Protocol.Event.{FmtpEvent, r_setup, l_startup, none_event}
use fmtp.Protocol.Message.{
  startup_message, shutdown_message, heartbeat_message, accept_message, reject_message,
}
use fmtp.Channel.Settings.{tcp_client_text, tcp_server_text}
use fmtp.Channel.Log.{severity_info, severity_debug}
use fmtp.Channel.Core.{Recoding, StateController}
use fmtp.Channel.Core.Buffer.{with_buffer, send_packet-with_buffer}
use fmtp.Channel.Transitions.{
  TransitionFunc, system_id_pending_state_exit, connection_pending_state_enter,
  id_pending_state_exit, ready_state_enter, ready_state_exit, assosiation_pending_state_exit,
  data_ready_state_exit, init_enter_trans_func_map, init_exit_trans_func_map,
}

abbrev pub Ignores : TransitionFunc → Type 0
Ignores f =
    (c : StateController) (b : Bytes) (e : FmtpEvent)
    → f (with_buffer b c) e ≡ with_buffer b (f c e)

abbrev pub Entry : FmtpState × TransitionFunc → Type 0
Entry entry = Ignores entry.1

module _ (u : Recoding) where
  system_id_pending_exit-Ignores : Ignores (system_id_pending_state_exit u)
  unfolding system_id_pending_state_exit
  system_id_pending_exit-Ignores c b e =
      ground
        (arith, send_packet-with_buffer u c b c.own_identification_msg none_event severity_info)

  connection_pending_enter-Ignores : Ignores (connection_pending_state_enter u)
  unfolding connection_pending_state_enter
  connection_pending_enter-Ignores c b e =
      send_packet-with_buffer u c b c.own_identification_msg r_setup severity_info

  id_pending_exit-Ignores : Ignores (id_pending_state_exit u)
  unfolding id_pending_state_exit
  id_pending_exit-Ignores c b e = ground (
    arith,
    send_packet-with_buffer u c b accept_message none_event severity_info,
    send_packet-with_buffer u c b reject_message none_event severity_info,
  )

  ready_enter-Ignores : Ignores (ready_state_enter u)
  unfolding ready_state_enter
  ready_enter-Ignores c b e = send_packet-with_buffer u c b startup_message l_startup severity_info

  ready_exit-Ignores : Ignores (ready_state_exit u)
  unfolding ready_state_exit
  ready_exit-Ignores c b e = ground arith

  assosiation_pending_exit-Ignores : Ignores (assosiation_pending_state_exit u)
  unfolding assosiation_pending_state_exit
  assosiation_pending_exit-Ignores c b e = ground (
    arith,
    send_packet-with_buffer u c b shutdown_message none_event severity_info,
    send_packet-with_buffer u c b startup_message l_startup severity_info,
  )

  data_ready_exit-Ignores : Ignores (data_ready_state_exit u)
  unfolding data_ready_state_exit
  data_ready_exit-Ignores c b e = ground (
    arith,
    send_packet-with_buffer u c b shutdown_message none_event severity_info,
    send_packet-with_buffer u c b heartbeat_message none_event severity_debug,
  )

  pub enter_map-Ignores : (tcp_role : String) → All Entry (init_enter_trans_func_map u tcp_role)
  unfolding init_enter_trans_func_map
  enter_map-Ignores tcp_role = elim (Bool-cases (tcp_role == tcp_client_text)) [
    | inl client ↦
        rw (client, init_enter_trans_func_map)
          (
            λ c b e. refl,
            (
              λ c b e. refl,
              (ready_enter-Ignores, (λ c b e. refl, (connection_pending_enter-Ignores, tt))),
            ),
          )
    | inr server ↦
        rw (server, init_enter_trans_func_map)
          (
            λ c b e. refl,
            (λ c b e. refl, (ready_enter-Ignores, (λ c b e. refl, (λ c b e. refl, tt)))),
          )
  ]

  pub exit_map-Ignores : (tcp_role : String) → All Entry (init_exit_trans_func_map u tcp_role)
  unfolding init_exit_trans_func_map
  exit_map-Ignores tcp_role = elim (Bool-cases (tcp_role == tcp_server_text)) [
    | inl server ↦
        rw (server, init_exit_trans_func_map)
          (
            λ c b e. refl,
            (
              id_pending_exit-Ignores,
              (
                ready_exit-Ignores,
                (
                  assosiation_pending_exit-Ignores,
                  (data_ready_exit-Ignores, (system_id_pending_exit-Ignores, tt)),
                ),
              ),
            ),
          )
    | inr other ↦
        rw (other, init_exit_trans_func_map)
          (
            λ c b e. refl,
            (
              id_pending_exit-Ignores,
              (
                ready_exit-Ignores,
                (assosiation_pending_exit-Ignores, (data_ready_exit-Ignores, tt)),
              ),
            ),
          )
  ]
