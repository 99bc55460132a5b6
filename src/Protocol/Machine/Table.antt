-- ===== src/Protocol/Machine/Table.antt =====
-- The two machines written out: what each event does in each state.
use fmtp.Prelude.{String, ◌≡◌, refl, Bool, true, false, ◌==◌, string_eq}
use fmtp.Protocol.State.{
  FmtpState, idle, con_pending, sys_id_pending, id_pending, ready, ass_pending, data_ready,
  disabled, empt,
}
use fmtp.Protocol.Event.{
  FmtpEvent, l_setup, r_setup, l_disconnect, r_disconnect, l_data, l_shutdown, l_startup, r_data,
  r_accept, r_reject, r_id_valid, r_id_invalid, r_heartbeat, r_shutdown, r_startup, ts_timeout,
  tr_timeout, ti_timeout,
}
use fmtp.Protocol.Machine.{role_machine, init_state_machine, get_next_state}

-- The state after an event, `empt` where the event is ignored. The flag says client or server.
abbrev pub next_state : Bool → FmtpState → FmtpEvent → FmtpState
next_state true idle l_setup = con_pending
next_state false idle r_setup = sys_id_pending
next_state _ idle l_disconnect = idle
next_state _ idle r_disconnect = idle
next_state true con_pending r_setup = id_pending
next_state true con_pending r_id_valid = empt
next_state true con_pending r_id_invalid = empt
next_state true con_pending l_disconnect = idle
next_state true con_pending r_disconnect = idle
next_state true con_pending l_data = idle
next_state true con_pending l_shutdown = idle
next_state true con_pending l_startup = idle
next_state true con_pending r_data = idle
next_state true con_pending r_accept = idle
next_state true con_pending r_reject = idle
next_state true con_pending r_heartbeat = idle
next_state true con_pending r_shutdown = idle
next_state true con_pending r_startup = idle
next_state true con_pending ti_timeout = idle
next_state false sys_id_pending r_setup = sys_id_pending
next_state false sys_id_pending r_id_valid = id_pending
next_state false sys_id_pending r_id_invalid = idle
next_state false sys_id_pending l_disconnect = idle
next_state false sys_id_pending r_disconnect = idle
next_state false sys_id_pending r_data = idle
next_state false sys_id_pending r_accept = idle
next_state false sys_id_pending r_reject = idle
next_state false sys_id_pending r_heartbeat = idle
next_state false sys_id_pending r_shutdown = idle
next_state false sys_id_pending r_startup = idle
next_state false sys_id_pending ti_timeout = idle
next_state true id_pending r_id_valid = ready
next_state true id_pending r_accept = idle
next_state true id_pending r_id_invalid = idle
next_state true id_pending l_data = idle
next_state true id_pending l_shutdown = idle
next_state true id_pending l_startup = idle
next_state false id_pending r_accept = ready
next_state _ id_pending l_disconnect = idle
next_state _ id_pending r_disconnect = idle
next_state _ id_pending r_reject = idle
next_state _ id_pending r_data = idle
next_state _ id_pending r_heartbeat = idle
next_state _ id_pending r_shutdown = idle
next_state _ id_pending r_startup = idle
next_state _ id_pending ti_timeout = idle
next_state _ ready l_startup = ass_pending
next_state _ ready l_shutdown = ready
next_state _ ready l_disconnect = idle
next_state _ ready r_disconnect = idle
next_state _ ass_pending l_shutdown = ready
next_state _ ass_pending r_startup = data_ready
next_state _ ass_pending l_disconnect = idle
next_state _ ass_pending r_disconnect = idle
next_state _ ass_pending ti_timeout = ass_pending
next_state _ data_ready r_shutdown = ass_pending
next_state _ data_ready l_shutdown = ready
next_state _ data_ready l_disconnect = idle
next_state _ data_ready r_disconnect = idle
next_state _ data_ready tr_timeout = idle
next_state _ data_ready l_data = data_ready
next_state _ data_ready r_data = data_ready
next_state _ data_ready r_heartbeat = data_ready
next_state _ data_ready ts_timeout = data_ready
next_state _ _ _ = empt

role_table :
    (client : Bool) (s : FmtpState) (e : FmtpEvent)
    → get_next_state (role_machine client) s e ≡ next_state client s e
unfolding get_next_state init_state_machine
role_table true idle l_setup = refl
role_table true con_pending l_setup = refl
role_table true sys_id_pending l_setup = refl
role_table true id_pending l_setup = refl
role_table true ready l_setup = refl
role_table true ass_pending l_setup = refl
role_table true data_ready l_setup = refl
role_table true disabled l_setup = refl
role_table true empt l_setup = refl
role_table false idle l_setup = refl
role_table false con_pending l_setup = refl
role_table false sys_id_pending l_setup = refl
role_table false id_pending l_setup = refl
role_table false ready l_setup = refl
role_table false ass_pending l_setup = refl
role_table false data_ready l_setup = refl
role_table false disabled l_setup = refl
role_table false empt l_setup = refl
role_table _ _ _ = refl

-- The search through the nested maps finds what the table says, for every role.
pub get_next_state-next_state :
    (tcp_role : String) (s : FmtpState) (e : FmtpEvent)
    → get_next_state (init_state_machine tcp_role) s e ≡ next_state (tcp_role == "client") s e
unfolding init_state_machine
get_next_state-next_state tcp_role = role_table (tcp_role == "client")
