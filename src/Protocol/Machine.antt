-- ===== src/Protocol/Machine.antt =====
-- fmtp/fmtp_state_machine.go: from each state, the events that lead to each next state.
pub mod Table
pub mod Order
pub mod Handshake
use mathlib.Core.Option
use fmtp.Prelude.{
  String, Bool, true, false, ◌||◌, Option, none, some, List, [], ◌∷◌, ◌==◌, if◌then◌else◌,
  string_eq, GoMap, lookup, insert, range_return,
}
use fmtp.Protocol.State.{
  FmtpState, idle, con_pending, sys_id_pending, id_pending, ready, ass_pending, data_ready, empt,
  state_eq,
}
use fmtp.Protocol.Event.{
  FmtpEvent, l_setup, r_setup, l_disconnect, r_disconnect, l_data, l_shutdown, l_startup, r_data,
  r_accept, r_reject, r_id_valid, r_id_invalid, r_heartbeat, r_shutdown, r_startup, ts_timeout,
  tr_timeout, ti_timeout, event_eq,
}

abbrev pub Targets : Type 0
Targets = GoMap FmtpState (List FmtpEvent)

abbrev pub FmtpStateMachine : Type 0
FmtpStateMachine = GoMap FmtpState Targets

-- `curMachine[from] = map[FmtpState][]FmtpEvent{to: events}`
abbrev start_row : FmtpState → FmtpState → List FmtpEvent → FmtpStateMachine → FmtpStateMachine
start_row from to events m = insert from ((to, events) ∷ []) m

-- `curMachine[from][to] = events`; every row is there before it is written to.
abbrev set_target : FmtpState → FmtpState → List FmtpEvent → FmtpStateMachine → FmtpStateMachine
set_target from to events m = insert from (insert to events (Option.get_or (lookup from m) [])) m

common_state_machine : FmtpStateMachine → FmtpStateMachine
unfolding insert lookup
common_state_machine m0 =
    let m1 = start_row ready ass_pending (l_startup ∷ []) m0 in
    let m2 = set_target ready idle (l_disconnect ∷ r_disconnect ∷ []) m1 in
    let m3 = set_target ready ready (l_shutdown ∷ []) m2 in
    let m4 = start_row ass_pending ready (l_shutdown ∷ []) m3 in
    let m5 = set_target ass_pending data_ready (r_startup ∷ []) m4 in
    let m6 = set_target ass_pending idle (l_disconnect ∷ r_disconnect ∷ []) m5 in
    let m7 = set_target ass_pending ass_pending (ti_timeout ∷ []) m6 in
    let m8 = start_row data_ready ass_pending (r_shutdown ∷ []) m7 in
    let m9 = set_target data_ready ready (l_shutdown ∷ []) m8 in
    let m10 = set_target data_ready idle (l_disconnect ∷ r_disconnect ∷ tr_timeout ∷ []) m9 in
    set_target data_ready data_ready (l_data ∷ r_data ∷ r_heartbeat ∷ ts_timeout ∷ []) m10

client_state_machine : FmtpStateMachine
unfolding insert lookup
client_state_machine =
    let m1 = start_row idle con_pending (l_setup ∷ []) [] in
    let m2 = set_target idle idle (l_disconnect ∷ r_disconnect ∷ []) m1 in
    let m3 = start_row con_pending id_pending (r_setup ∷ []) m2 in
    let m4 =
      set_target con_pending idle
        (l_disconnect ∷ r_disconnect ∷ l_data ∷ l_shutdown ∷ l_startup ∷ r_data ∷ r_accept
          ∷ r_reject ∷ r_heartbeat ∷ r_shutdown ∷ r_startup ∷ ti_timeout ∷ [])
        m3 in
    let m5 = start_row id_pending ready (r_id_valid ∷ []) m4 in
    set_target id_pending idle
      (l_disconnect ∷ r_disconnect ∷ r_reject ∷ r_accept ∷ r_id_invalid ∷ r_data ∷ r_heartbeat
        ∷ r_shutdown ∷ r_startup ∷ ti_timeout ∷ l_data ∷ l_shutdown ∷ l_startup ∷ [])
      m5

server_state_machine : FmtpStateMachine
unfolding insert lookup
server_state_machine =
    let m1 = start_row idle sys_id_pending (r_setup ∷ []) [] in
    let m2 = set_target idle idle (l_disconnect ∷ r_disconnect ∷ []) m1 in
    let m3 = start_row sys_id_pending id_pending (r_id_valid ∷ []) m2 in
    let m4 =
      set_target sys_id_pending idle
        (l_disconnect ∷ r_disconnect ∷ r_accept ∷ r_reject ∷ ti_timeout ∷ r_data ∷ r_id_invalid
          ∷ r_heartbeat ∷ r_shutdown ∷ r_startup ∷ [])
        m3 in
    let m5 = set_target sys_id_pending sys_id_pending (r_setup ∷ []) m4 in
    let m6 = start_row id_pending ready (r_accept ∷ []) m5 in
    set_target id_pending idle
      (l_disconnect ∷ r_disconnect ∷ r_data ∷ r_reject ∷ r_heartbeat ∷ r_shutdown ∷ r_startup
        ∷ ti_timeout ∷ [])
      m6

-- The machine by the test that `InitStateMachine` makes on the role.
abbrev role_machine : Bool → FmtpStateMachine
unfolding common_state_machine client_state_machine server_state_machine
role_machine client =
    common_state_machine (if client then client_state_machine else server_state_machine)

unfoldable pub init_state_machine : String → FmtpStateMachine
unfolding common_state_machine client_state_machine server_state_machine
init_state_machine tcp_role =
    common_state_machine
      (if tcp_role == "client" then client_state_machine else server_state_machine)

abbrev pub contains : FmtpEvent → List FmtpEvent → Bool
contains event [] = false
contains event (e ∷ es) = e == event || contains event es

-- The body of the loop over the next states: the inner loop finds the event or goes on.
abbrev pub leads : FmtpEvent → FmtpState × List FmtpEvent → Option FmtpState
leads event (next, events) = if contains event events then some next else none

abbrev pub next_in : FmtpEvent → Option Targets → FmtpState
next_in event none = empt
next_in event (some targets) = Option.get_or (range_return (leads event) targets) empt

unfoldable pub get_next_state : FmtpStateMachine → FmtpState → FmtpEvent → FmtpState
unfolding lookup range_return
get_next_state m cur_state cur_event = next_in cur_event (lookup cur_state m)

-- `empt` makes no transition.
abbrev pub advance : FmtpStateMachine → FmtpState → FmtpEvent → FmtpState
advance m s e = let next = get_next_state m s e in if next == empt then s else next

abbrev pub run : FmtpStateMachine → FmtpState → List FmtpEvent → FmtpState
run m s [] = s
run m s (e ∷ es) = run m (advance m s e) es
