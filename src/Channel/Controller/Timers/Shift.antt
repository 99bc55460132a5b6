-- ===== src/Channel/Controller/Timers/Shift.antt =====
-- The timers after an event in any state.
use fmtp.Prelude.{◌≡◌, refl, ◌≢◌, Bool, true, false, string_eq}
use fmtp.Protocol.State.{
  FmtpState, idle, con_pending, sys_id_pending, id_pending, ready, ass_pending, data_ready,
  disabled, empt, state_eq,
}
use fmtp.Protocol.Event.{FmtpEvent, event_eq}
use fmtp.Protocol.Machine.Table.{next_state}
use fmtp.Channel.Core.{Recoding, StateController}
use fmtp.Channel.Controller.Timers.{Armed, shift}
use fmtp.Channel.Controller.Timers.Connecting.{
  from_idle, from_con_pending, from_sys_id_pending, from_id_pending,
}
use fmtp.Channel.Controller.Timers.Associating.{from_ready, from_ass_pending, from_data_ready}

disabled_stays : (client : Bool) (e : FmtpEvent) → next_state client disabled e ≡ empt
disabled_stays true e = refl
disabled_stays false e = refl

empt_stays : (client : Bool) (e : FmtpEvent) → next_state client empt e ≡ empt
empt_stays true e = refl
empt_stays false e = refl

module _ (u : Recoding) where
  pub shift-Armed :
      (client : Bool) (s : FmtpState) (e : FmtpEvent) (c : StateController)
      → Armed s c
      → next_state client s e ≢ empt
      → Armed (next_state client s e) (shift u client c s e)
  shift-Armed client idle e c h moves = from_idle u client e c h moves
  shift-Armed client con_pending e c h moves = from_con_pending u client e c h moves
  shift-Armed client sys_id_pending e c h moves = from_sys_id_pending u client e c h moves
  shift-Armed client id_pending e c h moves = from_id_pending u client e c h moves
  shift-Armed client ready e c h moves = from_ready u client e c h moves
  shift-Armed client ass_pending e c h moves = from_ass_pending u client e c h moves
  shift-Armed client data_ready e c h moves = from_data_ready u client e c h moves
  shift-Armed client disabled e c h moves = absurd (moves (disabled_stays client e))
  shift-Armed client empt e c h moves = absurd (moves (empt_stays client e))
