-- ===== src/Protocol/Names.antt =====
-- The names of states, events and packet types are read back, in whatever order the maps are visited.
use mathlib.Core.List.{Perm}
use mathlib.Core.Option
use fmtp.Prelude.{
  ℕ, ◌≤◌, String, ◌≡◌, refl, ◌∙◌, ap, true, arith, leb, GoMap, answers, answers-perm,
  range_return-perm,
}
use fmtp.Protocol.State
use fmtp.Protocol.State.{FmtpState, idle, fmtp_state_map, FmtpState-set}
use fmtp.Protocol.Event
use fmtp.Protocol.Event.{FmtpEvent, l_setup, fmtp_event_map, FmtpEvent-set}

state_names :
    (s : FmtpState) → leb (answers (State.named (State.to_string s)) fmtp_state_map) 1 ≡ true
unfolding State.to_string
state_names idle = refl
state_names _ = refl

state_first : (s : FmtpState) → State.from_string (State.to_string s) ≡ s
unfolding State.to_string State.from_string
state_first idle = refl
state_first _ = refl

leb→le : (n : ℕ) → leb n 1 ≡ true → n ≤ 1
leb→le n h = ground arith

-- The name of a state is read back as that state.
state_from_string-to_string :
    (s : FmtpState) (m : GoMap FmtpState String)
    → Perm m fmtp_state_map
    → State.from_string_in m (State.to_string s) ≡ s
unfolding State.from_string
state_from_string-to_string s m p =
    ap (λ o. Option.get_or o FmtpState.empt)
      (range_return-perm (State.named (State.to_string s)) FmtpState-set p
        (rw (answers-perm (State.named (State.to_string s)) p) (leb→le _ (state_names s))))
    ∙ state_first s

event_names :
    (e : FmtpEvent) → leb (answers (Event.named (Event.to_string e)) fmtp_event_map) 1 ≡ true
unfolding Event.to_string
event_names l_setup = refl
event_names _ = refl

event_first : (e : FmtpEvent) → Event.from_string (Event.to_string e) ≡ e
unfolding Event.to_string Event.from_string
event_first l_setup = refl
event_first _ = refl

-- The name of an event is read back as that event, "none" as the event of no name.
event_from_string-to_string :
    (e : FmtpEvent) (m : GoMap FmtpEvent String)
    → Perm m fmtp_event_map
    → Event.from_string_in m (Event.to_string e) ≡ e
unfolding Event.from_string
event_from_string-to_string e m p =
    ap (λ o. Option.get_or o FmtpEvent.none_event)
      (range_return-perm (Event.named (Event.to_string e)) FmtpEvent-set p
        (rw (answers-perm (Event.named (Event.to_string e)) p) (leb→le _ (event_names e))))
    ∙ event_first e
