-- ===== src/Protocol/Machine/Order.antt =====
-- `GetNextState` ranges over a Go map, whose order is not fixed.
use mathlib.Core.List.{Perm}
use mathlib.Core.Option
use fmtp.Prelude.{
  ◌≤◌, String, ◌≡◌, refl, ap, Bool, true, false, Option, none, some, arith, ◌==◌, leb, string_eq,
  lookup, answers, answers-perm, range_return-perm,
}
use fmtp.Protocol.State.{
  FmtpState, idle, con_pending, sys_id_pending, id_pending, ready, ass_pending, data_ready,
  disabled, empt, FmtpState-set, state_eq,
}
use fmtp.Protocol.Event.{FmtpEvent, l_setup}
use fmtp.Protocol.Machine.{
  Targets, leads, next_in, role_machine, init_state_machine, get_next_state,
}

abbrev at_most_one : FmtpEvent → Option Targets → Bool
at_most_one e none = true
at_most_one e (some targets) = leb (answers (leads e) targets) 1

role_rows :
    (client : Bool) (s : FmtpState) (e : FmtpEvent)
    → at_most_one e (lookup s (role_machine client)) ≡ true
unfolding init_state_machine lookup
role_rows true idle l_setup = refl
role_rows true con_pending l_setup = refl
role_rows true sys_id_pending l_setup = refl
role_rows true id_pending l_setup = refl
role_rows true ready l_setup = refl
role_rows true ass_pending l_setup = refl
role_rows true data_ready l_setup = refl
role_rows true disabled l_setup = refl
role_rows true empt l_setup = refl
role_rows false idle l_setup = refl
role_rows false con_pending l_setup = refl
role_rows false sys_id_pending l_setup = refl
role_rows false id_pending l_setup = refl
role_rows false ready l_setup = refl
role_rows false ass_pending l_setup = refl
role_rows false data_ready l_setup = refl
role_rows false disabled l_setup = refl
role_rows false empt l_setup = refl
role_rows _ _ _ = refl

at_most_one→le :
    (e : FmtpEvent) (targets : Targets)
    → at_most_one e (some targets) ≡ true
    → answers (leads e) targets ≤ 1
at_most_one→le e targets h = ground arith

-- Whatever order `range` visits the next states in, the same next state is found.
get_next_state-perm :
    (tcp_role : String) (s : FmtpState) (e : FmtpEvent) (targets shuffled : Targets)
    → lookup s (init_state_machine tcp_role) ≡ some targets
    → Perm shuffled targets
    → next_in e (some shuffled) ≡ get_next_state (init_state_machine tcp_role) s e
unfolding get_next_state init_state_machine
get_next_state-perm tcp_role s e targets shuffled row p =
    rw (row, next_in)
      (ap (λ (o : Option FmtpState). Option.get_or o empt)
        (range_return-perm (leads e) FmtpState-set p few))
  where
    few : answers (leads e) shuffled ≤ 1
    few =
        rw (answers-perm (leads e) p)
          (at_most_one→le e targets (rw row at (role_rows (tcp_role == "client") s e)))
