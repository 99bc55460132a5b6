-- ===== src/Protocol/Event.antt =====
-- fmtp/fmtp_event.go: the events that drive the state machine, and their names.
use mathlib.Core.Option
use fmtp.Prelude.{
  ℕ, zero, suc, String, ◌≡◌, refl, ◌↔◌, true, Option, none, some, [], ◌∷◌, nat_beq, enum_beq_iff,
  Eq, ◌==◌, if◌then◌else◌, string_eq, GoMap, lookup, range_return,
}

-- `none_event` is the `None` of the source, its -1.
pub data FmtpEvent : Type 0 where
  l_setup r_setup tc_setup l_disconnect r_disconnect tc_disconnect : FmtpEvent
  l_data l_shutdown l_startup r_data r_accept r_reject r_id_valid r_id_invalid : FmtpEvent
  r_heartbeat r_shutdown r_startup ts_timeout tr_timeout ti_timeout : FmtpEvent
  disable enable none_event : FmtpEvent

-- The `iota` values, with 22 for -1.
abbrev ordinal : FmtpEvent → ℕ
ordinal l_setup = 0
ordinal r_setup = 1
ordinal tc_setup = 2
ordinal l_disconnect = 3
ordinal r_disconnect = 4
ordinal tc_disconnect = 5
ordinal l_data = 6
ordinal l_shutdown = 7
ordinal l_startup = 8
ordinal r_data = 9
ordinal r_accept = 10
ordinal r_reject = 11
ordinal r_id_valid = 12
ordinal r_id_invalid = 13
ordinal r_heartbeat = 14
ordinal r_shutdown = 15
ordinal r_startup = 16
ordinal ts_timeout = 17
ordinal tr_timeout = 18
ordinal ti_timeout = 19
ordinal disable = 20
ordinal enable = 21
ordinal none_event = 22

abbrev of_ordinal : ℕ → FmtpEvent
of_ordinal zero = l_setup
of_ordinal (suc zero) = r_setup
of_ordinal (suc (suc zero)) = tc_setup
of_ordinal (suc (suc (suc zero))) = l_disconnect
of_ordinal (suc (suc (suc (suc zero)))) = r_disconnect
of_ordinal (suc (suc (suc (suc (suc zero))))) = tc_disconnect
of_ordinal (suc (suc (suc (suc (suc (suc zero)))))) = l_data
of_ordinal (suc (suc (suc (suc (suc (suc (suc zero))))))) = l_shutdown
of_ordinal (suc (suc (suc (suc (suc (suc (suc (suc zero)))))))) = l_startup
of_ordinal (suc (suc (suc (suc (suc (suc (suc (suc (suc zero))))))))) = r_data
of_ordinal (suc (suc (suc (suc (suc (suc (suc (suc (suc (suc zero)))))))))) = r_accept
of_ordinal (suc (suc (suc (suc (suc (suc (suc (suc (suc (suc (suc zero))))))))))) = r_reject
of_ordinal (suc (suc (suc (suc (suc (suc (suc (suc (suc (suc (suc (suc zero)))))))))))) = r_id_valid
of_ordinal (suc (suc (suc (suc (suc (suc (suc (suc (suc (suc (suc (suc (suc zero))))))))))))) =
    r_id_invalid
of_ordinal
      (suc (suc (suc (suc (suc (suc (suc (suc (suc (suc (suc (suc (suc (suc zero)))))))))))))) =
    r_heartbeat
of_ordinal
      (suc
        (suc (suc (suc (suc (suc (suc (suc (suc (suc (suc (suc (suc (suc (suc zero))))))))))))))) =
    r_shutdown
of_ordinal
      (suc (
        suc (
          suc
            (suc (suc (suc (suc (suc (suc (suc (suc (suc (suc (suc (suc (suc zero)))))))))))))))) =
    r_startup
of_ordinal
      (suc (
        suc (
          suc (
            suc (
              suc
                (suc (suc (suc (suc (suc (suc (suc (suc (suc (suc (suc (suc zero))))))))))))))))) =
    ts_timeout
of_ordinal
      (suc (
        suc (
          suc (
            suc (
              suc (
                suc (
                  suc
                    (suc (suc (suc (suc (suc (suc (suc (suc (suc (suc (suc zero)))))))))))))))))) =
    tr_timeout
of_ordinal
      (suc (
        suc (
          suc (
            suc (
              suc (
                suc (
                  suc (
                    suc (
                      suc
                        (suc (suc (suc (suc (suc (suc (suc (suc (suc (suc zero))))))))))))))))))) =
    ti_timeout
of_ordinal
      (suc (
        suc (
          suc (
            suc (
              suc (
                suc (
                  suc (
                    suc (
                      suc (
                        suc (
                          suc
                            (suc (suc (suc (suc (suc (suc (suc (suc (suc zero)))))))))))))))))))) =
    disable
of_ordinal
      (suc (
        suc (
          suc (
            suc (
              suc (
                suc (
                  suc (
                    suc (
                      suc (
                        suc (
                          suc (
                            suc (
                              suc
                                (suc (suc (suc (suc (suc (suc (suc (suc zero))))))))))))))))))))) =
    enable
of_ordinal _ = none_event

of_ordinal-ordinal : (e : FmtpEvent) → of_ordinal (ordinal e) ≡ e
of_ordinal-ordinal l_setup = refl
of_ordinal-ordinal _ = refl

pub FmtpEvent-beq_iff : (a b : FmtpEvent) → (nat_beq (ordinal a) (ordinal b) ≡ true) ↔ (a ≡ b)
FmtpEvent-beq_iff = enum_beq_iff ordinal of_ordinal of_ordinal-ordinal

instance abbrev pub event_eq : Eq FmtpEvent
event_eq = record { beq = λ a b. nat_beq (ordinal a) (ordinal b); beq_iff = FmtpEvent-beq_iff }

pub FmtpEvent-set : IsSet FmtpEvent
FmtpEvent-set = hlevel

abbrev pub fmtp_event_map : GoMap FmtpEvent String
fmtp_event_map =
    (l_setup, "l_setup")
    ∷ (r_setup, "r_setup")
    ∷ (tc_setup, "tc_setup")
    ∷ (l_disconnect, "l_disconnect")
    ∷ (r_disconnect, "r_disconnect")
    ∷ (tc_disconnect, "tc_disconnect")
    ∷ (l_data, "l_data")
    ∷ (l_shutdown, "l_shutdown")
    ∷ (l_startup, "l_startup")
    ∷ (r_data, "r_data")
    ∷ (r_accept, "r_accept")
    ∷ (r_reject, "r_reject")
    ∷ (r_id_valid, "r_id_valid")
    ∷ (r_id_invalid, "r_id_invalid")
    ∷ (r_heartbeat, "r_heartbeat")
    ∷ (r_shutdown, "r_shutdown")
    ∷ (r_startup, "r_startup")
    ∷ (ts_timeout, "ts_timeout")
    ∷ (tr_timeout, "tr_timeout")
    ∷ (ti_timeout, "ti_timeout")
    ∷ (disable, "disable")
    ∷ (enable, "enable")
    ∷ []

unfoldable pub to_string : FmtpEvent → String
unfolding lookup
to_string e = Option.get_or (lookup e fmtp_event_map) "none"

abbrev pub named : String → FmtpEvent × String → Option FmtpEvent
named text (e, name) = if name == text then some e else none

-- `FromString` over the map in the order that `range` visits it.
unfoldable pub from_string_in : GoMap FmtpEvent String → String → FmtpEvent
from_string_in m text = Option.get_or (range_return (named text) m) none_event

unfoldable pub from_string : String → FmtpEvent
unfolding range_return from_string_in
from_string text = from_string_in fmtp_event_map text
