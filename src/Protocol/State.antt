-- ===== src/Protocol/State.antt =====
-- fmtp/fmtp_state.go: the states of a channel and their names.
use mathlib.Core.Option
use fmtp.Prelude.{
  ℕ, zero, suc, String, ◌≡◌, refl, ◌↔◌, true, Option, none, some, [], ◌∷◌, nat_beq, enum_beq_iff,
  Eq, ◌==◌, if◌then◌else◌, string_eq, GoMap, lookup, range_return,
}

-- `Empt`, the -1 of the source, means that no transition is made.
pub data FmtpState : Type 0 where
  idle con_pending sys_id_pending id_pending ready ass_pending data_ready disabled empt : FmtpState

-- The `iota` values, with 8 for -1.
abbrev ordinal : FmtpState → ℕ
ordinal idle = 0
ordinal con_pending = 1
ordinal sys_id_pending = 2
ordinal id_pending = 3
ordinal ready = 4
ordinal ass_pending = 5
ordinal data_ready = 6
ordinal disabled = 7
ordinal empt = 8

abbrev of_ordinal : ℕ → FmtpState
of_ordinal zero = idle
of_ordinal (suc zero) = con_pending
of_ordinal (suc (suc zero)) = sys_id_pending
of_ordinal (suc (suc (suc zero))) = id_pending
of_ordinal (suc (suc (suc (suc zero)))) = ready
of_ordinal (suc (suc (suc (suc (suc zero))))) = ass_pending
of_ordinal (suc (suc (suc (suc (suc (suc zero)))))) = data_ready
of_ordinal (suc (suc (suc (suc (suc (suc (suc zero))))))) = disabled
of_ordinal _ = empt

of_ordinal-ordinal : (s : FmtpState) → of_ordinal (ordinal s) ≡ s
of_ordinal-ordinal idle = refl
of_ordinal-ordinal _ = refl

pub FmtpState-beq_iff : (s t : FmtpState) → (nat_beq (ordinal s) (ordinal t) ≡ true) ↔ (s ≡ t)
FmtpState-beq_iff = enum_beq_iff ordinal of_ordinal of_ordinal-ordinal

instance abbrev pub state_eq : Eq FmtpState
state_eq = record { beq = λ s t. nat_beq (ordinal s) (ordinal t); beq_iff = FmtpState-beq_iff }

pub FmtpState-set : IsSet FmtpState
FmtpState-set = hlevel

abbrev pub fmtp_state_map : GoMap FmtpState String
fmtp_state_map =
    (idle, "idle")
    ∷ (con_pending, "connection_pending")
    ∷ (sys_id_pending, "system_id_pending")
    ∷ (id_pending, "id_pending")
    ∷ (ready, "ready")
    ∷ (ass_pending, "ass_pending")
    ∷ (data_ready, "data_ready")
    ∷ (disabled, "disabled")
    ∷ (empt, "empt")
    ∷ []

unfoldable pub to_string : FmtpState → String
unfolding lookup
to_string s = Option.get_or (lookup s fmtp_state_map) ""

abbrev pub named : String → FmtpState × String → Option FmtpState
named text (s, name) = if name == text then some s else none

-- `FromString` over the map in the order that `range` visits it.
unfoldable pub from_string_in : GoMap FmtpState String → String → FmtpState
from_string_in m text = Option.get_or (range_return (named text) m) empt

unfoldable pub from_string : String → FmtpState
unfolding range_return from_string_in
from_string text = from_string_in fmtp_state_map text
