-- ===== src/Protocol/Machine/Handshake.antt =====
-- The way to `data_ready`: connection, identification, association, in this order.
use mathlib.Core.List.{Sublist, sublist-append_left}
use mathlib.Core.List.Sublist
use mathlib.Core.List.{append-nil, append_assoc}
use fmtp.Prelude.{
  ℕ, zero, suc, ◌+◌, ◌≤◌, String, ◌≡◌, refl, ap, subst, ◌⊎◌, inl, inr, Bool, true, false, ◌&&◌,
  ◌||◌, List, [], ◌∷◌, ◌++◌, arith, ◌==◌, leb, if◌then◌else◌, nat_eq, string_eq, take,
}
use fmtp.Protocol.State.{
  FmtpState, idle, con_pending, sys_id_pending, id_pending, ready, ass_pending, data_ready,
  disabled, empt, state_eq,
}
use fmtp.Protocol.Event.{
  FmtpEvent, l_setup, r_setup, r_accept, r_id_valid, l_startup, r_startup, event_eq,
}
use fmtp.Protocol.Machine.{init_state_machine, advance, run}
use fmtp.Protocol.Machine.Table.{next_state, get_next_state-next_state}

-- The five steps of a client (the flag is true) and of a server.
abbrev pub handshake : Bool → List FmtpEvent
handshake true = l_setup ∷ r_setup ∷ r_id_valid ∷ l_startup ∷ r_startup ∷ []
handshake false = r_setup ∷ r_id_valid ∷ r_accept ∷ l_startup ∷ r_startup ∷ []

-- How many of the steps a state has behind it.
abbrev level : Bool → FmtpState → ℕ
level true con_pending = 1
level true id_pending = 2
level false sys_id_pending = 1
level false id_pending = 2
level _ ready = 3
level _ ass_pending = 4
level _ data_ready = 5
level _ _ = 0

abbrev moved : Bool → FmtpState → FmtpEvent → FmtpState
moved client s e = if next_state client s e == empt then s else next_state client s e

abbrev is_step : List FmtpEvent → ℕ → FmtpEvent → Bool
is_step [] n e = false
is_step (x ∷ xs) zero e = x == e
is_step (x ∷ xs) (suc n) e = is_step xs n e

-- An event takes a channel no step forward, or one step by the event of that step.
abbrev one_step : Bool → FmtpState → FmtpEvent → Bool
one_step client s e =
    leb (level client (moved client s e)) (level client s)
    || (level client (moved client s e) == level client s + 1
        && is_step (handshake client) (level client s) e)

one_step_lem : (client : Bool) (s : FmtpState) (e : FmtpEvent) → one_step client s e ≡ true
one_step_lem true idle l_setup = refl
one_step_lem true con_pending l_setup = refl
one_step_lem true sys_id_pending l_setup = refl
one_step_lem true id_pending l_setup = refl
one_step_lem true ready l_setup = refl
one_step_lem true ass_pending l_setup = refl
one_step_lem true data_ready l_setup = refl
one_step_lem true disabled l_setup = refl
one_step_lem true empt l_setup = refl
one_step_lem false idle l_setup = refl
one_step_lem false con_pending l_setup = refl
one_step_lem false sys_id_pending l_setup = refl
one_step_lem false id_pending l_setup = refl
one_step_lem false ready l_setup = refl
one_step_lem false ass_pending l_setup = refl
one_step_lem false data_ready l_setup = refl
one_step_lem false disabled l_setup = refl
one_step_lem false empt l_setup = refl
one_step_lem _ _ _ = refl

take-le-sublist : (i j : ℕ) (xs : List FmtpEvent) → i ≤ j → Sublist (take i xs) (take j xs)
take-le-sublist zero j xs h = sublist-append_left [] (take j xs)
take-le-sublist (suc i) zero xs h = absurd (omega arith)
take-le-sublist (suc i) (suc j) [] h = sublist-append_left [] []
take-le-sublist (suc i) (suc j) (x ∷ xs) h =
    Sublist.cons-cons x (take-le-sublist i j xs (omega arith))

take_step :
    (n : ℕ) (xs : List FmtpEvent) (e : FmtpEvent)
    → is_step xs n e ≡ true
    → take (suc n) xs ≡ take n xs ++ e ∷ []
take_step n [] e h = cc
take_step zero (x ∷ xs) e h = ap (λ (y : FmtpEvent). y ∷ []) ((event_eq.beq_iff x e).0 h)
take_step (suc n) (x ∷ xs) e h = ap (◌∷◌ x) (take_step n xs e h)

-- What `one_step` says, split.
step_cases :
    (i j : ℕ) (q : Bool)
    → (leb j i || (j == i + 1 && q)) ≡ true
    → (j ≤ i) ⊎ ((j ≡ suc i) × (q ≡ true))
step_cases i j q h = ground arith

moved-sublist :
    (client : Bool) (s : FmtpState) (e : FmtpEvent) (seen : List FmtpEvent)
    → Sublist (take (level client s) (handshake client)) seen
    → Sublist (take (level client (moved client s e)) (handshake client)) (seen ++ e ∷ [])
moved-sublist client s e seen h =
    elim (step_cases (level client s) (level client (moved client s e))
      (is_step (handshake client) (level client s) e) (one_step_lem client s e)) [
        | inl back ↦
            Sublist.trans (take-le-sublist _ _ (handshake client) back)
              (Sublist.trans h (sublist-append_left seen (e ∷ [])))
        | inr (on, at_step) ↦
            rw (on, take_step _ (handshake client) e at_step)
              (Sublist.append h (Sublist.refl (e ∷ [])))
      ]

advance-moved :
    (tcp_role : String) (s : FmtpState) (e : FmtpEvent)
    → advance (init_state_machine tcp_role) s e ≡ moved (tcp_role == "client") s e
advance-moved tcp_role s e = rw (get_next_state-next_state tcp_role s e)

run-sublist :
    (tcp_role : String) (s : FmtpState) (seen es : List FmtpEvent)
    → let client = tcp_role == "client" in
      Sublist (take (level client s) (handshake client)) seen
      → Sublist
          (take (level client (run (init_state_machine tcp_role) s es)) (handshake client))
          (seen ++ es)
run-sublist tcp_role s seen [] h = rw append-nil h
run-sublist tcp_role s seen (e ∷ es) h = rw (← append_assoc seen (e ∷ []) es) (
    run-sublist tcp_role (advance (init_state_machine tcp_role) s e) (seen ++ e ∷ []) es
      (rw (advance-moved tcp_role s e) (moved-sublist (tcp_role == "client") s e seen h)))

none_seen : (client : Bool) → Sublist (take (level client idle) (handshake client)) []
none_seen true = Sublist.refl []
none_seen false = Sublist.refl []

all_seen : (client : Bool) → take (level client data_ready) (handshake client) ≡ handshake client
all_seen true = refl
all_seen false = refl

-- A channel that starts in `idle` and is in `data_ready` has seen the five events of its role's
-- handshake, in this order, whatever else it has seen.
pub data_ready_handshake :
    (tcp_role : String) (es : List FmtpEvent)
    → run (init_state_machine tcp_role) idle es ≡ data_ready
    → Sublist (handshake (tcp_role == "client")) es
data_ready_handshake tcp_role es h =
    subst (λ steps. Sublist steps es) (all_seen (tcp_role == "client"))
      (rw h at (run-sublist tcp_role idle [] es (none_seen (tcp_role == "client"))))
