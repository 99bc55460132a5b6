-- ===== src/Storage/State.antt =====
-- ora_logger/logger_state/logger_state.go: the state of the logger, a global that its controllers set.
use fmtp.Prelude.{
  Bytes, codes, ◌≡◌, ◌≢◌, ◌↔◌, Bool, true, false, ◌&&◌, ◌==◌, bytes_eq, if◌then◌else◌, arith,
}

abbrev pub state_ok : Bytes
state_ok = codes "ok"

abbrev pub state_error : Bytes
state_error = codes "error"

pub record LoggerState : Type 0 where
  pub logger_id : Bytes
  pub ip_addr : Bytes
  pub common_state : Bytes
  pub ora_connected : Bytes
  pub ora_error : Bytes
  pub redis_connected : Bytes
  pub redis_error : Bytes
  pub metrics_state : Bytes
  pub metrics_error : Bytes

abbrev pub check_common_state : LoggerState → LoggerState
check_common_state s = record s {
  common_state =
      if s.ora_connected == state_ok && s.redis_connected == state_ok && s.metrics_state == state_ok
      then state_ok
      else state_error;
}

unfoldable pub set_ora_state : Bytes → Bytes → LoggerState → LoggerState
set_ora_state conn err s = check_common_state (record s { ora_connected = conn; ora_error = err })

unfoldable pub set_redis_state : Bytes → Bytes → LoggerState → LoggerState
set_redis_state conn err s =
    check_common_state (record s { redis_connected = conn; redis_error = err })

unfoldable pub set_metrics_state : Bytes → Bytes → LoggerState → LoggerState
set_metrics_state state err s =
    check_common_state (record s { metrics_state = state; metrics_error = err })

-- The common state is good exactly when the three parts are.
abbrev pub IsSummed : LoggerState → Type 0
IsSummed s =
    (s.common_state ≡ state_ok)
    ↔ ((s.ora_connected ≡ state_ok) × (s.redis_connected ≡ state_ok) × (s.metrics_state ≡ state_ok))

error-ne-ok : state_error ≢ state_ok
error-ne-ok e = ground (arith, (bytes_eq.beq_iff state_error state_ok).1 e)

sum_of :
    (ora redis metrics : Bool)
    → ((if ora && redis && metrics then state_ok else state_error) ≡ state_ok)
      ↔ ((ora ≡ true) × (redis ≡ true) × (metrics ≡ true))
sum_of true true true = ground arith
sum_of true true false = (λ e. absurd (error-ne-ok e), λ h. ground (arith, h))
sum_of true false metrics = (λ e. absurd (error-ne-ok e), λ h. ground (arith, h))
sum_of false redis metrics = (λ e. absurd (error-ne-ok e), λ h. ground (arith, h))

check_common_state-IsSummed : (s : LoggerState) → IsSummed (check_common_state s)
check_common_state-IsSummed s =
    let sum =
      sum_of (s.ora_connected == state_ok) (s.redis_connected == state_ok)
        (s.metrics_state == state_ok) in
    (
      λ e.
          let (ora, redis, metrics) = sum.0 e in
          (
            (bytes_eq.beq_iff _ _).0 ora,
            (bytes_eq.beq_iff _ _).0 redis,
            (bytes_eq.beq_iff _ _).0 metrics,
          ),
      λ (ora, redis, metrics). sum.1 (
        (bytes_eq.beq_iff _ _).1 ora,
        (bytes_eq.beq_iff _ _).1 redis,
        (bytes_eq.beq_iff _ _).1 metrics,
      ),
    )

-- After each of the three setters the common state is good exactly when the database, Redis and the
-- metrics are, whatever it was before.
set_state-IsSummed :
    (conn err : Bytes) (s : LoggerState)
    → IsSummed (set_ora_state conn err s)
      × IsSummed (set_redis_state conn err s)
      × IsSummed (set_metrics_state conn err s)
unfolding set_ora_state set_redis_state set_metrics_state
set_state-IsSummed conn err s = (
  check_common_state-IsSummed (record s { ora_connected = conn; ora_error = err }),
  check_common_state-IsSummed (record s { redis_connected = conn; redis_error = err }),
  check_common_state-IsSummed (record s { metrics_state = conn; metrics_error = err }),
)
