-- ===== src/Scenarios/Logger.antt =====
-- The logger of the chief at concrete calls.
use fmtp.Prelude.{◌≡◌, arith, some, List, [], ◌∷◌, codes, All, length}
use fmtp.Chief.Logger.{
  Severities, LogCall, other_value, LoggerCall, printf_debug, printf_err, set_min_severity,
  new_chief_logger, logger_calls,
}
use fmtp.Chief.Logger.Severity.{IsNoError, above_least, logger_calls-IsNoError}

abbrev severities : Severities
severities = record { sev_debug = 1; sev_info = 2; sev_warning = 3; sev_error = 4 }

abbrev call : LogCall
call = record {
  text = codes "no route to host";
  first = some other_value;
  now = codes "2022-02-18 15:49:00.000";
  ip_addr = codes "10.0.0.2";
}

-- The last call is the first one. The debug text is at the least severity, and is not journaled.
abbrev calls : List LoggerCall
calls = printf_debug call ∷ set_min_severity 1 ∷ printf_err call ∷ []

one_journaled : above_least severities calls ≡ 1
one_journaled = omega arith

logger_calls-IsNoError_example :
    (length (logger_calls severities calls (new_chief_logger severities)).log_msg_chan
      ≡ above_least severities calls)
    × All IsNoError (logger_calls severities calls (new_chief_logger severities)).log_msg_chan
logger_calls-IsNoError_example = logger_calls-IsNoError severities calls (tt, (tt, (tt, tt)))
