-- ===== src/Chief/Logger/Severity.antt =====
-- With what severity a text is journaled.
use fmtp.Prelude.{
  ℕ, ◌≡◌, refl, sym, ◌∙◌, ◌≢◌, inl, inr, Bool-cases, Option, none, some, List, [], ◌∷◌, ◌+◌, ap,
  length, length-append, Bytes, bytes_eq, ltb, if◌then◌else◌, All, All-append, arith,
}
use fmtp.Storage.Message.{
  LogMessage, log_cntrl_sdt, severity_debug, severity_info, severity_warning, severity_error,
}
use fmtp.Chief.Logger.{
  Severities, ChiefLogger, LogArg, log_message, other_value, LogCall, LoggerCall, printf,
  printf_debug, printf_info, printf_warn, printf_err, set_min_severity, made_msg,
  process_new_log_msg, new_chief_logger, logger_call, logger_calls,
}

-- The first value that is formatted, if there is one, is not itself a message of the journal.
abbrev pub IsOrdinary : Option LogArg → Type 0
IsOrdinary none = Unit
IsOrdinary (some other_value) = Unit
IsOrdinary (some (log_message msg)) = ⊥

abbrev pub IsText : LoggerCall → Type 0
IsText (printf call) = IsOrdinary call.first
IsText (printf_debug call) = IsOrdinary call.first
IsText (printf_info call) = IsOrdinary call.first
IsText (printf_warn call) = IsOrdinary call.first
IsText (printf_err call) = IsOrdinary call.first
IsText (set_min_severity sev) = Unit

-- A message of the journal that is no error.
abbrev pub IsNoError : LogMessage → Type 0
IsNoError msg = msg.severity ≢ severity_error

made_msg-severity :
    (fmtp_sev text now : Bytes) (first : Option LogArg)
    → IsOrdinary first
    → (made_msg fmtp_sev text now first).severity ≡ fmtp_sev
unfolding log_cntrl_sdt
made_msg-severity fmtp_sev text now none h = refl
made_msg-severity fmtp_sev text now (some other_value) h = refl
made_msg-severity fmtp_sev text now (some (log_message msg)) h = absurd h

process_new_log_msg-IsNoError :
    (sev : ℕ) (fmtp_sev : Bytes) (call : LogCall) (cl : ChiefLogger)
    → fmtp_sev ≢ severity_error
    → IsOrdinary call.first
    → All IsNoError cl.log_msg_chan
    → All IsNoError (process_new_log_msg sev fmtp_sev call cl).log_msg_chan
unfolding process_new_log_msg
process_new_log_msg-IsNoError sev fmtp_sev call cl other text h =
    elim (Bool-cases (ltb cl.min_severity sev)) [
      | inl above ↦ rw above (All-append IsNoError cl.log_msg_chan (_ ∷ []) h (fresh, tt))
      | inr below ↦ rw below h
    ]
  where
    fresh : (made_msg fmtp_sev call.text call.now call.first).severity ≢ severity_error
    fresh e = other (sym (made_msg-severity fmtp_sev call.text call.now call.first text) ∙ e)

debug-ne-error : severity_debug ≢ severity_error
debug-ne-error e = cc

info-ne-error : severity_info ≢ severity_error
info-ne-error e = cc

warning-ne-error : severity_warning ≢ severity_error
warning-ne-error e = cc

module _ (sevs : Severities) where
  logger_call-IsNoError :
      (call : LoggerCall) (cl : ChiefLogger)
      → IsText call
      → All IsNoError cl.log_msg_chan
      → All IsNoError (logger_call sevs call cl).log_msg_chan
  unfolding logger_call
  logger_call-IsNoError (printf call) cl text h =
      process_new_log_msg-IsNoError sevs.sev_info severity_info call cl info-ne-error text h
  logger_call-IsNoError (printf_debug call) cl text h =
      process_new_log_msg-IsNoError sevs.sev_debug severity_debug call cl debug-ne-error text h
  logger_call-IsNoError (printf_info call) cl text h =
      process_new_log_msg-IsNoError sevs.sev_info severity_info call cl info-ne-error text h
  logger_call-IsNoError (printf_warn call) cl text h =
      process_new_log_msg-IsNoError sevs.sev_warning severity_warning call cl warning-ne-error text
        h
  logger_call-IsNoError (printf_err call) cl text h =
      process_new_log_msg-IsNoError sevs.sev_error severity_info call cl info-ne-error text h
  logger_call-IsNoError (set_min_severity sev) cl text h = h

  -- The severity with which a method reports.
  abbrev pub severity_of : LoggerCall → Option ℕ
  severity_of (printf call) = some sevs.sev_info
  severity_of (printf_debug call) = some sevs.sev_debug
  severity_of (printf_info call) = some sevs.sev_info
  severity_of (printf_warn call) = some sevs.sev_warning
  severity_of (printf_err call) = some sevs.sev_error
  severity_of (set_min_severity sev) = none

  -- The least severity after calls, the newest first.
  abbrev pub least : List LoggerCall → ℕ
  least [] = sevs.sev_info
  least (set_min_severity sev ∷ calls) = sev
  least (_ ∷ calls) = least calls

  abbrev pub one_above : ℕ → Option ℕ → ℕ
  one_above low none = 0
  one_above low (some sev) = if ltb low sev then 1 else 0

  -- How many calls report above the least severity of their moment.
  abbrev pub above_least : List LoggerCall → ℕ
  above_least [] = 0
  above_least (call ∷ calls) = one_above (least calls) (severity_of call) + above_least calls

  process_new_log_msg-count :
      (sev : ℕ) (fmtp_sev : Bytes) (call : LogCall) (cl : ChiefLogger) (low : ℕ)
      → cl.min_severity ≡ low
      → (length (process_new_log_msg sev fmtp_sev call cl).log_msg_chan
          ≡ one_above low (some sev) + length cl.log_msg_chan)
        × ((process_new_log_msg sev fmtp_sev call cl).min_severity ≡ low)
  unfolding process_new_log_msg
  process_new_log_msg-count sev fmtp_sev call cl low e =
      elim (Bool-cases (ltb cl.min_severity sev)) [
        | inl above ↦ rw (← e, above) (omega (arith, length-append cl.log_msg_chan (_ ∷ [])), refl)
        | inr below ↦ rw (← e, below) (omega arith, refl)
      ]

  -- The journal after one more call by a method.
  next_count :
      (sev : ℕ) (fmtp_sev : Bytes) (call : LogCall) (calls : List LoggerCall)
      → (length (logger_calls sevs calls (new_chief_logger sevs)).log_msg_chan ≡ above_least calls)
        × ((logger_calls sevs calls (new_chief_logger sevs)).min_severity ≡ least calls)
      → let next =
          process_new_log_msg sev fmtp_sev call (logger_calls sevs calls (new_chief_logger sevs)) in
        (length next.log_msg_chan ≡ one_above (least calls) (some sev) + above_least calls)
        × (next.min_severity ≡ least calls)
  next_count sev fmtp_sev call calls (count, low) =
      let (longer, same) =
        process_new_log_msg-count sev fmtp_sev call
          (logger_calls sevs calls (new_chief_logger sevs)) (least calls) low in
      (longer ∙ ap (λ n. one_above (least calls) (some sev) + n) count, same)

  logger_calls-count :
      (calls : List LoggerCall)
      → (length (logger_calls sevs calls (new_chief_logger sevs)).log_msg_chan ≡ above_least calls)
        × ((logger_calls sevs calls (new_chief_logger sevs)).min_severity ≡ least calls)
  unfolding logger_calls logger_call new_chief_logger
  logger_calls-count [] = (refl, refl)
  logger_calls-count (printf call ∷ calls) =
      next_count sevs.sev_info severity_info call calls (logger_calls-count calls)
  logger_calls-count (printf_debug call ∷ calls) =
      next_count sevs.sev_debug severity_debug call calls (logger_calls-count calls)
  logger_calls-count (printf_info call ∷ calls) =
      next_count sevs.sev_info severity_info call calls (logger_calls-count calls)
  logger_calls-count (printf_warn call ∷ calls) =
      next_count sevs.sev_warning severity_warning call calls (logger_calls-count calls)
  logger_calls-count (printf_err call ∷ calls) =
      next_count sevs.sev_error severity_info call calls (logger_calls-count calls)
  logger_calls-count (set_min_severity sev ∷ calls) =
      ((logger_calls-count calls).0 ∙ sym (omega arith), refl)

  no_errors :
      (calls : List LoggerCall)
      → All IsText calls
      → All IsNoError (logger_calls sevs calls (new_chief_logger sevs)).log_msg_chan
  unfolding logger_calls new_chief_logger
  no_errors [] texts = tt
  no_errors (call ∷ calls) (text, texts) = logger_call-IsNoError call _ text (no_errors calls texts)

  -- Where no call gives a message of the journal as the first value to format, whatever the chief
  -- logs, errors included, with values or without, and whatever least severity is set: the journal
  -- gets one message for each call above the least severity of its moment, and no message that it
  -- gets has the severity of an error.
  pub logger_calls-IsNoError :
      (calls : List LoggerCall)
      → All IsText calls
      → (length (logger_calls sevs calls (new_chief_logger sevs)).log_msg_chan ≡ above_least calls)
        × All IsNoError (logger_calls sevs calls (new_chief_logger sevs)).log_msg_chan
  logger_calls-IsNoError calls texts = ((logger_calls-count calls).0, no_errors calls texts)
