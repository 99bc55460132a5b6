-- ===== src/Chief/Journal/Bounds.antt =====
-- The journal's queue, and what a tick puts into the stream.
use fmtp.Prelude.{
  ℕ, zero, suc, ◌-◌, ◌≤◌, ◌≡◌, refl, sym, subst, ap, ◌∙◌, true, ◌⊎◌, ◌&&◌, Option, none, some, List,
  [], ◌∷◌, ◌++◌, pos, ltb, length, take, drop, take-append-drop, length-append, length-drop,
  if_holds, if◌then◌else◌, Bool, false, Bool-cases, inl, inr, arith,
}
use mathlib.Core.List.{append-nil, append_assoc}
use fmtp.Channel.Log.{LogEntry}
use fmtp.Chief.Journal.{
  Trimming, x_add, x_add_all, RedisLogController, take_log_msg, push_logs_to_stream, push_cut, cut,
  send_to_stream,
}

-- Where the queue holds at most ten thousand messages, it does so after the next one.
take_log_msg-length :
    (rc : RedisLogController) (msg : LogEntry)
    → length rc.msg_to_send ≤ 10000
    → length (take_log_msg rc msg).msg_to_send ≤ 10000
unfolding take_log_msg
take_log_msg-length rc msg h = elim (Bool-cases (ltb (length rc.msg_to_send) 10000)) [
  | inl room ↦ rw room (grows rc.msg_to_send room)
  | inr full ↦ rw full h
]
  where
    grows :
        (list : List LogEntry) → ltb (length list) 10000 ≡ true → length (list ++ msg ∷ []) ≤ 10000
    grows list room = rw (length-append list (msg ∷ [])) (ground (arith, room))

module _ (redis : Trimming) where
  open redis use {trimmed, trimmed-within, trimmed-zero}

  -- What is in the stream is what has been put into it, without some of the oldest. Where some are
  -- missing, the stream has its maximum of entries.
  abbrev pub Trimmed : ℕ → List LogEntry → List LogEntry → Type 0
  Trimmed max stream all =
      (lost : List LogEntry) × ((lost ++ stream ≡ all)
        × ((lost ≡ []) ⊎ ((1 ≤ max) × (max ≤ length stream))))

  x_add-Trimmed :
      (max : ℕ) (stream all : List LogEntry) (msg : LogEntry)
      → Trimmed max stream all
      → Trimmed max (x_add redis (pos max) stream msg) (all ++ msg ∷ [])
  unfolding x_add
  x_add-Trimmed max stream all msg (lost, (same, full)) =
      let longer = stream ++ msg ∷ [] in
      let n = trimmed (pos max) (length longer) in
      (
        lost ++ take n longer,
        (
          append_assoc lost (take n longer) (drop n longer)
              ∙ ap (λ list. lost ++ list) (take-append-drop n longer)
              ∙ sym (append_assoc lost stream (msg ∷ []))
              ∙ ap (λ list. list ++ msg ∷ []) same,
          still_full n (trimmed-within max (length longer)) (no_limit max) full,
        ),
      )
    where
      no_limit : (m : ℕ) → m ≡ 0 → trimmed (pos m) (length (stream ++ msg ∷ [])) ≡ 0
      no_limit zero e = trimmed-zero (length (stream ++ msg ∷ []))
      no_limit (suc m) e = absurd (omega (arith, e))

      still_full :
          (n : ℕ)
          → n ≤ length (stream ++ msg ∷ []) - max
          → (max ≡ 0 → n ≡ 0)
          → (lost ≡ []) ⊎ ((1 ≤ max) × (max ≤ length stream))
          → (lost ++ take n (stream ++ msg ∷ []) ≡ [])
            ⊎ ((1 ≤ max) × (max ≤ length (drop n (stream ++ msg ∷ []))))
      still_full zero within limit (inl none_lost) = inl (append-nil lost ∙ none_lost)
      still_full zero within limit (inr (some_max, long)) =
          inr (some_max, omega (arith, long, length-append stream (msg ∷ [])))
      still_full (suc n) within limit full =
          inr
            (ground (arith, limit), omega (arith, within, length-drop (suc n) (stream ++ msg ∷ [])))

  x_add_all-Trimmed :
      (max : ℕ) (msgs stream all : List LogEntry)
      → Trimmed max stream all
      → Trimmed max (x_add_all redis (pos max) stream msgs) (all ++ msgs)
  unfolding x_add_all
  x_add_all-Trimmed max [] stream all h = subst (Trimmed max stream) (sym (append-nil all)) h
  x_add_all-Trimmed max (msg ∷ msgs) stream all h =
      subst (Trimmed max (x_add_all redis (pos max) stream (msg ∷ msgs)))
        (append_assoc all (msg ∷ []) msgs)
        (x_add_all-Trimmed max msgs (x_add redis (pos max) stream msg) (all ++ msg ∷ [])
          (x_add-Trimmed max stream all msg h))

  -- The stream and the queue are together those of before, without some of the oldest of the stream,
  -- and there is a next state.
  abbrev pub InOrder : ℕ → List LogEntry → Option RedisLogController → Type 0
  InOrder max all none = ⊥
  InOrder max all (some rc) =
      (put : List LogEntry) × ((put ++ rc.msg_to_send ≡ all) × Trimmed max rc.stream put)

  pushed-InOrder :
      (rc : RedisLogController) (max : ℕ) (to_send rest : List LogEntry)
      → rc.stream_max_count ≡ pos max
      → to_send ++ rest ≡ rc.msg_to_send
      → InOrder max (rc.stream ++ rc.msg_to_send) (push_cut redis rc true (some (to_send, rest)))
  unfolding push_logs_to_stream
  pushed-InOrder rc max to_send rest limit split = (
    rc.stream ++ to_send,
    (
      append_assoc rc.stream to_send rest ∙ ap (λ list. rc.stream ++ list) split,
      subst (λ limit. Trimmed max (x_add_all redis limit rc.stream to_send) (rc.stream ++ to_send))
          (sym limit) (x_add_all-Trimmed max to_send rc.stream rc.stream ([], (refl, inl refl))),
    ),
  )

  -- Where the limit of a round and the maximum of the stream are not negative and Redis takes what it
  -- is given, a tick does not panic, and neither loses nor repeats nor reorders a message: what has
  -- been put into the stream and the queue after it are together the stream and the queue before it,
  -- and the stream holds what has been put into it, where Redis may have trimmed the oldest entries,
  -- but only those beyond a maximum of at least one.
  pub send_to_stream-InOrder :
      (rc : RedisLogController) (max_send max : ℕ)
      → rc.max_send_count ≡ pos max_send
      → rc.stream_max_count ≡ pos max
      → InOrder max (rc.stream ++ rc.msg_to_send) (send_to_stream redis rc true)
  unfolding send_to_stream
  send_to_stream-InOrder rc max_send max round limit =
      if_holds (InOrder max (rc.stream ++ rc.msg_to_send))
        (rc.success_connect && ltb 0 (length rc.msg_to_send)) _ (some rc)
        (λ active.
          subst
            (λ n.
              InOrder max (rc.stream ++ rc.msg_to_send)
                (push_cut redis rc true (cut n rc.msg_to_send)))
            (sym round) (sent (ltb max_send (length rc.msg_to_send))))
        (λ idle. (rc.stream, (refl, ([], (refl, inl refl)))))
    where
      sent :
          (more : Bool)
          → InOrder max (rc.stream ++ rc.msg_to_send) (
              push_cut redis rc true (
                some (
                  if more
                  then (take max_send rc.msg_to_send, drop max_send rc.msg_to_send)
                  else (rc.msg_to_send, []))))
      sent true = pushed-InOrder rc max _ _ limit (take-append-drop max_send rc.msg_to_send)
      sent false = pushed-InOrder rc max rc.msg_to_send [] limit (append-nil rc.msg_to_send)
