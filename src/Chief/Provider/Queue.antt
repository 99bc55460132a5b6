-- ===== src/Chief/Provider/Queue.antt =====
-- The queue of messages for the provider: it is handed over in order, and swept of old messages.
use fmtp.Prelude.{
  ℕ, zero, suc, ◌+◌, ◌*◌, ◌-◌, ◌≤◌, ◌<◌, String, ◌≡◌, refl, sym, ap, ◌∙◌, true, false, Option, none,
  List, [], ◌∷◌, ◌++◌, ◌==◌, if◌then◌else◌, nat_eq, int_eq, ℤ, pos, negsuc, sub_ℕ, ltb, length,
  drop, take-append-drop, length-take, length-drop, drop_all, Bool-cases, inl, inr, arith, All,
}
use mathlib.Core.List.{append-nil}
use fmtp.Chief.Message.{Msg}
use fmtp.Chief.Provider.{
  FmtpGrpcServerImpl, max_msg_to_send, msg_valid_dur, recv_msq, is_old, last_old, remaining,
  clean_old_msg,
}

-- What a call hands over is the front of the queue, at most a thousand messages; the rest stays.
pub recv_msq-msg_to_fdps :
    (host : Option String) (now : ℕ) (s : FmtpGrpcServerImpl)
    → ((recv_msq host now s).1 ++ (recv_msq host now s).0.msg_to_fdps ≡ s.msg_to_fdps)
      × ((length (recv_msq host now s).0.msg_to_fdps ≡ length s.msg_to_fdps - max_msg_to_send)
          × (length (recv_msq host now s).1 ≤ max_msg_to_send))
unfolding recv_msq
recv_msq-msg_to_fdps host now s = elim (Bool-cases (ltb max_msg_to_send (length s.msg_to_fdps))) [
  | inl over ↦ rw over (
    take-append-drop max_msg_to_send s.msg_to_fdps,
    (
      length-drop max_msg_to_send s.msg_to_fdps,
      omega (arith, length-take max_msg_to_send s.msg_to_fdps),
    ),
  )
  | inr few ↦
      rw few (append-nil s.msg_to_fdps, (omega (arith, few_le s few), omega (arith, few_le s few)))
]
  where
    few_le :
        (s : FmtpGrpcServerImpl)
        → ltb max_msg_to_send (length s.msg_to_fdps) ≡ false
        → length s.msg_to_fdps ≤ max_msg_to_send
    few_le s h = ground arith

-- The calls of a provider one after another, with all that they hand over.
abbrev pub collect : List (Option String × ℕ) → FmtpGrpcServerImpl → List Msg
unfolding recv_msq
collect [] s = []
collect ((host, now) ∷ calls) s =
    let (rest, sent) = recv_msq host now s in sent ++ collect calls rest

-- Enough calls hand over the whole queue, each message once and in order.
pub collect-msg_to_fdps :
    (calls : List (Option String × ℕ)) (s : FmtpGrpcServerImpl)
    → length s.msg_to_fdps ≤ length calls * max_msg_to_send
    → collect calls s ≡ s.msg_to_fdps
unfolding collect
collect-msg_to_fdps [] s enough = sym (no_length s.msg_to_fdps enough)
  where
    no_length : (list : List Msg) → length list ≤ 0 → list ≡ []
    no_length [] h = refl
    no_length (val ∷ vals) h = absurd (omega (arith, h))
collect-msg_to_fdps ((host, now) ∷ calls) s enough =
    let split = recv_msq-msg_to_fdps host now s in
    ap (λ more. (recv_msq host now s).1 ++ more)
      (collect-msg_to_fdps calls (recv_msq host now s).0 (omega (arith, split.1.0)))
    ∙ split.0

module _ (as_time : Option ℕ → ℕ) (now : ℕ) where
  -- The queue without the old messages at its front.
  abbrev pub drop_old : List Msg → List Msg
  drop_old [] = []
  drop_old (val ∷ vals) = if is_old as_time now val then drop_old vals else val ∷ vals

  abbrev pub old_count : List Msg → ℕ
  old_count [] = 0
  old_count (val ∷ vals) = if is_old as_time now val then suc (old_count vals) else 0

  abbrev last_of : ℕ → ℤ → ℕ → ℤ
  last_of idx max_idx zero = max_idx
  last_of idx max_idx (suc n) = pos (idx + n)

  last_of_next :
      (idx n : ℕ) (max_idx : ℤ) → last_of (suc idx) (pos idx) n ≡ last_of idx max_idx (suc n)
  last_of_next idx zero max_idx = ap pos (omega arith)
  last_of_next idx (suc n) max_idx = ap pos (omega arith)

  last_old-old_count :
      (idx : ℕ) (max_idx : ℤ) (list : List Msg)
      → last_old as_time now idx max_idx list ≡ last_of idx max_idx (old_count list)
  last_old-old_count idx max_idx [] = refl
  last_old-old_count idx max_idx (val ∷ vals) = elim (Bool-cases (is_old as_time now val)) [
    | inl old ↦
        rw old
          (last_old-old_count (suc idx) (pos idx) vals ∙ last_of_next idx (old_count vals) max_idx)
    | inr fresh ↦ rw fresh refl
  ]

  old_count-length : (list : List Msg) → old_count list ≤ length list
  old_count-length [] = omega arith
  old_count-length (val ∷ vals) = elim (Bool-cases (is_old as_time now val)) [
    | inl old ↦ rw old (omega (arith, old_count-length vals))
    | inr fresh ↦ rw fresh (omega arith)
  ]

  pub drop-old_count : (list : List Msg) → drop (old_count list) list ≡ drop_old list
  drop-old_count [] = refl
  drop-old_count (val ∷ vals) = elim (Bool-cases (is_old as_time now val)) [
    | inl old ↦ rw old (drop-old_count vals)
    | inr fresh ↦ rw fresh refl
  ]

  remaining-drop :
      (list : List Msg) (n : ℕ)
      → suc n ≤ length list
      → remaining as_time (pos n) list ≡ drop (suc n) list
  remaining-drop list n h = elim (Bool-cases (pos n == sub_ℕ (length list) 1)) [
    | inl last ↦ rw last (sym (drop_all (suc n) list (ground (arith, last, h))))
    | inr more ↦ rw more refl
  ]

  pos_ne : (n : ℕ) → (pos n == negsuc 0) ≡ false
  pos_ne n = ground arith

  swept :
      (s : FmtpGrpcServerImpl) (n : ℕ)
      → old_count s.msg_to_fdps ≡ n
      → (clean_old_msg as_time s now).msg_to_fdps ≡ drop n s.msg_to_fdps
  unfolding clean_old_msg
  swept s zero e = rw (last_old-old_count 0 (negsuc 0) s.msg_to_fdps, e) refl
  swept s (suc n) e =
      rw (last_old-old_count 0 (negsuc 0) s.msg_to_fdps, e, last_of, pos_ne (0 + n))
        (remaining-drop s.msg_to_fdps (0 + n) (omega (arith, old_count-length s.msg_to_fdps))
          ∙ ap (λ (k : ℕ). drop k s.msg_to_fdps) {x = suc (0 + n)} {y = suc n} (omega arith))

  -- The sweep takes away the old messages at the front of the queue, and no other.
  pub clean_old_msg-drop_old :
      (s : FmtpGrpcServerImpl) → (clean_old_msg as_time s now).msg_to_fdps ≡ drop_old s.msg_to_fdps
  clean_old_msg-drop_old s = swept s (old_count s.msg_to_fdps) refl ∙ drop-old_count s.msg_to_fdps

  abbrev pub Unstamped : Msg → Type 0
  Unstamped val = val.rrtime ≡ none

  drop_old-Unstamped :
      (list : List Msg)
      → as_time none ≡ 0
      → msg_valid_dur < now
      → All Unstamped list
      → drop_old list ≡ []
  drop_old-Unstamped [] epoch late none_has = refl
  drop_old-Unstamped (val ∷ vals) epoch late (absent, none_has) =
      rw (unstamped_old val epoch late absent) (drop_old-Unstamped vals epoch late none_has)
    where
      unstamped_old :
          (val : Msg)
          → as_time none ≡ 0
          → msg_valid_dur < now
          → Unstamped val
          → is_old as_time now val ≡ true
      unstamped_old val epoch late absent = rw (absent, epoch) (ground (arith, late))

  -- A message without a time stamp counts as one of 1970, so from thirty seconds after that instant
  -- the sweep empties a queue of such messages.
  pub clean_old_msg-Unstamped :
      (s : FmtpGrpcServerImpl)
      → as_time none ≡ 0
      → msg_valid_dur < now
      → All Unstamped s.msg_to_fdps
      → (clean_old_msg as_time s now).msg_to_fdps ≡ []
  clean_old_msg-Unstamped s epoch late none_has =
      clean_old_msg-drop_old s ∙ drop_old-Unstamped s.msg_to_fdps epoch late none_has
