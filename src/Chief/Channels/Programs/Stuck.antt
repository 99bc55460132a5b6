-- ===== src/Chief/Channels/Programs/Stuck.antt =====
-- A channel whose entry no goroutine listens for.
use fmtp.Prelude.{
  ℕ, suc, ◌<◌, ◌≡◌, refl, sym, ap, ◌∙◌, Bool, true, false, ◌⊎◌, inl, inr, Option, none, some, List,
  [], ◌∷◌, ◌++◌, ◌==◌, nat_eq, int_eq, if◌then◌else◌, if_holds, ℤ, lookup, arith, All, All-append,
}
use mathlib.Core.Option.{map as map_option}
use fmtp.Chief.Channels.Programs.{
  Runner, WorkPlace, at_select, sends_kill, waits_killer, panicked, Programs, is_among, pick_runner,
  close_chan, stop_next, start_program, forget_program, end_program, kill_runner, take_kill,
  take_killer, stop_programs, send_closed, ProgramsEvent, program_started, program_ended,
  kill_taken, killer_taken, programs_stopped, closed_sent, programs_step, programs_run,
}

abbrev sent_to : WorkPlace → ℕ
sent_to at_select = 0
sent_to (sends_kill id kill_chan ids) = kill_chan
sent_to (waits_killer id kill_chan ids) = 0
sent_to panicked = 0

module _ (kill_chan : ℕ) where
  abbrev IsOther : Runner → Type 0
  IsOther r = (r.kill_chan == kill_chan) ≡ false

  -- No goroutine takes from the channel, and none will be made for it.
  abbrev pub IsDeaf : Programs → Type 0
  IsDeaf p = (kill_chan < p.next_kill_chan) × All IsOther p.runners

  abbrev Picked : ℕ → Option (Runner × List Runner) → Type 0
  Picked asked none = Unit
  Picked asked (some (r, others)) = IsOther r × All IsOther others × ((r.kill_chan == asked) ≡ true)

  pick_runner-Picked :
      (asked : ℕ) (rs : List Runner) → All IsOther rs → Picked asked (pick_runner asked rs)
  pick_runner-Picked asked [] h = tt
  pick_runner-Picked asked (r ∷ rs) (h, hs) =
      if_holds (Picked asked) (r.kill_chan == asked) _ _ (λ same. (h, hs, same))
        (λ other. with_first (pick_runner asked rs) (pick_runner-Picked asked rs hs))
    where
      with_first :
          (o : Option (Runner × List Runner))
          → Picked asked o
          → Picked asked (map_option (λ (picked, others). (picked, r ∷ others)) o)
      with_first none k = tt
      with_first (some (picked, others)) (k, ks, same) = (k, (h, ks), same)

  module _ (id : ℤ) (ids : List ℤ) where
    -- The goroutine of `Work` sends to the channel, or the program has panicked.
    abbrev pub IsStuck : Programs → Type 0
    IsStuck p = (p.work ≡ sends_kill id kill_chan ids) ⊎ (p.work ≡ panicked)

    abbrev IsLost : Programs → Type 0
    IsLost p = IsDeaf p × IsStuck p

    close_chan-IsLost : (closed : ℕ) (p : Programs) → IsLost p → IsLost (close_chan closed p)
    close_chan-IsLost closed p (deaf, stuck) =
        if_holds IsLost (is_among closed p.closed) _ _ (λ again. (deaf, inr refl))
          (λ first. (deaf, stuck))

    start_program-IsLost :
        (other : ℤ) (launched : Bool) (p : Programs)
        → IsLost p
        → IsLost (start_program other launched p)
    unfolding start_program
    start_program-IsLost other launched p ((low, deaf), stuck) =
        ((omega (arith, low), runners launched), stuck)
      where
        runners :
            (b : Bool)
            → All IsOther (
                if b
                then p.runners ++ (record { kill_chan = p.next_kill_chan; id = other }) ∷ []
                else p.runners)
        runners true = All-append IsOther p.runners _ deaf (ground (arith, low), tt)
        runners false = deaf

    end_program-IsLost :
        (failed : Bool) (asked : ℕ) (o : Option (Runner × List Runner)) (p : Programs)
        → Picked asked o
        → IsLost p
        → IsLost (end_program failed o p)
    unfolding end_program forget_program
    end_program-IsLost failed asked none p picked lost = lost
    end_program-IsLost failed asked (some (r, others)) p (first, rest, same) ((low, deaf), stuck) =
        if_holds IsLost failed _ (record p { runners = others })
          (λ error. forgotten (lookup r.id p.bin_map)) (λ clean. ((low, rest), stuck))
      where
        forgotten :
            (entry : Option ℕ) → IsLost (forget_program r.id entry (record p { runners = others }))
        forgotten none = ((low, rest), stuck)
        forgotten (some closed) = close_chan-IsLost closed _ ((low, rest), stuck)

    take_kill-IsLost :
        (asked : ℕ) (o : Option (Runner × List Runner)) (p : Programs)
        → Picked asked o
        → IsLost p
        → IsLost (take_kill asked o p)
    unfolding take_kill
    take_kill-IsLost asked none p picked lost = lost
    take_kill-IsLost asked (some (r, others)) p (first, rest, same) ((low, deaf), stuck) =
        killed p.work refl
      where
        woken : IsLost (
            if is_among asked p.closed
            then record p { runners = others; killers = suc p.killers }
            else p)
        woken =
            if_holds IsLost (is_among asked p.closed) _ p (λ closed. ((low, rest), stuck))
              (λ open_still. ((low, deaf), stuck))

        not_sent :
            (i : ℤ) (s : ℕ) (js : List ℤ)
            → p.work ≡ sends_kill i s js
            → (p.work ≡ sends_kill id kill_chan ids) ⊎ (p.work ≡ panicked)
            → (s == asked) ≡ true
            → ⊥
        not_sent i s js e (inl w) asks = ground (arith, first, same, asks, ap sent_to (sym e ∙ w))
        not_sent i s js e (inr w) asks = cc

        killed : (place : WorkPlace) → p.work ≡ place → IsLost (kill_runner asked place others p)
        killed at_select e = woken
        killed (sends_kill i s js) e =
            if_holds IsLost (s == asked) _ _ (λ asks. absurd (not_sent i s js e stuck asks))
              (λ other. woken)
        killed (waits_killer i s js) e = woken
        killed panicked e = woken

    -- Nobody takes what was sent, so the goroutine of `Work` does not go on.
    take_killer-IsLost :
        (removed : Bool) (place : WorkPlace) (p : Programs)
        → p.work ≡ place
        → IsLost p
        → IsLost (take_killer removed place p)
    unfolding take_killer
    take_killer-IsLost removed at_select p e lost = lost
    take_killer-IsLost removed (sends_kill i s js) p e lost = lost
    take_killer-IsLost removed panicked p e lost = lost
    take_killer-IsLost removed (waits_killer i s js) p e (deaf, inl w) = cc
    take_killer-IsLost removed (waits_killer i s js) p e (deaf, inr w) = cc

    stop_programs-IsLost :
        (others : List ℤ) (place : WorkPlace) (p : Programs)
        → p.work ≡ place
        → IsLost p
        → IsLost (stop_programs others place p)
    unfolding stop_programs
    stop_programs-IsLost others at_select p e (deaf, inl w) = cc
    stop_programs-IsLost others at_select p e (deaf, inr w) = cc
    stop_programs-IsLost others (sends_kill i s js) p e lost = lost
    stop_programs-IsLost others (waits_killer i s js) p e lost = lost
    stop_programs-IsLost others panicked p e lost = lost

    send_closed-IsLost :
        (place : WorkPlace) (p : Programs) → IsLost p → IsLost (send_closed place p)
    unfolding send_closed
    send_closed-IsLost at_select p lost = lost
    send_closed-IsLost (sends_kill i s js) p (deaf, stuck) =
        if_holds IsLost (is_among s p.closed) _ p (λ closed. (deaf, inr refl))
          (λ open_still. (deaf, stuck))
    send_closed-IsLost (waits_killer i s js) p lost = lost
    send_closed-IsLost panicked p lost = lost

    programs_step-IsLost :
        (event : ProgramsEvent) (p : Programs) → IsLost p → IsLost (programs_step event p)
    unfolding programs_step
    programs_step-IsLost (program_started other launched) p lost =
        start_program-IsLost other launched p lost
    programs_step-IsLost (program_ended asked failed) p (deaf, stuck) =
        end_program-IsLost failed asked (pick_runner asked p.runners) p
          (pick_runner-Picked asked p.runners deaf.1) (deaf, stuck)
    programs_step-IsLost (kill_taken asked) p (deaf, stuck) =
        take_kill-IsLost asked (pick_runner asked p.runners) p
          (pick_runner-Picked asked p.runners deaf.1) (deaf, stuck)
    programs_step-IsLost (killer_taken removed) p lost =
        take_killer-IsLost removed p.work p refl lost
    programs_step-IsLost (programs_stopped others) p lost =
        stop_programs-IsLost others p.work p refl lost
    programs_step-IsLost closed_sent p lost = send_closed-IsLost p.work p lost

    programs_run-IsLost :
        (events : List ProgramsEvent) (p : Programs) → IsLost p → IsLost (programs_run events p)
    unfolding programs_run
    programs_run-IsLost [] p lost = lost
    programs_run-IsLost (event ∷ events) p lost =
        programs_step-IsLost event _ (programs_run-IsLost events p lost)

    -- Where the entry of a channel names a `killChan` for which no goroutine listens, and the
    -- goroutine of `Work` is told at its `select` to stop that channel: whatever happens then, it waits
    -- forever for somebody to take from that `killChan`, unless the program panics. It never handles
    -- anything again.
    pub programs_run-IsStuck :
        (events : List ProgramsEvent) (p : Programs)
        → IsDeaf p
        → lookup id p.bin_map ≡ some kill_chan
        → p.work ≡ at_select
        → IsStuck (programs_run events (programs_step (programs_stopped (id ∷ ids)) p))
    unfolding programs_step stop_programs stop_next
    programs_run-IsStuck events p deaf entry selects =
        (programs_run-IsLost events _ (told p.work selects)).1
      where
        told : (place : WorkPlace) → place ≡ at_select → IsLost (stop_programs (id ∷ ids) place p)
        told at_select e = (deaf, inl (rw (stop_programs, stop_next, entry) refl))
        told (sends_kill i s js) e = cc
        told (waits_killer i s js) e = cc
        told panicked e = cc
