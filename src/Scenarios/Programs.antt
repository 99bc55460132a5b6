-- ===== src/Scenarios/Programs.antt =====
-- The theorem about the programs of the channels at a program that cannot be started.
use fmtp.Prelude.{◌≡◌, refl, true, false, List, [], ◌∷◌, pos, lookup, insert, delete, arith}
use fmtp.Chief.Channels.Programs.{
  Programs, new_programs, ProgramsEvent, program_started, kill_taken, killer_taken,
  programs_stopped, programs_step, programs_run, at_select, start_program, stop_next, take_kill,
  take_killer, stop_programs,
}
use fmtp.Chief.Channels.Programs.Stuck.{IsStuck, programs_run-IsStuck}

-- The second of two programs could not be started.
abbrev half_started : Programs
unfolding programs_run
half_started =
    programs_run (program_started (pos 8) false ∷ program_started (pos 7) true ∷ []) new_programs

abbrev later : List ProgramsEvent
later = program_started (pos 8) true ∷ killer_taken true ∷ kill_taken 0 ∷ []

programs_run-IsStuck_example :
    IsStuck 1
      (pos 8)
      (pos 7 ∷ [])
      (programs_run later (programs_step (programs_stopped (pos 8 ∷ pos 7 ∷ [])) half_started))
unfolding half_started programs_step start_program insert lookup
programs_run-IsStuck_example =
    programs_run-IsStuck 1 (pos 8) (pos 7 ∷ []) later half_started (omega arith, (refl, tt)) refl
      refl

-- A program that runs is stopped.
running_stops :
    (programs_run
      (killer_taken true
        ∷ kill_taken 0
        ∷ programs_stopped (pos 7 ∷ [])
        ∷ program_started (pos 7) true
        ∷ [])
      new_programs).work
    ≡ at_select
unfolding programs_run programs_step start_program insert lookup stop_programs stop_next take_kill
    take_killer delete
running_stops = refl
