-- ===== src/Chief/Channels/Programs.antt =====
-- chief_channel/chief_channel_server.go: the goroutines that run the channels' programs, without
-- docker, and the goroutine of `Work` while it stops them.
pub mod Stuck
use fmtp.Prelude.{
  ℕ, zero, suc, ◌-◌, Bool, true, false, ◌&&◌, ◌||◌, Option, none, some, List, [], ◌∷◌, ◌++◌, ◌==◌,
  nat_eq, int_eq, if◌then◌else◌, ltb, ℤ, GoMap, lookup, insert, delete,
}
use mathlib.Core.Option.{map as map_option}

-- A goroutine of `startChannelProcess` that waits for its program or for its `killChan`, which is a
-- number here, as is every `killChan`.
pub record Runner : Type 0 where
  pub kill_chan : ℕ
  pub id : ℤ

-- Where the goroutine of `Work` is: at its `select`, or in `stopChannelsByIDs` with a channel, its
-- `killChan` and the ids that follow, sending to the `killChan` or waiting for the `killerChan`. A
-- panic ends the whole program.
pub data WorkPlace : Type 0 where
  at_select : WorkPlace
  sends_kill waits_killer : ℤ → ℕ → List ℤ → WorkPlace
  panicked : WorkPlace

pub record Programs : Type 0 where
  pub bin_map : GoMap ℤ ℕ
  pub next_kill_chan : ℕ
  pub runners : List Runner
  pub closed : List ℕ
  -- The goroutines that wait to send to the `killerChan`.
  pub killers : ℕ
  pub work : WorkPlace

abbrev pub new_programs : Programs
new_programs = record {
  bin_map = [];
  next_kill_chan = 0;
  runners = [];
  closed = [];
  killers = 0;
  work = at_select;
}

abbrev pub is_among : ℕ → List ℕ → Bool
is_among n [] = false
is_among n (m ∷ ms) = n == m || is_among n ms

abbrev pub pick_runner : ℕ → List Runner → Option (Runner × List Runner)
pick_runner kill_chan [] = none
pick_runner kill_chan (r ∷ rs) =
    if r.kill_chan == kill_chan
    then some (r, rs)
    else map_option (λ (picked, others). (picked, r ∷ others)) (pick_runner kill_chan rs)

-- Closing a channel that is closed panics.
abbrev pub close_chan : ℕ → Programs → Programs
close_chan kill_chan p =
    if is_among kill_chan p.closed
    then record p { work = panicked }
    else record p { closed = kill_chan ∷ p.closed }

-- The next of the channels to stop that has an entry.
unfoldable pub stop_next : List ℤ → GoMap ℤ ℕ → WorkPlace
unfolding lookup
stop_next [] bins = at_select
stop_next (stop_id ∷ ids) bins =
    let rest = stop_next ids bins in
    elim (lookup stop_id bins) [ none ↦ rest | some kill_chan ↦ sends_kill stop_id kill_chan ids ]

-- `startChannelsByIDs` at one channel whose file has been copied; the flag says that the program
-- could be started.
unfoldable pub start_program : ℤ → Bool → Programs → Programs
unfolding insert
start_program id launched p = record p {
  bin_map = insert id p.next_kill_chan p.bin_map;
  next_kill_chan = suc p.next_kill_chan;
  runners =
      if launched
      then p.runners ++ (record { kill_chan = p.next_kill_chan; id = id }) ∷ []
      else p.runners;
}

abbrev pub forget_program : ℤ → Option ℕ → Programs → Programs
unfolding delete
forget_program id none p = p
forget_program id (some kill_chan) p =
    close_chan kill_chan (record p { bin_map = delete id p.bin_map })

-- A program has ended, with an error or without.
unfoldable pub end_program : Bool → Option (Runner × List Runner) → Programs → Programs
unfolding lookup forget_program
end_program failed none p = p
end_program failed (some (r, others)) p =
    if failed
    then forget_program r.id (lookup r.id p.bin_map) (record p { runners = others })
    else record p { runners = others }

-- A runner takes a value from its `killChan`: from the goroutine of `Work`, or because it is closed.
abbrev pub kill_runner : ℕ → WorkPlace → List Runner → Programs → Programs
kill_runner kill_chan (sends_kill id sent_to ids) others p =
    if sent_to == kill_chan
    then record p { runners = others; killers = suc p.killers; work = waits_killer id sent_to ids }
    else if is_among kill_chan p.closed
    then record p { runners = others; killers = suc p.killers }
    else p
kill_runner kill_chan place others p =
    if is_among kill_chan p.closed
    then record p { runners = others; killers = suc p.killers }
    else p

unfoldable pub take_kill : ℕ → Option (Runner × List Runner) → Programs → Programs
take_kill kill_chan none p = p
take_kill kill_chan (some (r, others)) p = kill_runner kill_chan p.work others p

-- A runner's answer. The flag says that the file of the program could be removed.
unfoldable pub take_killer : Bool → WorkPlace → Programs → Programs
unfolding stop_next delete
take_killer removed (waits_killer id kill_chan ids) p =
    if ltb 0 p.killers
    then if removed
      then close_chan kill_chan (record p {
        killers = p.killers - 1;
        bin_map = delete id p.bin_map;
        work = stop_next ids (delete id p.bin_map);
      })
      else record p { killers = p.killers - 1; work = stop_next ids p.bin_map }
    else p
take_killer removed place p = p

-- `stopChannelsByIDs`, which `Work` calls at its `select` only.
unfoldable pub stop_programs : List ℤ → WorkPlace → Programs → Programs
unfolding stop_next
stop_programs ids at_select p = record p { work = stop_next ids p.bin_map }
stop_programs ids place p = p

-- Sending to a closed channel panics.
unfoldable pub send_closed : WorkPlace → Programs → Programs
send_closed (sends_kill id kill_chan ids) p =
    if is_among kill_chan p.closed then record p { work = panicked } else p
send_closed place p = p

-- What may happen next. What cannot happen leaves all as it is.
pub data ProgramsEvent : Type 0 where
  program_started : ℤ → Bool → ProgramsEvent
  program_ended : ℕ → Bool → ProgramsEvent
  kill_taken : ℕ → ProgramsEvent
  killer_taken : Bool → ProgramsEvent
  programs_stopped : List ℤ → ProgramsEvent
  closed_sent : ProgramsEvent

unfoldable pub programs_step : ProgramsEvent → Programs → Programs
unfolding start_program end_program take_kill take_killer stop_programs send_closed
programs_step (program_started id launched) p = start_program id launched p
programs_step (program_ended kill_chan failed) p =
    end_program failed (pick_runner kill_chan p.runners) p
programs_step (kill_taken kill_chan) p = take_kill kill_chan (pick_runner kill_chan p.runners) p
programs_step (killer_taken removed) p = take_killer removed p.work p
programs_step (programs_stopped ids) p = stop_programs ids p.work p
programs_step closed_sent p = send_closed p.work p

-- From the newest event to the oldest.
unfoldable pub programs_run : List ProgramsEvent → Programs → Programs
unfolding programs_step
programs_run [] p = p
programs_run (event ∷ events) p = programs_step event (programs_run events p)
