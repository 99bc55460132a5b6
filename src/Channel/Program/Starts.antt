-- ===== src/Channel/Program/Starts.antt =====
-- With what settings the program starts a controller.
use fmtp.Prelude.{◌≡◌, refl, All, Option, none, some, List, [], ◌∷◌, ◌++◌}
use fmtp.Channel.Settings.{ChannelSettings, SettingsError, check_settings}
use fmtp.Chief.Protocol.{settings_answer, fdps_message}
use fmtp.Channel.Program.{
  Program, ProgramInput, from_chief, unreadable_from_chief, log_given, connection_given_up,
  state_given, data_given, checked, create_log_message, program_step, program_run,
}

-- Settings that `CheckSettings` has accepted, as they are after it.
abbrev pub IsChecked : ChannelSettings → Type 0
IsChecked setts =
    (given : ChannelSettings) × (setts ≡ (check_settings given).0)
    × ((check_settings given).1 ≡ none)

All-last :
    (list : List ChannelSettings) (setts : ChannelSettings)
    → All IsChecked list
    → IsChecked setts
    → All IsChecked (list ++ setts ∷ [])
All-last [] setts h k = (k, tt)
All-last (first ∷ list) setts (h, hs) k = (h, All-last list setts hs k)

checked-IsChecked :
    (given : ChannelSettings) (p : Program) (error : Option SettingsError)
    → (check_settings given).1 ≡ error
    → p.channel_setts ≡ (check_settings given).0
    → All IsChecked p.controllers
    → All IsChecked (checked error p).controllers
unfolding checked create_log_message
checked-IsChecked given p (some error) e same h = h
checked-IsChecked given p none e same h = All-last p.controllers p.channel_setts h (given, same, e)

-- Whatever comes to the program, a controller is started only with settings that `CheckSettings` has
-- accepted.
pub program_run-IsChecked :
    (inputs : List ProgramInput) (p : Program)
    → All IsChecked p.controllers
    → All IsChecked (program_run inputs p).controllers
unfolding program_run program_step create_log_message
program_run-IsChecked [] p h = h
program_run-IsChecked (from_chief (settings_answer setts) ∷ inputs) p h =
    program_run-IsChecked inputs _ (
      checked-IsChecked setts (record p { channel_setts = (check_settings setts).0 })
        (check_settings setts).1 refl refl h)
program_run-IsChecked (from_chief (fdps_message msg) ∷ inputs) p h =
    program_run-IsChecked inputs _ h
program_run-IsChecked (unreadable_from_chief cur_data ∷ inputs) p h =
    program_run-IsChecked inputs _ h
program_run-IsChecked (log_given entry ∷ inputs) p h = program_run-IsChecked inputs _ h
program_run-IsChecked (connection_given_up ∷ inputs) p h = program_run-IsChecked inputs _ h
program_run-IsChecked (state_given state ∷ inputs) p h = program_run-IsChecked inputs _ h
program_run-IsChecked (data_given msg ∷ inputs) p h = program_run-IsChecked inputs _ h
