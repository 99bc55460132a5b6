-- ===== src/Scenarios/Program.antt =====
-- The theorems about the program of a channel and its client applied to concrete events.
use fmtp.Prelude.{
  ◌+◌, ◌*◌, ◌^◌, ◌≤◌, ◌<◌, ◌≡◌, ◌≢◌, ℕ, none, List, [], ◌∷◌, codes, true, false, pos, All, arith,
}
use fmtp.Protocol.State.{empt}
use fmtp.Channel.Settings.{ChannelSettings}
use fmtp.Channel.ChiefClient.{
  client_connected, client_disconnected, minute, ChiefClientEvent, state_changed, message_taken,
  chief_client_run,
}
use fmtp.Channel.ChiefClient.AsksOnce.{asked, chief_client_run-asked}
use fmtp.Channel.ChiefClient.GivesUp.{LostAt, closes-LostAt}
use fmtp.Channel.Program.{Program, ProgramInput, from_chief, program_run}
use fmtp.Channel.Program.Args.{read_args, command, goes_on, read_args-command}
use fmtp.Channel.Program.Starts.{IsChecked, program_run-IsChecked}
use fmtp.Chief.Protocol.{settings_answer}

abbrev setts : ChannelSettings
setts = record {
  id = pos 7;
  version = "1.0.0";
  data_type = "OLDI";
  net_role = "server";
  local_name = codes "UUUU";
  local_atc = codes "UUUWZQZX";
  remote_name = codes "EEEE";
  remote_atc = codes "EEEEZQZX";
  interval_ts = pos 15;
  interval_tr = pos 40;
  interval_ti = pos 60;
  reconnect_timeout = pos 5;
  fmtp_init_state_str = "data_ready";
  fmtp_init_state = empt;
  remote_address = "";
  remote_port = pos 0;
  local_port = pos 8500;
  data_encoding = "UTF-8";
  log_debug = false;
  is_working = true;
  url_address = "127.0.0.1";
  url_path = "channel";
  url_port = pos 13007;
}

read_args-command_example :
    read_args (command (codes "./fmtp_channel") (pos 8080) setts)
    ≡ goes_on (record {
      chief_port = pos 8080;
      channel_id = pos 7;
      local_atc = codes "UUUWZQZX";
      remote_atc = codes "EEEEZQZX";
      data_type = codes "OLDI";
      web_path = codes "channel";
      web_port = pos 13007;
    })
read_args-command_example = read_args-command (codes "./fmtp_channel") (pos 8080) setts

abbrev idle_program : Program
idle_program = record {
  channel_setts = setts;
  to_chief = [];
  controllers = [];
  fmtp_data_send_chan = [];
  exit_code = none;
}

abbrev inputs : List ProgramInput
inputs =
    from_chief (settings_answer setts)
    ∷ from_chief (settings_answer (record setts { interval_ts = pos 40 }))
    ∷ []

program_run-IsChecked_example : All IsChecked (program_run inputs idle_program).controllers
program_run-IsChecked_example = program_run-IsChecked inputs idle_program tt

-- The last event is the first one.
abbrev lost_for_long : List ChiefClientEvent
lost_for_long =
    state_changed client_disconnected (4 * 10 ^ 9)
    ∷ state_changed client_connected (2 * 10 ^ 9)
    ∷ message_taken
    ∷ state_changed client_connected (1 * 10 ^ 9)
    ∷ []

closes-LostAt_example :
    (now : ℕ) × (time : ℕ) × (state_changed client_disconnected (70 * 10 ^ 9)
      ≡ state_changed client_disconnected now)
    × LostAt time lost_for_long
    × (time + minute < now)
unfolding chief_client_run
closes-LostAt_example =
    closes-LostAt (state_changed client_disconnected (70 * 10 ^ 9)) lost_for_long closed
  where
    closed :
        (chief_client_run (state_changed client_disconnected (70 * 10 ^ 9) ∷ lost_for_long)).closes
        ≢ (chief_client_run lost_for_long).closes
    closed e = omega (arith, e)

chief_client_run-asked_example : asked (chief_client_run lost_for_long) ≤ 1
chief_client_run-asked_example = chief_client_run-asked lost_for_long (tt, (tt, (tt, (tt, tt))))
