-- ===== src/Scenarios/Worker.antt =====
-- The chief as a whole at concrete events.
use fmtp.Prelude.{◌*◌, ◌≡◌, true, none, some, List, [], ◌∷◌, ◌++◌, string_eq, int_eq}
use fmtp.Chief.Provider.{second}
use fmtp.Chief.Grpc.{new_oldi_grpc_controller}
use fmtp.Chief.Worker.{
  ChiefWorker, ChiefEvent, settings_passed, from_fdps_passed, to_fdps_passed, ws_received,
  packet_processed, grpc_configured, packet_taken, msg_passed_on, grpc_served, swept, msgs_sent,
  msgs_asked, chief_run,
}
use fmtp.Chief.Worker.ToProvider.{transit, made_in, chief_run-transit}
use fmtp.Chief.Worker.ToChannels.{outward, routed_in, chief_run-outward}
use fmtp.Scenarios.Chief.{chief_settings, running, arrival, epoch_time, stamped}

abbrev at_start : ChiefWorker
at_start = record {
  chief_cfg = chief_settings;
  chief_sett_changed = 1;
  oldi_grpc_cntrl = new_oldi_grpc_controller;
  channel_cntrl = running;
  channel_setts_chan = [];
  from_fdps_packet_chan = [];
  logger_setts_changed = 0;
  metrics_setts_chan = [];
  departures = [];
  processed = [];
}

-- Two messages of a channel, of which the sweep takes the first, and one of the provider.
abbrev events : List ChiefEvent
events =
    settings_passed
    ∷ grpc_configured
    ∷ grpc_served true
    ∷ ws_received 1 arrival.1.0 3
    ∷ to_fdps_passed
    ∷ packet_taken
    ∷ swept (31 * second)
    ∷ ws_received 2 arrival.1.0 3
    ∷ to_fdps_passed
    ∷ packet_taken
    ∷ msgs_asked (some "10.0.0.1") 4
    ∷ msgs_sent (some "10.0.0.1") 5 (stamped 1 ∷ [])
    ∷ msg_passed_on
    ∷ from_fdps_passed
    ∷ packet_processed
    ∷ []

chief_run-transit_example :
    transit (chief_run epoch_time (λ file. true) (λ setts. none) events at_start)
    ≡ transit at_start ++ made_in epoch_time (λ file. true) (λ setts. none) events at_start
chief_run-transit_example =
    chief_run-transit epoch_time (λ file. true) (λ setts. none) events at_start

chief_run-outward_example :
    outward (chief_run epoch_time (λ file. true) (λ setts. none) events at_start)
    ≡ outward at_start ++ routed_in epoch_time (λ file. true) (λ setts. none) events at_start
chief_run-outward_example =
    chief_run-outward epoch_time (λ file. true) (λ setts. none) events at_start
