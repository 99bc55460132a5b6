-- ===== src/Lib.antt =====
-- Verification of fmtp: channels that speak the FMTP protocol over TCP, the chief that starts them
-- and passes messages between them and a provider of flight data, and the logger that stores their
-- journal.
--
-- A channel is a program of its own. Its state controller takes bytes and events from a TCP
-- transport, events from three timers, and messages from the chief; it moves through the states of
-- FMTP by a state machine, sends the protocol's messages, hands received data to the chief, and
-- reports its state to the chief every second. The chief keeps the settings of all channels, starts
-- and stops them, keeps what they report, and holds a queue of messages for the provider, who calls
-- the chief over GRPC. The journal goes from the chief to a stream of Redis; the logger reads the
-- stream and writes what it reads to an Oracle database, in batches, over several goroutines.
--
-- The files, by the code that they model:
--   Protocol/State, Protocol/Event, Protocol/Message: fmtp/fmtp_state.go, fmtp_event.go and
--     fmtp_messages.go (the enumerations, `ToString`, `FromString`, the fixed messages);
--     Protocol/Names is about their names.
--   Protocol/Packet: fmtp/fmtp_package.go (`MakeFmtpPacket`, `marshalFmtpHeader`,
--     `ParceFmtpPacketHeader`, `BodyLen`); Packet/RoundTrip holds the lemmas on headers.
--   Protocol/Machine: fmtp/fmtp_state_machine.go (`commonStateMachine`, `InitStateMachine`,
--     `GetNextState`); Machine/Table, Machine/Order and Machine/Handshake are about it.
--   Channel/Settings: channel/channel_settings/channel_settings.go (`CheckSettings`).
--   Channel/State, Channel/Log: the parts of channel/channel_state/channel_state.go and
--     fmtp_log/fmtp_logger_message.go that a channel uses.
--   Channel/Timer: channel/fmtp_states/timer.go.
--   Channel/Core, Channel/Transitions, Channel/Controller: channel/fmtp_states/state_controller.go,
--     states_transition_funcs.go and states_transition_func_map.go. `handle` is the `select` of
--     `Work`, with one input for each case. Below Controller: Framing and Receiving are about the
--     bytes that are received, Timers, Timeouts, Synced and Reachable about the timers, Outcomes
--     about what is sent, and Buffer about what leaves the received bytes alone.
--   Channel/Transport: channel/tcp_transport. Transport/Wire is one connection (the reading and the
--     writing goroutine that client and server share), Wire/Account says which
--     steps leave the packets alone; Transport/Client is tcp_transport_client.go and Transport/Server
--     tcp_transport_server.go. Transport/Loops is the client with the steps of its sending loops one by
--     one, and Loops/Kept and Loops/InOrder follow the packets through them; Client/Stuck is about a
--     client, Server/Accept about the connections a server takes.
--   Channel/ChiefClient: the channel's connection to the chief, chief_channel/chief_channel_client.go.
--   Channel/Program: channel/fmtp_channel.go and the arguments that chief_channel_server.go writes for
--     it; Program/Args is about the arguments, Program/Starts about what is started with them.
--   Chief/Settings, Chief/State, Chief/Message, Chief/Metrics: chief/chief_settings,
--     chief/chief_state, chief/proto/fmtp and the counts of chief/chief_metrics.
--   Chief/Provider: chief/oldi/fmtp_grpc_server_impl.go and the ticker of oldi_grpc_controller.go;
--     Provider/Queue and Provider/Routing are about it.
--   Chief/Grpc: chief/oldi/oldi_grpc_controller.go. Chief/Worker: chief/chief_worker/chief_worker.go,
--     with the steps of the components that it joins; Worker/ToProvider and Worker/ToChannels follow
--     the messages through them.
--   Chief/Protocol, Chief/Channels, Channels/Work: chief_channel/chief_channel_protocol.go and
--     chief_channel_server.go. Channels/Equal is the comparison of settings, Channels/Diff what new
--     settings stop and start, Work/Idents and Work/Provider the way of a message to the provider.
--     Channels/Programs is the goroutines that run the programs of the channels; Programs/Stuck is
--     about stopping them.
--   Chief/Configurator: configurator/chief_configutaror_client.go, with the results of a request from
--     configutaror_client.go in Configurator/Post; Configurator/Ready is about the settings it keeps.
--   Chief/Tcp: chief/oldi/oldi_tcp_controller.go, which the chief does not start. Tcp/Sent and
--     Tcp/Empty are about what a provider is written, Tcp/Clients about steps of the proofs.
--   Chief/Logger: chief/chief_logger/chief_logger.go; Logger/Severity is about what it journals.
--   Chief/Journal: chief/chief_logger/redis_logger_controller.go; Journal/Bounds is about its queue.
--   Storage/Message: the message of fmtp_log/fmtp_logger_message.go and its text in the stream;
--     Storage/Decimal and Storage/Parts are the decimal numbers and the splitting that it uses.
--   Storage/State: ora_logger/logger_state/logger_state.go.
--   Storage/Redis: ora_logger/redis_cntrl/redis_cntrl.go. Redis/Entries and Redis/Once are about the
--     ids that are read and deleted, Redis/Commas about what a comma does to a message.
--   Storage/Oracle: ora_logger/ora_cntrl/ora_cntrl.go. Oracle/Query is the queue of queries,
--     Oracle/Text the texts of ora_queries_text.go and the literals in them, Controller/Base and
--     Controller one function per case of the controller's `select`, System the controller with its
--     executing goroutines, Bounded the same beside the readers of its requests and its metrics.
--     Below System: Sound, Next, Cases, Executors, Frame and InOrder are steps of the proofs,
--     Stalled and StaleTerm results; Bounded/InOrder is what holds of the account of the messages.
--   Storage/Logger: ora_logger/ora_logger.go, with the steps of the two controllers that it joins;
--     Logger/Holding, Logger/Kept and Logger/Journal follow the messages from the stream to the
--     database.
--   Storage/Configurator: configurator/logger_configutaror_client.go, logger_config_protocol.go and
--     ora_logger/logger_settings/logger_settings.go, with the case of ora_logger.go that gives the
--     settings on; Configurator/Applied is about the settings in force.
--   Prelude: shared names, tests, lists, Go's maps and `range`, and Go's `int`.
--   Scenarios: the theorems at concrete inputs, by the same parts.
--
-- How the code is modelled. Stateful code takes its state and returns the next one. A case of a
-- `select` runs to its end before the next one starts, as it does in the code. What is written to a
-- Go channel is a list, oldest first. Where the code waits on a channel that is full or has no
-- reader and this decides what happens (Storage/Oracle/Bounded, Storage/Logger, Channel/Transport,
-- Chief/Channels/Programs), the channel keeps its capacity, and the writer waits; elsewhere a write
-- does not block. Below Storage/Oracle/System the requests and metrics do not block: what is shown
-- there is that something never happens, which waiting does not bring about. What several
-- goroutines do together is a list of events in any order they can happen in, and a step is `none`
-- where the goroutine of that event cannot go on.
-- Texts that go on the wire are lists of bytes, other texts are native strings; a text for the log
-- is kept as the values that are put into it. A Go map is an association list; where the code ranges
-- over a map and returns at the first hit, the theorems hold for every order of the entries. The
-- length field of a packet wraps at 65536; Go's `int` is an integer without bounds, since ids, ports
-- and seconds do not come near its own. An instant is a number of nanoseconds.
--
-- The receiving loop of a channel has fuel: one round more than there are bytes, which is enough,
-- since every round but the last takes a byte. All other functions are structural.
--
-- Parameters: the recoding between Windows-1251 and UTF-8, the copying and removing of a channel's
-- binary, the reading of a protobuf time stamp and of JSON, the severities of the logging library,
-- the list of docker images, the queue of priorities, how many entries Redis trims off a stream,
-- and the answers of Redis, of the database and of the network are code of other repositories.
--
-- Not modelled: web pages and their parameters, HTTP and GRPC, docker and processes, the pushing of
-- metrics, time stamps of log entries. The goroutines that a timer's start and stop begin are prompt:
-- runs in which they take effect in another order, or after the controller's next step, are left
-- out. A timer's event that is already on its way when its timer is stopped is not modelled either:
-- a stopped timer raises nothing.
mod Prelude
pub mod Protocol
pub mod Channel
pub mod Chief
pub mod Storage
pub mod Scenarios
