-- ===== src/Chief/Provider.antt =====
-- chief/oldi/fmtp_grpc_server_impl.go and oldi_grpc_controller.go: the queue of messages for the
-- flight data provider and the passing on of the provider's own. `RecvMsq` and
-- what changes the queue hold the lock from their beginning to their end; `SendMsg` takes none, and
-- the messages of two calls at one time may alternate. An instant is a number of nanoseconds since 1970.
pub mod Queue
pub mod Routing
use fmtp.Prelude.{
  ℕ, zero, suc, ◌+◌, ◌*◌, String, Bool, true, false, not, ◌||◌, Option, none, some, List, [], ◌∷◌,
  ◌++◌, ◌==◌, if◌then◌else◌, string_eq, int_eq, bytes_eq, nat_eq, Bytes, ℤ, pos, negsuc, sub_ℕ, ltb,
  length, take, drop, GoMap, lookup, insert,
}
use fmtp.Chief.Settings.{ChiefSettings, ProviderSettings, get_channel_id_by_cid}
use fmtp.Chief.State.{ChiefState, ProviderState, state_ok, state_error, set_oldi_provider_state}
use fmtp.Chief.Message.{Msg, MsgWithChanId}
use fmtp.Chief.Metrics.{ProvMetrics}

abbrev pub second : ℕ
second = 1000000000

abbrev pub provider_valid_dur : ℕ
provider_valid_dur = 10 * second

abbrev pub msg_valid_dur : ℕ
msg_valid_dur = 30 * second

abbrev pub max_msg_to_send : ℕ
max_msg_to_send = 1000

-- `from_fdps_chan` and `prov_metrics_chan` are the lists of what has been written to them.
pub record FmtpGrpcServerImpl : Type 0 where
  pub msg_to_fdps : List Msg
  pub clnt_activity : GoMap String ℕ
  pub from_fdps_chan : List MsgWithChanId
  pub prov_metrics_chan : List ProvMetrics

unfoldable pub new_fmtp_grpc_server_impl : FmtpGrpcServerImpl
new_fmtp_grpc_server_impl = record {
  msg_to_fdps = [];
  clnt_activity = [];
  from_fdps_chan = [];
  prov_metrics_chan = [];
}

-- `none` where the peer's address has no host.
abbrev pub note_activity : FmtpGrpcServerImpl → Option String → ℕ → FmtpGrpcServerImpl
unfolding insert
note_activity s none now = s
note_activity s (some host) now = record s { clnt_activity = insert host now s.clnt_activity }

abbrev pub report_metrics : FmtpGrpcServerImpl → ProvMetrics → FmtpGrpcServerImpl
report_metrics s metric = record s { prov_metrics_chan = s.prov_metrics_chan ++ metric ∷ [] }

-- The messages for a channel, and the CIDs that no channel has; the answer's error text has a line
-- for each of these.
abbrev pub deliver : ChiefSettings → List Msg → List MsgWithChanId × List Bytes
deliver cfg [] = ([], [])
deliver cfg (val ∷ vals) =
    let ch_id = get_channel_id_by_cid cfg val.cid in
    let (sent, missed) = deliver cfg vals in
    if not (ch_id == negsuc 0)
    then (record { pb_msg = val; chan_id = ch_id } ∷ sent, missed)
    else (sent, val.cid ∷ missed)

unfoldable pub send_msg :
    ChiefSettings
    → Option String
    → ℕ
    → List Msg
    → FmtpGrpcServerImpl
    → FmtpGrpcServerImpl × List Bytes
unfolding insert
send_msg cfg host now list s =
    let (sent, missed) = deliver cfg list in
    let active = note_activity s host now in
    let passed = record active { from_fdps_chan = active.from_fdps_chan ++ sent } in
    (
      report_metrics passed (record {
        send_count = 0;
        recv_count = length list;
        missed_count = length missed;
        timeout_count = pos 0;
      }),
      missed,
    )

-- What stays in the queue, and the answer.
unfoldable pub recv_msq : Option String → ℕ → FmtpGrpcServerImpl → FmtpGrpcServerImpl × List Msg
unfolding insert
recv_msq host now s =
    let active = note_activity s host now in
    let over = ltb max_msg_to_send (length s.msg_to_fdps) in
    let to_send = if over then take max_msg_to_send s.msg_to_fdps else s.msg_to_fdps in
    let rest = if over then drop max_msg_to_send s.msg_to_fdps else [] in
    (
      report_metrics (record active { msg_to_fdps = rest })
          (record {
            send_count = length to_send;
            recv_count = 0;
            missed_count = 0;
            timeout_count = pos 0;
          }),
      to_send,
    )

abbrev pub active_hosts : ℕ → GoMap String ℕ → List String
active_hosts now [] = []
active_hosts now ((host, seen) ∷ rest) =
    if ltb now (seen + provider_valid_dur)
    then host ∷ active_hosts now rest
    else active_hosts now rest

unfoldable pub get_active_providers : FmtpGrpcServerImpl → ℕ → List String
get_active_providers s now = active_hosts now s.clnt_activity

unfoldable pub append_msg : FmtpGrpcServerImpl → Msg → FmtpGrpcServerImpl
append_msg s msg = record s { msg_to_fdps = s.msg_to_fdps ++ msg ∷ [] }

-- `Timestamp.AsTime` of the protobuf package, which is not part of the repository.
module _ (as_time : Option ℕ → ℕ) where
  abbrev pub is_old : ℕ → Msg → Bool
  is_old now val = ltb (as_time val.rrtime + msg_valid_dur) now

  -- The loop over the queue, with the index and `maxIdx`.
  abbrev pub last_old : ℕ → ℕ → ℤ → List Msg → ℤ
  last_old now idx max_idx [] = max_idx
  last_old now idx max_idx (val ∷ vals) =
      if is_old now val then last_old now (suc idx) (pos idx) vals else max_idx

  -- The slice after the index.
  abbrev pub remaining : ℤ → List Msg → List Msg
  remaining (negsuc n) list = list
  remaining (pos idx) list = if pos idx == sub_ℕ (length list) 1 then [] else drop (suc idx) list

  unfoldable pub clean_old_msg : FmtpGrpcServerImpl → ℕ → FmtpGrpcServerImpl
  clean_old_msg s now =
      let max_idx = last_old now 0 (negsuc 0) s.msg_to_fdps in
      if not (max_idx == negsuc 0)
      then report_metrics (record s { msg_to_fdps = remaining max_idx s.msg_to_fdps })
          (record { send_count = 0; recv_count = 0; missed_count = 0; timeout_count = max_idx })
      else s

abbrev pub has_host : String → List String → Bool
has_host host [] = false
has_host host (x ∷ xs) = host == x || has_host host xs

-- Whether one of the active hosts is one of the addresses.
abbrev pub any_host : List String → List String → Bool
any_host [] ips = false
any_host (act ∷ acts) ips = has_host act ips || any_host acts ips

abbrev pub provider_states : List String → List ProviderSettings → List ProviderState
provider_states active [] = []
provider_states active (val ∷ vals) =
    record {
      provider_id = val.id;
      provider_type = val.data_type;
      provider_ips = val.ip_addresses;
      provider_state = if any_host active val.ip_addresses then state_ok else state_error;
    }
    ∷ provider_states active vals

-- The ticker that checks the state.
unfoldable pub check_state : ChiefSettings → ℕ → FmtpGrpcServerImpl → ChiefState → ChiefState
unfolding get_active_providers
check_state cfg now s state =
    set_oldi_provider_state state (provider_states (get_active_providers s now) cfg.providers_setts)
