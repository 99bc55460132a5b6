-- ===== src/Chief/Grpc.antt =====
-- chief/oldi/oldi_grpc_controller.go: the goroutine between the chief and the server for the provider.
-- GRPC and the network are libraries.
use fmtp.Prelude.{
  ℕ, suc, Bool, false, Option, none, some, List, [], ◌∷◌, ◌++◌, ◌==◌, if◌then◌else◌, int_eq, ℤ, ◌≡◌,
  sym, ◌∙◌, ap-if,
}
use fmtp.Chief.Message.{Msg, MsgWithChanId}
use fmtp.Chief.Provider.{FmtpGrpcServerImpl, new_fmtp_grpc_server_impl, append_msg}

-- Its channels are the lists of what waits in them, oldest first.
pub record OldiGrpcController : Type 0 where
  pub setts_changed_chan : ℕ
  pub from_fdps_chan : List MsgWithChanId
  pub to_fdps_chan : List Msg
  pub fmtp_server : FmtpGrpcServerImpl
  -- The port of `grpcAddress`; `none` is the empty address.
  pub grpc_address : Option ℤ
  pub grps_served : Bool
  -- The servers that have been started, by their ports, and the number of those stopped.
  pub started : List ℤ
  pub stopped : ℕ

unfoldable pub new_oldi_grpc_controller : OldiGrpcController
unfolding new_fmtp_grpc_server_impl
new_oldi_grpc_controller = record {
  setts_changed_chan = 0;
  from_fdps_chan = [];
  to_fdps_chan = [];
  fmtp_server = new_fmtp_grpc_server_impl;
  grpc_address = none;
  grps_served = false;
  started = [];
  stopped = 0;
}

abbrev at_port : Option ℤ → ℤ → Bool
at_port none port = false
at_port (some address) port = address == port

abbrev stop_grpc_server : OldiGrpcController → OldiGrpcController
stop_grpc_server c = record c { stopped = suc c.stopped }

-- The start is a goroutine, which reports by `serve_reported`.
unfoldable pub change_address : ℤ → OldiGrpcController → OldiGrpcController
change_address port c =
    if at_port c.grpc_address port
    then c
    else (let moved = record c { grpc_address = some port } in
        let ready = if c.grps_served then stop_grpc_server moved else moved in
        record ready { started = ready.started ++ port ∷ [] })

-- A server serves, or has failed.
unfoldable pub serve_reported : Bool → OldiGrpcController → OldiGrpcController
serve_reported serves c = record c { grps_served = serves }

abbrev pub append_first : List Msg → OldiGrpcController → OldiGrpcController
unfolding append_msg
append_first [] c = c
append_first (msg ∷ msgs) c = record c {
  to_fdps_chan = msgs;
  fmtp_server = append_msg c.fmtp_server msg;
}

-- The oldest packet for the provider goes to the server's queue.
unfoldable pub take_packet : OldiGrpcController → OldiGrpcController
unfolding append_first
take_packet c = append_first c.to_fdps_chan c

abbrev pub pass_first : List MsgWithChanId → OldiGrpcController → OldiGrpcController
pass_first [] c = c
pass_first (msg ∷ msgs) c = record c {
  fmtp_server = record c.fmtp_server { from_fdps_chan = msgs };
  from_fdps_chan = c.from_fdps_chan ++ msg ∷ [];
}

-- The provider's oldest message goes to the chief.
unfoldable pub pass_from_fdps : OldiGrpcController → OldiGrpcController
pass_from_fdps c = pass_first c.fmtp_server.from_fdps_chan c

-- A new address touches the address and the counts of servers only.
pub change_address-kept {ℓ} :
    {A : Type ℓ} (view : OldiGrpcController → A)
    → ((c : OldiGrpcController) (address : Option ℤ) (ports : List ℤ) (count : ℕ)
        → view (record c { grpc_address = address; started = ports; stopped = count }) ≡ view c)
    → (port : ℤ) (c : OldiGrpcController) → view (change_address port c) ≡ view c
unfolding change_address
change_address-kept view ignores port c =
    let moved : OldiGrpcController = record c { grpc_address = some port } in
    let begun : OldiGrpcController → OldiGrpcController =
      λ r. record r { started = r.started ++ port ∷ [] } in
    let restarted : view (begun (if c.grps_served then stop_grpc_server moved else moved))
        ≡ view c =
      ap-if (λ r. view (begun r)) c.grps_served (stop_grpc_server moved) moved
        (ignores c (some port) _ (suc c.stopped) ∙ sym (ignores c (some port) _ c.stopped))
      ∙ ignores c (some port) _ c.stopped in
    ap-if view (at_port c.grpc_address port) c _ (sym restarted) ∙ restarted
