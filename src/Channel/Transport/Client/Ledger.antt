-- ===== src/Channel/Transport/Client/Ledger.antt =====
-- What of a client leaves its packets alone.
use fmtp.Prelude.{
  ◌≡◌, refl, not, Option, none, some, Bytes, bytes_eq, ◌==◌, String, Bool-cases, inl, inr,
}
use fmtp.Channel.Transport.Wire.{Wire}
use fmtp.Channel.Transport.Wire.Account.{ledger}
use fmtp.Channel.Transport.Client.{
  TcpTransportClient, log_if_new, keep_alive, start_client, close_client,
}

pub close_client-ledger : (err : Option Bytes) (w : Wire) → ledger (close_client err w) ≡ ledger w
unfolding close_client
close_client-ledger none w = refl
close_client-ledger (some err) w = refl

log_if_new-ledger :
    (err last : Bytes) (text : String) (w : Wire) → ledger (log_if_new err last text w) ≡ ledger w
unfolding log_if_new
log_if_new-ledger err last text w = elim (Bool-cases (not (err == last))) [
  | inl other ↦ rw other refl
  | inr same ↦ rw same refl
]

pub start_client-ledger :
    (dial alive : Option Bytes) (ftc : TcpTransportClient)
    → ledger (start_client dial alive ftc).wire ≡ ledger ftc.wire
unfolding start_client keep_alive
start_client-ledger (some err) alive ftc = log_if_new-ledger err ftc.last_connect_error _ _
start_client-ledger none none ftc = refl
start_client-ledger none (some err) ftc = log_if_new-ledger err ftc.last_keepalive_error _ _
