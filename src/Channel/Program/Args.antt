-- ===== src/Channel/Program/Args.antt =====
-- channel/fmtp_channel.go: the arguments of the program of a channel, and the command of the chief that
-- gives them.
use fmtp.Prelude.{ℕ, ◌≡◌, refl, Option, none, some, List, [], ◌∷◌, Bytes, codes, ℤ}
use fmtp.Storage.Decimal.{itoa, atoi, atoi-itoa}
use fmtp.Channel.Settings.{ChannelSettings}
use fmtp.Channel.ChiefClient.{ClientSettings}

abbrev pub invalid_param_count : ℕ
invalid_param_count = 1001

abbrev pub invalid_net_port : ℕ
invalid_net_port = 1002

abbrev pub invalid_daemon_id : ℕ
invalid_daemon_id = 1003

abbrev pub invalid_web_port : ℕ
invalid_web_port = 1004

-- What the program knows from its arguments.
pub record Args : Type 0 where
  pub chief_port : ℤ
  pub channel_id : ℤ
  pub local_atc : Bytes
  pub remote_atc : Bytes
  pub data_type : Bytes
  pub web_path : Bytes
  pub web_port : ℤ

-- The exit code, or the program goes on.
pub data Started : Type 0 where
  exits : ℕ → Started
  goes_on : Args → Started

abbrev with_web_port : ℤ → ℤ → Bytes → Bytes → Bytes → Bytes → Option ℤ → Started
with_web_port port id loc rem type path none = exits invalid_web_port
with_web_port port id loc rem type path (some web) = goes_on (record {
  chief_port = port;
  channel_id = id;
  local_atc = loc;
  remote_atc = rem;
  data_type = type;
  web_path = path;
  web_port = web;
})

abbrev with_id : ℤ → Bytes → Bytes → Bytes → Bytes → Bytes → Option ℤ → Started
with_id port loc rem type path web none = exits invalid_daemon_id
with_id port loc rem type path web (some id) = with_web_port port id loc rem type path (atoi web)

abbrev with_port : Bytes → Bytes → Bytes → Bytes → Bytes → Bytes → Option ℤ → Started
with_port id loc rem type path web none = exits invalid_net_port
with_port id loc rem type path web (some port) = with_id port loc rem type path web (atoi id)

-- The beginning of `mainReturnWithCode`; the first argument is the program.
unfoldable pub read_args : List Bytes → Started
unfolding atoi
read_args (name ∷ port ∷ id ∷ loc ∷ rem ∷ type ∷ path ∷ web ∷ []) =
    with_port id loc rem type path web (atoi port)
read_args other = exits invalid_param_count

-- The address is fixed.
unfoldable pub client_settings : Args → ClientSettings
client_settings args = record {
  chief_address = codes "127.0.0.1";
  chief_port = args.chief_port;
  channel_id = args.channel_id;
}

-- The command by which the chief starts a channel, in chief_channel/chief_channel_server.go.
unfoldable pub command : Bytes → ℤ → ChannelSettings → List Bytes
unfolding itoa
command path ch_port ch_sett =
    path
    ∷ itoa ch_port
    ∷ itoa ch_sett.id
    ∷ ch_sett.local_atc
    ∷ ch_sett.remote_atc
    ∷ codes ch_sett.data_type
    ∷ codes ch_sett.url_path
    ∷ itoa ch_sett.url_port
    ∷ []

-- A channel reads from its arguments what the chief has written there: the port of the chief, and the
-- identifier, the names, the type and the page of its own settings.
pub read_args-command :
    (path : Bytes) (ch_port : ℤ) (ch_sett : ChannelSettings)
    → read_args (command path ch_port ch_sett)
      ≡ goes_on (record {
        chief_port = ch_port;
        channel_id = ch_sett.id;
        local_atc = ch_sett.local_atc;
        remote_atc = ch_sett.remote_atc;
        data_type = codes ch_sett.data_type;
        web_path = codes ch_sett.url_path;
        web_port = ch_sett.url_port;
      })
unfolding read_args command
read_args-command path ch_port ch_sett =
    rw (atoi-itoa ch_port, atoi-itoa ch_sett.id, atoi-itoa ch_sett.url_port) refl
