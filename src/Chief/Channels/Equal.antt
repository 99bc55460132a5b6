-- ===== src/Chief/Channels/Equal.antt =====
-- Go's `!=` and `reflect.DeepEqual` at the settings of channels: they are equal when all their fields
-- are.
use fmtp.Prelude.{
  String, ◌≡◌, ap, ◌↔◌, Bool, true, false, ◌&&◌, List, [], ◌∷◌, ◌==◌, Eq, string_eq, int_eq,
  bytes_eq, pair_eq, bool_eq, Bytes, ℤ,
}
use fmtp.Protocol.State.{FmtpState, state_eq}
use fmtp.Channel.Settings.{ChannelSettings}

abbrev Texts : Type 0
Texts = String × (String × (String × (String × (String × (String × (String × String))))))

abbrev Names : Type 0
Names = Bytes × (Bytes × (Bytes × Bytes))

abbrev Numbers : Type 0
Numbers = ℤ × (ℤ × (ℤ × (ℤ × (ℤ × (ℤ × (ℤ × ℤ))))))

abbrev texts : ChannelSettings → Texts
texts s = (
  s.version,
  (
    s.data_type,
    (
      s.net_role,
      (s.fmtp_init_state_str, (s.remote_address, (s.data_encoding, (s.url_address, s.url_path)))),
    ),
  ),
)

abbrev names : ChannelSettings → Names
names s = (s.local_name, (s.local_atc, (s.remote_name, s.remote_atc)))

abbrev numbers : ChannelSettings → Numbers
numbers s = (
  s.id,
  (
    s.interval_ts,
    (
      s.interval_tr,
      (s.interval_ti, (s.reconnect_timeout, (s.remote_port, (s.local_port, s.url_port)))),
    ),
  ),
)

abbrev rest : ChannelSettings → FmtpState × (Bool × Bool)
rest s = (s.fmtp_init_state, (s.log_debug, s.is_working))

abbrev fields : ChannelSettings → Texts × (Names × (Numbers × (FmtpState × (Bool × Bool))))
fields s = (texts s, (names s, (numbers s, rest s)))

from_fields : Texts × (Names × (Numbers × (FmtpState × (Bool × Bool)))) → ChannelSettings
from_fields
      (
        (
          version,
          (data_type, (net_role, (init_str, (address, (encoding, (url_address, url_path)))))),
        ),
        (
          (local_name, (local_atc, (remote_name, remote_atc))),
          (
            (id, (ts, (tr, (ti, (reconnect, (remote_port, (local_port, url_port))))))),
            (init, (debug, working)),
          ),
        ),
      ) =
    record {
      id = id;
      version = version;
      data_type = data_type;
      net_role = net_role;
      local_name = local_name;
      local_atc = local_atc;
      remote_name = remote_name;
      remote_atc = remote_atc;
      interval_ts = ts;
      interval_tr = tr;
      interval_ti = ti;
      reconnect_timeout = reconnect;
      fmtp_init_state_str = init_str;
      fmtp_init_state = init;
      remote_address = address;
      remote_port = remote_port;
      local_port = local_port;
      data_encoding = encoding;
      log_debug = debug;
      is_working = working;
      url_address = url_address;
      url_path = url_path;
      url_port = url_port;
    }

abbrev pub settings_beq : ChannelSettings → ChannelSettings → Bool
settings_beq s t = fields s == fields t

pub settings_beq_iff : (s t : ChannelSettings) → (settings_beq s t ≡ true) ↔ (s ≡ t)
unfolding from_fields
settings_beq_iff s t = (
  λ h. ap from_fields ((pair_eq.beq_iff (fields s) (fields t)).0 h),
  λ e. (pair_eq.beq_iff (fields s) (fields t)).1 (ap fields e),
)

instance abbrev pub settings_eq : Eq ChannelSettings
settings_eq = record { beq = settings_beq; beq_iff = settings_beq_iff }

abbrev pub same_list : List ChannelSettings → List ChannelSettings → Bool
same_list [] [] = true
same_list [] (t ∷ ts) = false
same_list (s ∷ ss) [] = false
same_list (s ∷ ss) (t ∷ ts) = s == t && same_list ss ts
