-- ===== src/Membership/Settings.antt =====
-- `MembershipSettings` of node/membership/models.py, with the checks of its constructor. Durations
-- are whole milliseconds, also below zero; what is no number is refused before these checks.
use stopan.Prelude.{Bool, Text, Result, ok, ◌>>◌, raise_if}
use stopan.Protection.{ℤ, pos, ltz}

pub data SettingsError : Type 0 where
  protocol_period retry_interval retry_interval_too_long ping_timeout rpc_timeout suspect_timeout :
      SettingsError
  ping_fanout gossip_events gossip_ttl message_bytes keepalive_time keepalive_timeout :
      SettingsError

pub record MembershipSettings : Type 0 where
  pub cluster_token : Text
  pub protocol_period_s : ℤ
  pub bootstrap_retry_interval_s : ℤ
  pub ping_timeout_s : ℤ
  pub rpc_timeout_s : ℤ
  pub suspect_timeout_s : ℤ
  pub indirect_ping_fanout : ℤ
  pub max_gossip_events : ℤ
  pub gossip_ttl_s : ℤ
  pub grpc_max_message_bytes : ℤ
  pub grpc_keepalive_time_ms : ℤ
  pub grpc_keepalive_timeout_ms : ℤ
  pub grpc_keepalive_permit_without_calls : Bool

-- `value <= 0`
abbrev pub not_positive : ℤ → Bool
not_positive value = ltz value (pos 1)

-- `value < 0`
abbrev pub negative : ℤ → Bool
negative value = ltz value (pos 0)

-- `MEMBERSHIP_BOOTSTRAP_RETRY_MAX_INTERVAL_S`
abbrev pub retry_max_interval_s : ℤ
retry_max_interval_s = pos 30000

unfoldable pub make_settings : MembershipSettings → Result SettingsError MembershipSettings
make_settings s = do
  raise_if (not_positive s.protocol_period_s) protocol_period
  raise_if (not_positive s.bootstrap_retry_interval_s) retry_interval
  raise_if (ltz retry_max_interval_s s.bootstrap_retry_interval_s) retry_interval_too_long
  raise_if (not_positive s.ping_timeout_s) ping_timeout
  raise_if (not_positive s.rpc_timeout_s) rpc_timeout
  raise_if (not_positive s.suspect_timeout_s) suspect_timeout
  raise_if (negative s.indirect_ping_fanout) ping_fanout
  raise_if (negative s.max_gossip_events) gossip_events
  raise_if (not_positive s.gossip_ttl_s) gossip_ttl
  raise_if (not_positive s.grpc_max_message_bytes) message_bytes
  raise_if (not_positive s.grpc_keepalive_time_ms) keepalive_time
  raise_if (not_positive s.grpc_keepalive_timeout_ms) keepalive_timeout
  ok s
