-- ===== src/Raw/Statistics.antt =====
-- The fields of `RakNetStatistics` in src/raknet_python.cpp that Python reads.
use raknet_python.Prelude.{ℕ, Bool, List}
use raknet_python.Raw.Interface.{RakNet}
use raknet_python.Raw.Members.{Members}

module _ (R : RakNet) (T : Members R) where
  open R use {RakNetStatistics}
  open T use {Float, Double}

  -- The array, copied whole into a vector.
  unfoldable pub value_over_last_second : RakNetStatistics → List ℕ
  value_over_last_second self = T.value_over_last_second self

  -- The array, copied whole into a vector.
  unfoldable pub running_total : RakNetStatistics → List ℕ
  running_total self = T.running_total self

  unfoldable pub connection_start_time : RakNetStatistics → ℕ
  connection_start_time self = T.connection_start_time self

  unfoldable pub is_limited_by_congestion_control : RakNetStatistics → Bool
  is_limited_by_congestion_control self = T.is_limited_by_congestion_control self

  unfoldable pub bps_limit_by_congestion_control : RakNetStatistics → ℕ
  bps_limit_by_congestion_control self = T.bps_limit_by_congestion_control self

  unfoldable pub is_limited_by_outgoing_bandwidth_limit : RakNetStatistics → Bool
  is_limited_by_outgoing_bandwidth_limit self = T.is_limited_by_outgoing_bandwidth_limit self

  unfoldable pub bps_limit_by_outgoing_bandwidth_limit : RakNetStatistics → ℕ
  bps_limit_by_outgoing_bandwidth_limit self = T.bps_limit_by_outgoing_bandwidth_limit self

  -- The array, copied whole into a vector.
  unfoldable pub message_in_send_buffer : RakNetStatistics → List ℕ
  message_in_send_buffer self = T.message_in_send_buffer self

  -- The array, copied whole into a vector.
  unfoldable pub bytes_in_send_buffer : RakNetStatistics → List Double
  bytes_in_send_buffer self = T.bytes_in_send_buffer self

  unfoldable pub messages_in_resend_buffer : RakNetStatistics → ℕ
  messages_in_resend_buffer self = T.messages_in_resend_buffer self

  unfoldable pub bytes_in_resend_buffer : RakNetStatistics → ℕ
  bytes_in_resend_buffer self = T.bytes_in_resend_buffer self

  unfoldable pub packetloss_last_second : RakNetStatistics → Float
  packetloss_last_second self = T.packetloss_last_second self

  unfoldable pub packetloss_total : RakNetStatistics → Float
  packetloss_total self = T.packetloss_total self
