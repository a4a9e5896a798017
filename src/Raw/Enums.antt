-- ===== src/Raw/Enums.antt =====
-- The small enumerations that src/raknet_python.cpp registers, with their Python names.
use Prim.Native.String.{String}
use mathlib.Core.List.{[], ◌∷◌}
use raknet_python.Prelude.Dict.{Dict}

pub data StartupResult : Type 0 where
  raknet_started : StartupResult
  raknet_already_started : StartupResult
  invalid_socket_descriptors : StartupResult
  invalid_max_connections : StartupResult
  socket_family_not_supported : StartupResult
  socket_port_already_in_use : StartupResult
  socket_failed_to_bind : StartupResult
  socket_failed_test_send : StartupResult
  port_cannot_be_zero : StartupResult
  failed_to_create_network_thread : StartupResult
  could_not_generate_guid : StartupResult
  startup_other_failure : StartupResult

unfoldable pub startup_result_entries : Dict String StartupResult
startup_result_entries =
    ("RAKNET_STARTED", raknet_started)
    ∷ ("RAKNET_ALREADY_STARTED", raknet_already_started)
    ∷ ("INVALID_SOCKET_DESCRIPTORS", invalid_socket_descriptors)
    ∷ ("INVALID_MAX_CONNECTIONS", invalid_max_connections)
    ∷ ("SOCKET_FAMILY_NOT_SUPPORTED", socket_family_not_supported)
    ∷ ("SOCKET_PORT_ALREADY_IN_USE", socket_port_already_in_use)
    ∷ ("SOCKET_FAILED_TO_BIND", socket_failed_to_bind)
    ∷ ("SOCKET_FAILED_TEST_SEND", socket_failed_test_send)
    ∷ ("PORT_CANNOT_BE_ZERO", port_cannot_be_zero)
    ∷ ("FAILED_TO_CREATE_NETWORK_THREAD", failed_to_create_network_thread)
    ∷ ("COULD_NOT_GENERATE_GUID", could_not_generate_guid)
    ∷ ("STARTUP_OTHER_FAILURE", startup_other_failure)
    ∷ []

pub data ConnectionAttemptResult : Type 0 where
  connection_attempt_started : ConnectionAttemptResult
  invalid_parameter : ConnectionAttemptResult
  cannot_resolve_domain_name : ConnectionAttemptResult
  already_connected_to_endpoint : ConnectionAttemptResult
  connection_attempt_already_in_progress : ConnectionAttemptResult
  security_initialization_failed : ConnectionAttemptResult

unfoldable pub connection_attempt_result_entries : Dict String ConnectionAttemptResult
connection_attempt_result_entries =
    ("CONNECTION_ATTEMPT_STARTED", connection_attempt_started)
    ∷ ("INVALID_PARAMETER", invalid_parameter)
    ∷ ("CANNOT_RESOLVE_DOMAIN_NAME", cannot_resolve_domain_name)
    ∷ ("ALREADY_CONNECTED_TO_ENDPOINT", already_connected_to_endpoint)
    ∷ ("CONNECTION_ATTEMPT_ALREADY_IN_PROGRESS", connection_attempt_already_in_progress)
    ∷ ("SECURITY_INITIALIZATION_FAILED", security_initialization_failed)
    ∷ []

pub data ConnectionState : Type 0 where
  is_pending : ConnectionState
  is_connecting : ConnectionState
  is_connected : ConnectionState
  is_disconnecting : ConnectionState
  is_silently_disconnecting : ConnectionState
  is_disconnected : ConnectionState
  is_not_connected : ConnectionState

unfoldable pub connection_state_entries : Dict String ConnectionState
connection_state_entries =
    ("IS_PENDING", is_pending)
    ∷ ("IS_CONNECTING", is_connecting)
    ∷ ("IS_CONNECTED", is_connected)
    ∷ ("IS_DISCONNECTING", is_disconnecting)
    ∷ ("IS_SILENTLY_DISCONNECTING", is_silently_disconnecting)
    ∷ ("IS_DISCONNECTED", is_disconnected)
    ∷ ("IS_NOT_CONNECTED", is_not_connected)
    ∷ []

pub data PacketPriority : Type 0 where
  immediate_priority : PacketPriority
  high_priority : PacketPriority
  medium_priority : PacketPriority
  low_priority : PacketPriority

unfoldable pub packet_priority_entries : Dict String PacketPriority
packet_priority_entries =
    ("IMMEDIATE_PRIORITY", immediate_priority)
    ∷ ("HIGH_PRIORITY", high_priority)
    ∷ ("MEDIUM_PRIORITY", medium_priority)
    ∷ ("LOW_PRIORITY", low_priority)
    ∷ []

pub data PacketReliability : Type 0 where
  unreliable : PacketReliability
  unreliable_sequenced : PacketReliability
  reliable : PacketReliability
  reliable_ordered : PacketReliability
  reliable_sequenced : PacketReliability
  unreliable_with_ack_receipt : PacketReliability
  reliable_with_ack_receipt : PacketReliability
  reliable_ordered_with_ack_receipt : PacketReliability

unfoldable pub packet_reliability_entries : Dict String PacketReliability
packet_reliability_entries =
    ("UNRELIABLE", unreliable)
    ∷ ("UNRELIABLE_SEQUENCED", unreliable_sequenced)
    ∷ ("RELIABLE", reliable)
    ∷ ("RELIABLE_ORDERED", reliable_ordered)
    ∷ ("RELIABLE_SEQUENCED", reliable_sequenced)
    ∷ ("UNRELIABLE_WITH_ACK_RECEIPT", unreliable_with_ack_receipt)
    ∷ ("RELIABLE_WITH_ACK_RECEIPT", reliable_with_ack_receipt)
    ∷ ("RELIABLE_ORDERED_WITH_ACK_RECEIPT", reliable_ordered_with_ack_receipt)
    ∷ []

pub data RnsPerSecondMetrics : Type 0 where
  user_message_bytes_pushed : RnsPerSecondMetrics
  user_message_bytes_sent : RnsPerSecondMetrics
  user_message_bytes_resent : RnsPerSecondMetrics
  user_message_bytes_received_processed : RnsPerSecondMetrics
  user_message_bytes_received_ignored : RnsPerSecondMetrics
  actual_bytes_sent : RnsPerSecondMetrics
  actual_bytes_received : RnsPerSecondMetrics

unfoldable pub rns_per_second_metrics_entries : Dict String RnsPerSecondMetrics
rns_per_second_metrics_entries =
    ("USER_MESSAGE_BYTES_PUSHED", user_message_bytes_pushed)
    ∷ ("USER_MESSAGE_BYTES_SENT", user_message_bytes_sent)
    ∷ ("USER_MESSAGE_BYTES_RESENT", user_message_bytes_resent)
    ∷ ("USER_MESSAGE_BYTES_RECEIVED_PROCESSED", user_message_bytes_received_processed)
    ∷ ("USER_MESSAGE_BYTES_RECEIVED_IGNORED", user_message_bytes_received_ignored)
    ∷ ("ACTUAL_BYTES_SENT", actual_bytes_sent)
    ∷ ("ACTUAL_BYTES_RECEIVED", actual_bytes_received)
    ∷ []
