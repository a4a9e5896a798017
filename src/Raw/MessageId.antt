-- ===== src/Raw/MessageId.antt =====
-- `DefaultMessageIDTypes` as src/raknet_python.cpp registers it. The numbers behind the enumerators
-- stand in RakNet's header, and are a field of `Raw.Interface.RakNet`.
pub mod Registered
use raknet_python.Prelude.{ℕ, String, Option, none, some, [], ◌∷◌, ◌==◌, nat_eq, if◌then◌else◌}
use raknet_python.Prelude.Dict.{Dict}

pub data DefaultMessageIdTypes : Type 0 where
  id_connected_ping : DefaultMessageIdTypes
  id_unconnected_ping : DefaultMessageIdTypes
  id_unconnected_ping_open_connections : DefaultMessageIdTypes
  id_connected_pong : DefaultMessageIdTypes
  id_detect_lost_connections : DefaultMessageIdTypes
  id_open_connection_request_1 : DefaultMessageIdTypes
  id_open_connection_reply_1 : DefaultMessageIdTypes
  id_open_connection_request_2 : DefaultMessageIdTypes
  id_open_connection_reply_2 : DefaultMessageIdTypes
  id_connection_request : DefaultMessageIdTypes
  id_remote_system_requires_public_key : DefaultMessageIdTypes
  id_our_system_requires_security : DefaultMessageIdTypes
  id_public_key_mismatch : DefaultMessageIdTypes
  id_out_of_band_internal : DefaultMessageIdTypes
  id_snd_receipt_acked : DefaultMessageIdTypes
  id_snd_receipt_loss : DefaultMessageIdTypes
  id_connection_request_accepted : DefaultMessageIdTypes
  id_connection_attempt_failed : DefaultMessageIdTypes
  id_already_connected : DefaultMessageIdTypes
  id_new_incoming_connection : DefaultMessageIdTypes
  id_no_free_incoming_connections : DefaultMessageIdTypes
  id_disconnection_notification : DefaultMessageIdTypes
  id_connection_lost : DefaultMessageIdTypes
  id_connection_banned : DefaultMessageIdTypes
  id_invalid_password : DefaultMessageIdTypes
  id_incompatible_protocol_version : DefaultMessageIdTypes
  id_ip_recently_connected : DefaultMessageIdTypes
  id_timestamp : DefaultMessageIdTypes
  id_unconnected_pong : DefaultMessageIdTypes
  id_advertise_system : DefaultMessageIdTypes
  id_download_progress : DefaultMessageIdTypes
  id_remote_disconnection_notification : DefaultMessageIdTypes
  id_remote_connection_lost : DefaultMessageIdTypes
  id_remote_new_incoming_connection : DefaultMessageIdTypes
  id_file_list_transfer_header : DefaultMessageIdTypes
  id_file_list_transfer_file : DefaultMessageIdTypes
  id_file_list_reference_push_ack : DefaultMessageIdTypes
  id_ddt_download_request : DefaultMessageIdTypes
  id_transport_string : DefaultMessageIdTypes
  id_replica_manager_construction : DefaultMessageIdTypes
  id_replica_manager_scope_change : DefaultMessageIdTypes
  id_replica_manager_serialize : DefaultMessageIdTypes
  id_replica_manager_download_started : DefaultMessageIdTypes
  id_replica_manager_download_complete : DefaultMessageIdTypes
  id_rakvoice_open_channel_request : DefaultMessageIdTypes
  id_rakvoice_open_channel_reply : DefaultMessageIdTypes
  id_rakvoice_close_channel : DefaultMessageIdTypes
  id_rakvoice_data : DefaultMessageIdTypes
  id_autopatcher_get_changelist_since_date : DefaultMessageIdTypes
  id_autopatcher_creation_list : DefaultMessageIdTypes
  id_autopatcher_deletion_list : DefaultMessageIdTypes
  id_autopatcher_get_patch : DefaultMessageIdTypes
  id_autopatcher_patch_list : DefaultMessageIdTypes
  id_autopatcher_repository_fatal_error : DefaultMessageIdTypes
  id_autopatcher_cannot_download_original_unmodified_files : DefaultMessageIdTypes
  id_autopatcher_finished_internal : DefaultMessageIdTypes
  id_autopatcher_finished : DefaultMessageIdTypes
  id_autopatcher_restart_application : DefaultMessageIdTypes
  id_nat_punchthrough_request : DefaultMessageIdTypes
  id_nat_connect_at_time : DefaultMessageIdTypes
  id_nat_get_most_recent_port : DefaultMessageIdTypes
  id_nat_client_ready : DefaultMessageIdTypes
  id_nat_target_not_connected : DefaultMessageIdTypes
  id_nat_target_unresponsive : DefaultMessageIdTypes
  id_nat_connection_to_target_lost : DefaultMessageIdTypes
  id_nat_already_in_progress : DefaultMessageIdTypes
  id_nat_punchthrough_failed : DefaultMessageIdTypes
  id_nat_punchthrough_succeeded : DefaultMessageIdTypes
  id_ready_event_set : DefaultMessageIdTypes
  id_ready_event_unset : DefaultMessageIdTypes
  id_ready_event_all_set : DefaultMessageIdTypes
  id_ready_event_query : DefaultMessageIdTypes
  id_lobby_general : DefaultMessageIdTypes
  id_rpc_remote_error : DefaultMessageIdTypes
  id_rpc_plugin : DefaultMessageIdTypes
  id_file_list_reference_push : DefaultMessageIdTypes
  id_ready_event_force_all_set : DefaultMessageIdTypes
  id_rooms_execute_func : DefaultMessageIdTypes
  id_rooms_logon_status : DefaultMessageIdTypes
  id_rooms_handle_change : DefaultMessageIdTypes
  id_lobby2_send_message : DefaultMessageIdTypes
  id_lobby2_server_error : DefaultMessageIdTypes
  id_fcm2_new_host : DefaultMessageIdTypes
  id_fcm2_request_fcmguid : DefaultMessageIdTypes
  id_fcm2_respond_connection_count : DefaultMessageIdTypes
  id_fcm2_inform_fcmguid : DefaultMessageIdTypes
  id_fcm2_update_min_total_connection_count : DefaultMessageIdTypes
  id_fcm2_verified_join_start : DefaultMessageIdTypes
  id_fcm2_verified_join_capable : DefaultMessageIdTypes
  id_fcm2_verified_join_failed : DefaultMessageIdTypes
  id_fcm2_verified_join_accepted : DefaultMessageIdTypes
  id_fcm2_verified_join_rejected : DefaultMessageIdTypes
  id_udp_proxy_general : DefaultMessageIdTypes
  id_sqlite3_exec : DefaultMessageIdTypes
  id_sqlite3_unknown_db : DefaultMessageIdTypes
  id_sqllite_logger : DefaultMessageIdTypes
  id_nat_type_detection_request : DefaultMessageIdTypes
  id_nat_type_detection_result : DefaultMessageIdTypes
  id_router_2_internal : DefaultMessageIdTypes
  id_router_2_forwarding_no_path : DefaultMessageIdTypes
  id_router_2_forwarding_established : DefaultMessageIdTypes
  id_router_2_rerouted : DefaultMessageIdTypes
  id_team_balancer_internal : DefaultMessageIdTypes
  id_team_balancer_requested_team_full : DefaultMessageIdTypes
  id_team_balancer_requested_team_locked : DefaultMessageIdTypes
  id_team_balancer_team_requested_cancelled : DefaultMessageIdTypes
  id_team_balancer_team_assigned : DefaultMessageIdTypes
  id_lightspeed_integration : DefaultMessageIdTypes
  id_xbox_lobby : DefaultMessageIdTypes
  id_two_way_authentication_incoming_challenge_success : DefaultMessageIdTypes
  id_two_way_authentication_outgoing_challenge_success : DefaultMessageIdTypes
  id_two_way_authentication_incoming_challenge_failure : DefaultMessageIdTypes
  id_two_way_authentication_outgoing_challenge_failure : DefaultMessageIdTypes
  id_two_way_authentication_outgoing_challenge_timeout : DefaultMessageIdTypes
  id_two_way_authentication_negotiation : DefaultMessageIdTypes
  id_cloud_post_request : DefaultMessageIdTypes
  id_cloud_release_request : DefaultMessageIdTypes
  id_cloud_get_request : DefaultMessageIdTypes
  id_cloud_get_response : DefaultMessageIdTypes
  id_cloud_unsubscribe_request : DefaultMessageIdTypes
  id_cloud_server_to_server_command : DefaultMessageIdTypes
  id_cloud_subscription_notification : DefaultMessageIdTypes
  id_lib_voice : DefaultMessageIdTypes
  id_relay_plugin : DefaultMessageIdTypes
  id_nat_request_bound_addresses : DefaultMessageIdTypes
  id_nat_respond_bound_addresses : DefaultMessageIdTypes
  id_fcm2_update_user_context : DefaultMessageIdTypes
  id_reserved_3 : DefaultMessageIdTypes
  id_reserved_4 : DefaultMessageIdTypes
  id_reserved_5 : DefaultMessageIdTypes
  id_reserved_6 : DefaultMessageIdTypes
  id_reserved_7 : DefaultMessageIdTypes
  id_reserved_8 : DefaultMessageIdTypes
  id_reserved_9 : DefaultMessageIdTypes
  id_user_packet_enum : DefaultMessageIdTypes

-- The `MESSAGE_ID` lines, in order: the Python name of each enumerator.
unfoldable pub message_id_entries : Dict String DefaultMessageIdTypes
message_id_entries =
    ("ID_CONNECTED_PING", id_connected_ping)
    ∷ ("ID_UNCONNECTED_PING", id_unconnected_ping)
    ∷ ("ID_UNCONNECTED_PING_OPEN_CONNECTIONS", id_unconnected_ping_open_connections)
    ∷ ("ID_CONNECTED_PONG", id_connected_pong)
    ∷ ("ID_DETECT_LOST_CONNECTIONS", id_detect_lost_connections)
    ∷ ("ID_OPEN_CONNECTION_REQUEST_1", id_open_connection_request_1)
    ∷ ("ID_OPEN_CONNECTION_REPLY_1", id_open_connection_reply_1)
    ∷ ("ID_OPEN_CONNECTION_REQUEST_2", id_open_connection_request_2)
    ∷ ("ID_OPEN_CONNECTION_REPLY_2", id_open_connection_reply_2)
    ∷ ("ID_CONNECTION_REQUEST", id_connection_request)
    ∷ ("ID_REMOTE_SYSTEM_REQUIRES_PUBLIC_KEY", id_remote_system_requires_public_key)
    ∷ ("ID_OUR_SYSTEM_REQUIRES_SECURITY", id_our_system_requires_security)
    ∷ ("ID_PUBLIC_KEY_MISMATCH", id_public_key_mismatch)
    ∷ ("ID_OUT_OF_BAND_INTERNAL", id_out_of_band_internal)
    ∷ ("ID_SND_RECEIPT_ACKED", id_snd_receipt_acked)
    ∷ ("ID_SND_RECEIPT_LOSS", id_snd_receipt_loss)
    ∷ ("ID_CONNECTION_REQUEST_ACCEPTED", id_connection_request_accepted)
    ∷ ("ID_CONNECTION_ATTEMPT_FAILED", id_connection_attempt_failed)
    ∷ ("ID_ALREADY_CONNECTED", id_already_connected)
    ∷ ("ID_NEW_INCOMING_CONNECTION", id_new_incoming_connection)
    ∷ ("ID_NO_FREE_INCOMING_CONNECTIONS", id_no_free_incoming_connections)
    ∷ ("ID_DISCONNECTION_NOTIFICATION", id_disconnection_notification)
    ∷ ("ID_CONNECTION_LOST", id_connection_lost)
    ∷ ("ID_CONNECTION_BANNED", id_connection_banned)
    ∷ ("ID_INVALID_PASSWORD", id_invalid_password)
    ∷ ("ID_INCOMPATIBLE_PROTOCOL_VERSION", id_incompatible_protocol_version)
    ∷ ("ID_IP_RECENTLY_CONNECTED", id_ip_recently_connected)
    ∷ ("ID_TIMESTAMP", id_timestamp)
    ∷ ("ID_UNCONNECTED_PONG", id_unconnected_pong)
    ∷ ("ID_ADVERTISE_SYSTEM", id_advertise_system)
    ∷ ("ID_DOWNLOAD_PROGRESS", id_download_progress)
    ∷ ("ID_REMOTE_DISCONNECTION_NOTIFICATION", id_remote_disconnection_notification)
    ∷ ("ID_REMOTE_CONNECTION_LOST", id_remote_connection_lost)
    ∷ ("ID_REMOTE_NEW_INCOMING_CONNECTION", id_remote_new_incoming_connection)
    ∷ ("ID_FILE_LIST_TRANSFER_HEADER", id_file_list_transfer_header)
    ∷ ("ID_FILE_LIST_TRANSFER_FILE", id_file_list_transfer_file)
    ∷ ("ID_FILE_LIST_REFERENCE_PUSH_ACK", id_file_list_reference_push_ack)
    ∷ ("ID_DDT_DOWNLOAD_REQUEST", id_ddt_download_request)
    ∷ ("ID_TRANSPORT_STRING", id_transport_string)
    ∷ ("ID_REPLICA_MANAGER_CONSTRUCTION", id_replica_manager_construction)
    ∷ ("ID_REPLICA_MANAGER_SCOPE_CHANGE", id_replica_manager_scope_change)
    ∷ ("ID_REPLICA_MANAGER_SERIALIZE", id_replica_manager_serialize)
    ∷ ("ID_REPLICA_MANAGER_DOWNLOAD_STARTED", id_replica_manager_download_started)
    ∷ ("ID_REPLICA_MANAGER_DOWNLOAD_COMPLETE", id_replica_manager_download_complete)
    ∷ ("ID_RAKVOICE_OPEN_CHANNEL_REQUEST", id_rakvoice_open_channel_request)
    ∷ ("ID_RAKVOICE_OPEN_CHANNEL_REPLY", id_rakvoice_open_channel_reply)
    ∷ ("ID_RAKVOICE_CLOSE_CHANNEL", id_rakvoice_close_channel)
    ∷ ("ID_RAKVOICE_DATA", id_rakvoice_data)
    ∷ ("ID_AUTOPATCHER_GET_CHANGELIST_SINCE_DATE", id_autopatcher_get_changelist_since_date)
    ∷ ("ID_AUTOPATCHER_CREATION_LIST", id_autopatcher_creation_list)
    ∷ ("ID_AUTOPATCHER_DELETION_LIST", id_autopatcher_deletion_list)
    ∷ ("ID_AUTOPATCHER_GET_PATCH", id_autopatcher_get_patch)
    ∷ ("ID_AUTOPATCHER_PATCH_LIST", id_autopatcher_patch_list)
    ∷ ("ID_AUTOPATCHER_REPOSITORY_FATAL_ERROR", id_autopatcher_repository_fatal_error)
    ∷ (
      "ID_AUTOPATCHER_CANNOT_DOWNLOAD_ORIGINAL_UNMODIFIED_FILES",
      id_autopatcher_cannot_download_original_unmodified_files,
    )
    ∷ ("ID_AUTOPATCHER_FINISHED_INTERNAL", id_autopatcher_finished_internal)
    ∷ ("ID_AUTOPATCHER_FINISHED", id_autopatcher_finished)
    ∷ ("ID_AUTOPATCHER_RESTART_APPLICATION", id_autopatcher_restart_application)
    ∷ ("ID_NAT_PUNCHTHROUGH_REQUEST", id_nat_punchthrough_request)
    ∷ ("ID_NAT_CONNECT_AT_TIME", id_nat_connect_at_time)
    ∷ ("ID_NAT_GET_MOST_RECENT_PORT", id_nat_get_most_recent_port)
    ∷ ("ID_NAT_CLIENT_READY", id_nat_client_ready)
    ∷ ("ID_NAT_TARGET_NOT_CONNECTED", id_nat_target_not_connected)
    ∷ ("ID_NAT_TARGET_UNRESPONSIVE", id_nat_target_unresponsive)
    ∷ ("ID_NAT_CONNECTION_TO_TARGET_LOST", id_nat_connection_to_target_lost)
    ∷ ("ID_NAT_ALREADY_IN_PROGRESS", id_nat_already_in_progress)
    ∷ ("ID_NAT_PUNCHTHROUGH_FAILED", id_nat_punchthrough_failed)
    ∷ ("ID_NAT_PUNCHTHROUGH_SUCCEEDED", id_nat_punchthrough_succeeded)
    ∷ ("ID_READY_EVENT_SET", id_ready_event_set)
    ∷ ("ID_READY_EVENT_UNSET", id_ready_event_unset)
    ∷ ("ID_READY_EVENT_ALL_SET", id_ready_event_all_set)
    ∷ ("ID_READY_EVENT_QUERY", id_ready_event_query)
    ∷ ("ID_LOBBY_GENERAL", id_lobby_general)
    ∷ ("ID_RPC_REMOTE_ERROR", id_rpc_remote_error)
    ∷ ("ID_RPC_PLUGIN", id_rpc_plugin)
    ∷ ("ID_FILE_LIST_REFERENCE_PUSH", id_file_list_reference_push)
    ∷ ("ID_READY_EVENT_FORCE_ALL_SET", id_ready_event_force_all_set)
    ∷ ("ID_ROOMS_EXECUTE_FUNC", id_rooms_execute_func)
    ∷ ("ID_ROOMS_LOGON_STATUS", id_rooms_logon_status)
    ∷ ("ID_ROOMS_HANDLE_CHANGE", id_rooms_handle_change)
    ∷ ("ID_LOBBY2_SEND_MESSAGE", id_lobby2_send_message)
    ∷ ("ID_LOBBY2_SERVER_ERROR", id_lobby2_server_error)
    ∷ ("ID_FCM2_NEW_HOST", id_fcm2_new_host)
    ∷ ("ID_FCM2_REQUEST_FCMGUID", id_fcm2_request_fcmguid)
    ∷ ("ID_FCM2_RESPOND_CONNECTION_COUNT", id_fcm2_respond_connection_count)
    ∷ ("ID_FCM2_INFORM_FCMGUID", id_fcm2_inform_fcmguid)
    ∷ ("ID_FCM2_UPDATE_MIN_TOTAL_CONNECTION_COUNT", id_fcm2_update_min_total_connection_count)
    ∷ ("ID_FCM2_VERIFIED_JOIN_START", id_fcm2_verified_join_start)
    ∷ ("ID_FCM2_VERIFIED_JOIN_CAPABLE", id_fcm2_verified_join_capable)
    ∷ ("ID_FCM2_VERIFIED_JOIN_FAILED", id_fcm2_verified_join_failed)
    ∷ ("ID_FCM2_VERIFIED_JOIN_ACCEPTED", id_fcm2_verified_join_accepted)
    ∷ ("ID_FCM2_VERIFIED_JOIN_REJECTED", id_fcm2_verified_join_rejected)
    ∷ ("ID_UDP_PROXY_GENERAL", id_udp_proxy_general)
    ∷ ("ID_SQLite3_EXEC", id_sqlite3_exec)
    ∷ ("ID_SQLite3_UNKNOWN_DB", id_sqlite3_unknown_db)
    ∷ ("ID_SQLLITE_LOGGER", id_sqllite_logger)
    ∷ ("ID_NAT_TYPE_DETECTION_REQUEST", id_nat_type_detection_request)
    ∷ ("ID_NAT_TYPE_DETECTION_RESULT", id_nat_type_detection_result)
    ∷ ("ID_ROUTER_2_INTERNAL", id_router_2_internal)
    ∷ ("ID_ROUTER_2_FORWARDING_NO_PATH", id_router_2_forwarding_no_path)
    ∷ ("ID_ROUTER_2_FORWARDING_ESTABLISHED", id_router_2_forwarding_established)
    ∷ ("ID_ROUTER_2_REROUTED", id_router_2_rerouted)
    ∷ ("ID_TEAM_BALANCER_INTERNAL", id_team_balancer_internal)
    ∷ ("ID_TEAM_BALANCER_REQUESTED_TEAM_FULL", id_team_balancer_requested_team_full)
    ∷ ("ID_TEAM_BALANCER_REQUESTED_TEAM_LOCKED", id_team_balancer_requested_team_locked)
    ∷ ("ID_TEAM_BALANCER_TEAM_REQUESTED_CANCELLED", id_team_balancer_team_requested_cancelled)
    ∷ ("ID_TEAM_BALANCER_TEAM_ASSIGNED", id_team_balancer_team_assigned)
    ∷ ("ID_LIGHTSPEED_INTEGRATION", id_lightspeed_integration)
    ∷ ("ID_XBOX_LOBBY", id_xbox_lobby)
    ∷ (
      "ID_TWO_WAY_AUTHENTICATION_INCOMING_CHALLENGE_SUCCESS",
      id_two_way_authentication_incoming_challenge_success,
    )
    ∷ (
      "ID_TWO_WAY_AUTHENTICATION_OUTGOING_CHALLENGE_SUCCESS",
      id_two_way_authentication_outgoing_challenge_success,
    )
    ∷ (
      "ID_TWO_WAY_AUTHENTICATION_INCOMING_CHALLENGE_FAILURE",
      id_two_way_authentication_incoming_challenge_failure,
    )
    ∷ (
      "ID_TWO_WAY_AUTHENTICATION_OUTGOING_CHALLENGE_FAILURE",
      id_two_way_authentication_outgoing_challenge_failure,
    )
    ∷ (
      "ID_TWO_WAY_AUTHENTICATION_OUTGOING_CHALLENGE_TIMEOUT",
      id_two_way_authentication_outgoing_challenge_timeout,
    )
    ∷ ("ID_TWO_WAY_AUTHENTICATION_NEGOTIATION", id_two_way_authentication_negotiation)
    ∷ ("ID_CLOUD_POST_REQUEST", id_cloud_post_request)
    ∷ ("ID_CLOUD_RELEASE_REQUEST", id_cloud_release_request)
    ∷ ("ID_CLOUD_GET_REQUEST", id_cloud_get_request)
    ∷ ("ID_CLOUD_GET_RESPONSE", id_cloud_get_response)
    ∷ ("ID_CLOUD_UNSUBSCRIBE_REQUEST", id_cloud_unsubscribe_request)
    ∷ ("ID_CLOUD_SERVER_TO_SERVER_COMMAND", id_cloud_server_to_server_command)
    ∷ ("ID_CLOUD_SUBSCRIPTION_NOTIFICATION", id_cloud_subscription_notification)
    ∷ ("ID_LIB_VOICE", id_lib_voice)
    ∷ ("ID_RELAY_PLUGIN", id_relay_plugin)
    ∷ ("ID_NAT_REQUEST_BOUND_ADDRESSES", id_nat_request_bound_addresses)
    ∷ ("ID_NAT_RESPOND_BOUND_ADDRESSES", id_nat_respond_bound_addresses)
    ∷ ("ID_FCM2_UPDATE_USER_CONTEXT", id_fcm2_update_user_context)
    ∷ ("ID_RESERVED_3", id_reserved_3)
    ∷ ("ID_RESERVED_4", id_reserved_4)
    ∷ ("ID_RESERVED_5", id_reserved_5)
    ∷ ("ID_RESERVED_6", id_reserved_6)
    ∷ ("ID_RESERVED_7", id_reserved_7)
    ∷ ("ID_RESERVED_8", id_reserved_8)
    ∷ ("ID_RESERVED_9", id_reserved_9)
    ∷ ("ID_USER_PACKET_ENUM", id_user_packet_enum)
    ∷ []

-- The enumerator that Python's call of an enumeration, such as `DefaultMessageIDTypes(value)`,
-- finds among the registered ones, given their numbers; `none` is its `ValueError`.
unfoldable pub from_value {ℓ} : {A : Type ℓ} → (A → ℕ) → Dict String A → ℕ → Option A
from_value ids [] value = none
from_value ids ((name, m) ∷ entries) value =
    if ids m == value then some m else from_value ids entries value
