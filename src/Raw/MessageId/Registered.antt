-- ===== src/Raw/MessageId/Registered.antt =====
-- Every enumerator of `DefaultMessageIDTypes` is registered, and can be found again.
use raknet_python.Prelude.{
  ℕ, zero, suc, String, ◌≡◌, refl, some, [], ◌∷◌, arith, get_elem?, ◌==◌, nat_eq, string_eq,
  Bool-cases, inl, inr,
}
use raknet_python.Prelude.Dict.{Dict, lookup}
use raknet_python.Raw.MessageId.{
  DefaultMessageIdTypes, message_id_entries, from_value, id_connected_ping, id_unconnected_ping,
  id_unconnected_ping_open_connections, id_connected_pong, id_detect_lost_connections,
  id_open_connection_request_1, id_open_connection_reply_1, id_open_connection_request_2,
  id_open_connection_reply_2, id_connection_request, id_remote_system_requires_public_key,
  id_our_system_requires_security, id_public_key_mismatch, id_out_of_band_internal,
  id_snd_receipt_acked, id_snd_receipt_loss, id_connection_request_accepted,
  id_connection_attempt_failed, id_already_connected, id_new_incoming_connection,
  id_no_free_incoming_connections, id_disconnection_notification, id_connection_lost,
  id_connection_banned, id_invalid_password, id_incompatible_protocol_version,
  id_ip_recently_connected, id_timestamp, id_unconnected_pong, id_advertise_system,
  id_download_progress, id_remote_disconnection_notification, id_remote_connection_lost,
  id_remote_new_incoming_connection, id_file_list_transfer_header, id_file_list_transfer_file,
  id_file_list_reference_push_ack, id_ddt_download_request, id_transport_string,
  id_replica_manager_construction, id_replica_manager_scope_change, id_replica_manager_serialize,
  id_replica_manager_download_started, id_replica_manager_download_complete,
  id_rakvoice_open_channel_request, id_rakvoice_open_channel_reply, id_rakvoice_close_channel,
  id_rakvoice_data, id_autopatcher_get_changelist_since_date, id_autopatcher_creation_list,
  id_autopatcher_deletion_list, id_autopatcher_get_patch, id_autopatcher_patch_list,
  id_autopatcher_repository_fatal_error, id_autopatcher_cannot_download_original_unmodified_files,
  id_autopatcher_finished_internal, id_autopatcher_finished, id_autopatcher_restart_application,
  id_nat_punchthrough_request, id_nat_connect_at_time, id_nat_get_most_recent_port,
  id_nat_client_ready, id_nat_target_not_connected, id_nat_target_unresponsive,
  id_nat_connection_to_target_lost, id_nat_already_in_progress, id_nat_punchthrough_failed,
  id_nat_punchthrough_succeeded, id_ready_event_set, id_ready_event_unset, id_ready_event_all_set,
  id_ready_event_query, id_lobby_general, id_rpc_remote_error, id_rpc_plugin,
  id_file_list_reference_push, id_ready_event_force_all_set, id_rooms_execute_func,
  id_rooms_logon_status, id_rooms_handle_change, id_lobby2_send_message, id_lobby2_server_error,
  id_fcm2_new_host, id_fcm2_request_fcmguid, id_fcm2_respond_connection_count,
  id_fcm2_inform_fcmguid, id_fcm2_update_min_total_connection_count, id_fcm2_verified_join_start,
  id_fcm2_verified_join_capable, id_fcm2_verified_join_failed, id_fcm2_verified_join_accepted,
  id_fcm2_verified_join_rejected, id_udp_proxy_general, id_sqlite3_exec, id_sqlite3_unknown_db,
  id_sqllite_logger, id_nat_type_detection_request, id_nat_type_detection_result,
  id_router_2_internal, id_router_2_forwarding_no_path, id_router_2_forwarding_established,
  id_router_2_rerouted, id_team_balancer_internal, id_team_balancer_requested_team_full,
  id_team_balancer_requested_team_locked, id_team_balancer_team_requested_cancelled,
  id_team_balancer_team_assigned, id_lightspeed_integration, id_xbox_lobby,
  id_two_way_authentication_incoming_challenge_success,
  id_two_way_authentication_outgoing_challenge_success,
  id_two_way_authentication_incoming_challenge_failure,
  id_two_way_authentication_outgoing_challenge_failure,
  id_two_way_authentication_outgoing_challenge_timeout, id_two_way_authentication_negotiation,
  id_cloud_post_request, id_cloud_release_request, id_cloud_get_request, id_cloud_get_response,
  id_cloud_unsubscribe_request, id_cloud_server_to_server_command,
  id_cloud_subscription_notification, id_lib_voice, id_relay_plugin, id_nat_request_bound_addresses,
  id_nat_respond_bound_addresses, id_fcm2_update_user_context, id_reserved_3, id_reserved_4,
  id_reserved_5, id_reserved_6, id_reserved_7, id_reserved_8, id_reserved_9, id_user_packet_enum,
}

-- No two of the numbers behind the enumerators are the same.
abbrev pub Distinct : (DefaultMessageIdTypes → ℕ) → Type 0
Distinct ids = (m n : DefaultMessageIdTypes) → ids m ≡ ids n → m ≡ n

-- The place of an enumerator in the table, with its Python name.
registered :
    (m : DefaultMessageIdTypes)
    → (i : ℕ) × (k : String) × (get_elem? message_id_entries i ≡ some (k, m))
      × (lookup k message_id_entries ≡ some m)
unfolding message_id_entries lookup
registered id_connected_ping = (0, "ID_CONNECTED_PING", refl, refl)
registered id_unconnected_ping = (1, "ID_UNCONNECTED_PING", refl, refl)
registered id_unconnected_ping_open_connections =
    (2, "ID_UNCONNECTED_PING_OPEN_CONNECTIONS", refl, refl)
registered id_connected_pong = (3, "ID_CONNECTED_PONG", refl, refl)
registered id_detect_lost_connections = (4, "ID_DETECT_LOST_CONNECTIONS", refl, refl)
registered id_open_connection_request_1 = (5, "ID_OPEN_CONNECTION_REQUEST_1", refl, refl)
registered id_open_connection_reply_1 = (6, "ID_OPEN_CONNECTION_REPLY_1", refl, refl)
registered id_open_connection_request_2 = (7, "ID_OPEN_CONNECTION_REQUEST_2", refl, refl)
registered id_open_connection_reply_2 = (8, "ID_OPEN_CONNECTION_REPLY_2", refl, refl)
registered id_connection_request = (9, "ID_CONNECTION_REQUEST", refl, refl)
registered id_remote_system_requires_public_key =
    (10, "ID_REMOTE_SYSTEM_REQUIRES_PUBLIC_KEY", refl, refl)
registered id_our_system_requires_security = (11, "ID_OUR_SYSTEM_REQUIRES_SECURITY", refl, refl)
registered id_public_key_mismatch = (12, "ID_PUBLIC_KEY_MISMATCH", refl, refl)
registered id_out_of_band_internal = (13, "ID_OUT_OF_BAND_INTERNAL", refl, refl)
registered id_snd_receipt_acked = (14, "ID_SND_RECEIPT_ACKED", refl, refl)
registered id_snd_receipt_loss = (15, "ID_SND_RECEIPT_LOSS", refl, refl)
registered id_connection_request_accepted = (16, "ID_CONNECTION_REQUEST_ACCEPTED", refl, refl)
registered id_connection_attempt_failed = (17, "ID_CONNECTION_ATTEMPT_FAILED", refl, refl)
registered id_already_connected = (18, "ID_ALREADY_CONNECTED", refl, refl)
registered id_new_incoming_connection = (19, "ID_NEW_INCOMING_CONNECTION", refl, refl)
registered id_no_free_incoming_connections = (20, "ID_NO_FREE_INCOMING_CONNECTIONS", refl, refl)
registered id_disconnection_notification = (21, "ID_DISCONNECTION_NOTIFICATION", refl, refl)
registered id_connection_lost = (22, "ID_CONNECTION_LOST", refl, refl)
registered id_connection_banned = (23, "ID_CONNECTION_BANNED", refl, refl)
registered id_invalid_password = (24, "ID_INVALID_PASSWORD", refl, refl)
registered id_incompatible_protocol_version = (25, "ID_INCOMPATIBLE_PROTOCOL_VERSION", refl, refl)
registered id_ip_recently_connected = (26, "ID_IP_RECENTLY_CONNECTED", refl, refl)
registered id_timestamp = (27, "ID_TIMESTAMP", refl, refl)
registered id_unconnected_pong = (28, "ID_UNCONNECTED_PONG", refl, refl)
registered id_advertise_system = (29, "ID_ADVERTISE_SYSTEM", refl, refl)
registered id_download_progress = (30, "ID_DOWNLOAD_PROGRESS", refl, refl)
registered id_remote_disconnection_notification =
    (31, "ID_REMOTE_DISCONNECTION_NOTIFICATION", refl, refl)
registered id_remote_connection_lost = (32, "ID_REMOTE_CONNECTION_LOST", refl, refl)
registered id_remote_new_incoming_connection = (33, "ID_REMOTE_NEW_INCOMING_CONNECTION", refl, refl)
registered id_file_list_transfer_header = (34, "ID_FILE_LIST_TRANSFER_HEADER", refl, refl)
registered id_file_list_transfer_file = (35, "ID_FILE_LIST_TRANSFER_FILE", refl, refl)
registered id_file_list_reference_push_ack = (36, "ID_FILE_LIST_REFERENCE_PUSH_ACK", refl, refl)
registered id_ddt_download_request = (37, "ID_DDT_DOWNLOAD_REQUEST", refl, refl)
registered id_transport_string = (38, "ID_TRANSPORT_STRING", refl, refl)
registered id_replica_manager_construction = (39, "ID_REPLICA_MANAGER_CONSTRUCTION", refl, refl)
registered id_replica_manager_scope_change = (40, "ID_REPLICA_MANAGER_SCOPE_CHANGE", refl, refl)
registered id_replica_manager_serialize = (41, "ID_REPLICA_MANAGER_SERIALIZE", refl, refl)
registered id_replica_manager_download_started =
    (42, "ID_REPLICA_MANAGER_DOWNLOAD_STARTED", refl, refl)
registered id_replica_manager_download_complete =
    (43, "ID_REPLICA_MANAGER_DOWNLOAD_COMPLETE", refl, refl)
registered id_rakvoice_open_channel_request = (44, "ID_RAKVOICE_OPEN_CHANNEL_REQUEST", refl, refl)
registered id_rakvoice_open_channel_reply = (45, "ID_RAKVOICE_OPEN_CHANNEL_REPLY", refl, refl)
registered id_rakvoice_close_channel = (46, "ID_RAKVOICE_CLOSE_CHANNEL", refl, refl)
registered id_rakvoice_data = (47, "ID_RAKVOICE_DATA", refl, refl)
registered id_autopatcher_get_changelist_since_date =
    (48, "ID_AUTOPATCHER_GET_CHANGELIST_SINCE_DATE", refl, refl)
registered id_autopatcher_creation_list = (49, "ID_AUTOPATCHER_CREATION_LIST", refl, refl)
registered id_autopatcher_deletion_list = (50, "ID_AUTOPATCHER_DELETION_LIST", refl, refl)
registered id_autopatcher_get_patch = (51, "ID_AUTOPATCHER_GET_PATCH", refl, refl)
registered id_autopatcher_patch_list = (52, "ID_AUTOPATCHER_PATCH_LIST", refl, refl)
registered id_autopatcher_repository_fatal_error =
    (53, "ID_AUTOPATCHER_REPOSITORY_FATAL_ERROR", refl, refl)
registered id_autopatcher_cannot_download_original_unmodified_files =
    (54, "ID_AUTOPATCHER_CANNOT_DOWNLOAD_ORIGINAL_UNMODIFIED_FILES", refl, refl)
registered id_autopatcher_finished_internal = (55, "ID_AUTOPATCHER_FINISHED_INTERNAL", refl, refl)
registered id_autopatcher_finished = (56, "ID_AUTOPATCHER_FINISHED", refl, refl)
registered id_autopatcher_restart_application =
    (57, "ID_AUTOPATCHER_RESTART_APPLICATION", refl, refl)
registered id_nat_punchthrough_request = (58, "ID_NAT_PUNCHTHROUGH_REQUEST", refl, refl)
registered id_nat_connect_at_time = (59, "ID_NAT_CONNECT_AT_TIME", refl, refl)
registered id_nat_get_most_recent_port = (60, "ID_NAT_GET_MOST_RECENT_PORT", refl, refl)
registered id_nat_client_ready = (61, "ID_NAT_CLIENT_READY", refl, refl)
registered id_nat_target_not_connected = (62, "ID_NAT_TARGET_NOT_CONNECTED", refl, refl)
registered id_nat_target_unresponsive = (63, "ID_NAT_TARGET_UNRESPONSIVE", refl, refl)
registered id_nat_connection_to_target_lost = (64, "ID_NAT_CONNECTION_TO_TARGET_LOST", refl, refl)
registered id_nat_already_in_progress = (65, "ID_NAT_ALREADY_IN_PROGRESS", refl, refl)
registered id_nat_punchthrough_failed = (66, "ID_NAT_PUNCHTHROUGH_FAILED", refl, refl)
registered id_nat_punchthrough_succeeded = (67, "ID_NAT_PUNCHTHROUGH_SUCCEEDED", refl, refl)
registered id_ready_event_set = (68, "ID_READY_EVENT_SET", refl, refl)
registered id_ready_event_unset = (69, "ID_READY_EVENT_UNSET", refl, refl)
registered id_ready_event_all_set = (70, "ID_READY_EVENT_ALL_SET", refl, refl)
registered id_ready_event_query = (71, "ID_READY_EVENT_QUERY", refl, refl)
registered id_lobby_general = (72, "ID_LOBBY_GENERAL", refl, refl)
registered id_rpc_remote_error = (73, "ID_RPC_REMOTE_ERROR", refl, refl)
registered id_rpc_plugin = (74, "ID_RPC_PLUGIN", refl, refl)
registered id_file_list_reference_push = (75, "ID_FILE_LIST_REFERENCE_PUSH", refl, refl)
registered id_ready_event_force_all_set = (76, "ID_READY_EVENT_FORCE_ALL_SET", refl, refl)
registered id_rooms_execute_func = (77, "ID_ROOMS_EXECUTE_FUNC", refl, refl)
registered id_rooms_logon_status = (78, "ID_ROOMS_LOGON_STATUS", refl, refl)
registered id_rooms_handle_change = (79, "ID_ROOMS_HANDLE_CHANGE", refl, refl)
registered id_lobby2_send_message = (80, "ID_LOBBY2_SEND_MESSAGE", refl, refl)
registered id_lobby2_server_error = (81, "ID_LOBBY2_SERVER_ERROR", refl, refl)
registered id_fcm2_new_host = (82, "ID_FCM2_NEW_HOST", refl, refl)
registered id_fcm2_request_fcmguid = (83, "ID_FCM2_REQUEST_FCMGUID", refl, refl)
registered id_fcm2_respond_connection_count = (84, "ID_FCM2_RESPOND_CONNECTION_COUNT", refl, refl)
registered id_fcm2_inform_fcmguid = (85, "ID_FCM2_INFORM_FCMGUID", refl, refl)
registered id_fcm2_update_min_total_connection_count =
    (86, "ID_FCM2_UPDATE_MIN_TOTAL_CONNECTION_COUNT", refl, refl)
registered id_fcm2_verified_join_start = (87, "ID_FCM2_VERIFIED_JOIN_START", refl, refl)
registered id_fcm2_verified_join_capable = (88, "ID_FCM2_VERIFIED_JOIN_CAPABLE", refl, refl)
registered id_fcm2_verified_join_failed = (89, "ID_FCM2_VERIFIED_JOIN_FAILED", refl, refl)
registered id_fcm2_verified_join_accepted = (90, "ID_FCM2_VERIFIED_JOIN_ACCEPTED", refl, refl)
registered id_fcm2_verified_join_rejected = (91, "ID_FCM2_VERIFIED_JOIN_REJECTED", refl, refl)
registered id_udp_proxy_general = (92, "ID_UDP_PROXY_GENERAL", refl, refl)
registered id_sqlite3_exec = (93, "ID_SQLite3_EXEC", refl, refl)
registered id_sqlite3_unknown_db = (94, "ID_SQLite3_UNKNOWN_DB", refl, refl)
registered id_sqllite_logger = (95, "ID_SQLLITE_LOGGER", refl, refl)
registered id_nat_type_detection_request = (96, "ID_NAT_TYPE_DETECTION_REQUEST", refl, refl)
registered id_nat_type_detection_result = (97, "ID_NAT_TYPE_DETECTION_RESULT", refl, refl)
registered id_router_2_internal = (98, "ID_ROUTER_2_INTERNAL", refl, refl)
registered id_router_2_forwarding_no_path = (99, "ID_ROUTER_2_FORWARDING_NO_PATH", refl, refl)
registered id_router_2_forwarding_established =
    (100, "ID_ROUTER_2_FORWARDING_ESTABLISHED", refl, refl)
registered id_router_2_rerouted = (101, "ID_ROUTER_2_REROUTED", refl, refl)
registered id_team_balancer_internal = (102, "ID_TEAM_BALANCER_INTERNAL", refl, refl)
registered id_team_balancer_requested_team_full =
    (103, "ID_TEAM_BALANCER_REQUESTED_TEAM_FULL", refl, refl)
registered id_team_balancer_requested_team_locked =
    (104, "ID_TEAM_BALANCER_REQUESTED_TEAM_LOCKED", refl, refl)
registered id_team_balancer_team_requested_cancelled =
    (105, "ID_TEAM_BALANCER_TEAM_REQUESTED_CANCELLED", refl, refl)
registered id_team_balancer_team_assigned = (106, "ID_TEAM_BALANCER_TEAM_ASSIGNED", refl, refl)
registered id_lightspeed_integration = (107, "ID_LIGHTSPEED_INTEGRATION", refl, refl)
registered id_xbox_lobby = (108, "ID_XBOX_LOBBY", refl, refl)
registered id_two_way_authentication_incoming_challenge_success =
    (109, "ID_TWO_WAY_AUTHENTICATION_INCOMING_CHALLENGE_SUCCESS", refl, refl)
registered id_two_way_authentication_outgoing_challenge_success =
    (110, "ID_TWO_WAY_AUTHENTICATION_OUTGOING_CHALLENGE_SUCCESS", refl, refl)
registered id_two_way_authentication_incoming_challenge_failure =
    (111, "ID_TWO_WAY_AUTHENTICATION_INCOMING_CHALLENGE_FAILURE", refl, refl)
registered id_two_way_authentication_outgoing_challenge_failure =
    (112, "ID_TWO_WAY_AUTHENTICATION_OUTGOING_CHALLENGE_FAILURE", refl, refl)
registered id_two_way_authentication_outgoing_challenge_timeout =
    (113, "ID_TWO_WAY_AUTHENTICATION_OUTGOING_CHALLENGE_TIMEOUT", refl, refl)
registered id_two_way_authentication_negotiation =
    (114, "ID_TWO_WAY_AUTHENTICATION_NEGOTIATION", refl, refl)
registered id_cloud_post_request = (115, "ID_CLOUD_POST_REQUEST", refl, refl)
registered id_cloud_release_request = (116, "ID_CLOUD_RELEASE_REQUEST", refl, refl)
registered id_cloud_get_request = (117, "ID_CLOUD_GET_REQUEST", refl, refl)
registered id_cloud_get_response = (118, "ID_CLOUD_GET_RESPONSE", refl, refl)
registered id_cloud_unsubscribe_request = (119, "ID_CLOUD_UNSUBSCRIBE_REQUEST", refl, refl)
registered id_cloud_server_to_server_command =
    (120, "ID_CLOUD_SERVER_TO_SERVER_COMMAND", refl, refl)
registered id_cloud_subscription_notification =
    (121, "ID_CLOUD_SUBSCRIPTION_NOTIFICATION", refl, refl)
registered id_lib_voice = (122, "ID_LIB_VOICE", refl, refl)
registered id_relay_plugin = (123, "ID_RELAY_PLUGIN", refl, refl)
registered id_nat_request_bound_addresses = (124, "ID_NAT_REQUEST_BOUND_ADDRESSES", refl, refl)
registered id_nat_respond_bound_addresses = (125, "ID_NAT_RESPOND_BOUND_ADDRESSES", refl, refl)
registered id_fcm2_update_user_context = (126, "ID_FCM2_UPDATE_USER_CONTEXT", refl, refl)
registered id_reserved_3 = (127, "ID_RESERVED_3", refl, refl)
registered id_reserved_4 = (128, "ID_RESERVED_4", refl, refl)
registered id_reserved_5 = (129, "ID_RESERVED_5", refl, refl)
registered id_reserved_6 = (130, "ID_RESERVED_6", refl, refl)
registered id_reserved_7 = (131, "ID_RESERVED_7", refl, refl)
registered id_reserved_8 = (132, "ID_RESERVED_8", refl, refl)
registered id_reserved_9 = (133, "ID_RESERVED_9", refl, refl)
registered id_user_packet_enum = (134, "ID_USER_PACKET_ENUM", refl, refl)

module _ {ℓ} {A : Type ℓ} (ids : A → ℕ) where
  from_value_entry :
      (distinct : (m n : A) → ids m ≡ ids n → m ≡ n)
      → (d : Dict String A) (i : ℕ) (k : String) (m : A) → get_elem? d i ≡ some (k, m)
      → from_value ids d (ids m) ≡ some m
  unfolding from_value
  from_value_entry distinct [] i k m h = cc
  from_value_entry distinct ((j, n) ∷ d) zero k m h = ground arith
  from_value_entry distinct ((j, n) ∷ d) (suc i) k m h =
      ground (arith, distinct n m, from_value_entry distinct d i k m h)

  from_value_found :
      (d : Dict String A) (i : ℕ) (k : String) (m : A)
      → get_elem? d i ≡ some (k, m)
      → (n : A) × (from_value ids d (ids m) ≡ some n) × (ids n ≡ ids m)
  unfolding from_value
  from_value_found [] i k m h = absurd (cc)
  from_value_found ((j, n) ∷ d) zero k m h = (m, ground arith, refl)
  from_value_found ((j, n) ∷ d) (suc i) k m h = elim (Bool-cases (ids n == ids m)) [
    | inl same ↦ (n, rw same, ground arith)
    | inr other ↦ rw other (from_value_found d i k m h)
  ]

-- `DefaultMessageIDTypes(int(m))` never raises, and gives an enumerator with the number of `m`.
pub from_value_total :
    (ids : DefaultMessageIdTypes → ℕ) (m : DefaultMessageIdTypes)
    → (n : DefaultMessageIdTypes) × (from_value ids message_id_entries (ids m) ≡ some n)
      × (ids n ≡ ids m)
from_value_total ids m =
    let (i, k, e, _) = registered m in from_value_found ids message_id_entries i k m e

-- Where the numbers behind the enumerators are distinct, every enumerator of
-- `DefaultMessageIDTypes` is registered under a Python name, by which it is found, and the number
-- of the enumerator is turned back into the enumerator.
pub registered_round_trip :
    (ids : DefaultMessageIdTypes → ℕ)
    → Distinct ids
    → (m : DefaultMessageIdTypes)
    → (k : String) × (lookup k message_id_entries ≡ some m)
      × (from_value ids message_id_entries (ids m) ≡ some m)
registered_round_trip ids distinct m =
    let (i, k, e, named) = registered m in
    (k, named, from_value_entry ids distinct message_id_entries i k m e)
