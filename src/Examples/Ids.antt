-- ===== src/Examples/Ids.antt =====
-- A numbering of the message ids for the examples: the place of each in the registration.
use raknet_python.Prelude.{ℕ, ◌≡◌, refl, sym, ◌∙◌, ap, Option, none, some, get_elem?}
use raknet_python.Raw.MessageId.{
  DefaultMessageIdTypes, message_id_entries, id_connected_ping, id_unconnected_ping,
  id_unconnected_ping_open_connections, id_connected_pong, id_detect_lost_connections,
  id_open_connection_request_1, id_open_connection_reply_1, id_open_connection_request_2,
  id_open_connection_reply_2, id_connection_request, id_remote_system_requires_public_key,
  id_our_system_requires_security, id_public_key_mismatch, id_out_of_band_internal,
  id_snd_receipt_acked, id_snd_receipt_loss, id_connection_request_accepted,
  id_connection_attempt_failed, id_already_connected, id_new_incoming_connection,
  id_no_free_incoming_connections, id_disconnection_notification, id_connection_lost,
  id_connection_banned, id_invalid_password, id_incompatible_protocol_version,
  id_ip_recently_connected, id_timestamp, id_unconnected_pong, id_advertise_system,
  id_download_progress, id_remote_disconnection_notification, id_remote_connection_lost,
  id_remote_new_incoming_connection, id_file_list_transfer_header, id_file_list_transfer_file,
  id_file_list_reference_push_ack, id_ddt_download_request, id_transport_string,
  id_replica_manager_construction, id_replica_manager_scope_change, id_replica_manager_serialize,
  id_replica_manager_download_started, id_replica_manager_download_complete,
  id_rakvoice_open_channel_request, id_rakvoice_open_channel_reply, id_rakvoice_close_channel,
  id_rakvoice_data, id_autopatcher_get_changelist_since_date, id_autopatcher_creation_list,
  id_autopatcher_deletion_list, id_autopatcher_get_patch, id_autopatcher_patch_list,
  id_autopatcher_repository_fatal_error, id_autopatcher_cannot_download_original_unmodified_files,
  id_autopatcher_finished_internal, id_autopatcher_finished, id_autopatcher_restart_application,
  id_nat_punchthrough_request, id_nat_connect_at_time, id_nat_get_most_recent_port,
  id_nat_client_ready, id_nat_target_not_connected, id_nat_target_unresponsive,
  id_nat_connection_to_target_lost, id_nat_already_in_progress, id_nat_punchthrough_failed,
  id_nat_punchthrough_succeeded, id_ready_event_set, id_ready_event_unset, id_ready_event_all_set,
  id_ready_event_query, id_lobby_general, id_rpc_remote_error, id_rpc_plugin,
  id_file_list_reference_push, id_ready_event_force_all_set, id_rooms_execute_func,
  id_rooms_logon_status, id_rooms_handle_change, id_lobby2_send_message, id_lobby2_server_error,
  id_fcm2_new_host, id_fcm2_request_fcmguid, id_fcm2_respond_connection_count,
  id_fcm2_inform_fcmguid, id_fcm2_update_min_total_connection_count, id_fcm2_verified_join_start,
  id_fcm2_verified_join_capable, id_fcm2_verified_join_failed, id_fcm2_verified_join_accepted,
  id_fcm2_verified_join_rejected, id_udp_proxy_general, id_sqlite3_exec, id_sqlite3_unknown_db,
  id_sqllite_logger, id_nat_type_detection_request, id_nat_type_detection_result,
  id_router_2_internal, id_router_2_forwarding_no_path, id_router_2_forwarding_established,
  id_router_2_rerouted, id_team_balancer_internal, id_team_balancer_requested_team_full,
  id_team_balancer_requested_team_locked, id_team_balancer_team_requested_cancelled,
  id_team_balancer_team_assigned, id_lightspeed_integration, id_xbox_lobby,
  id_two_way_authentication_incoming_challenge_success,
  id_two_way_authentication_outgoing_challenge_success,
  id_two_way_authentication_incoming_challenge_failure,
  id_two_way_authentication_outgoing_challenge_failure,
  id_two_way_authentication_outgoing_challenge_timeout, id_two_way_authentication_negotiation,
  id_cloud_post_request, id_cloud_release_request, id_cloud_get_request, id_cloud_get_response,
  id_cloud_unsubscribe_request, id_cloud_server_to_server_command,
  id_cloud_subscription_notification, id_lib_voice, id_relay_plugin, id_nat_request_bound_addresses,
  id_nat_respond_bound_addresses, id_fcm2_update_user_context, id_reserved_3, id_reserved_4,
  id_reserved_5, id_reserved_6, id_reserved_7, id_reserved_8, id_reserved_9, id_user_packet_enum,
}
use raknet_python.Raw.MessageId.Registered.{Distinct}

abbrev pub index : DefaultMessageIdTypes → ℕ
index id_connected_ping = 0
index id_unconnected_ping = 1
index id_unconnected_ping_open_connections = 2
index id_connected_pong = 3
index id_detect_lost_connections = 4
index id_open_connection_request_1 = 5
index id_open_connection_reply_1 = 6
index id_open_connection_request_2 = 7
index id_open_connection_reply_2 = 8
index id_connection_request = 9
index id_remote_system_requires_public_key = 10
index id_our_system_requires_security = 11
index id_public_key_mismatch = 12
index id_out_of_band_internal = 13
index id_snd_receipt_acked = 14
index id_snd_receipt_loss = 15
index id_connection_request_accepted = 16
index id_connection_attempt_failed = 17
index id_already_connected = 18
index id_new_incoming_connection = 19
index id_no_free_incoming_connections = 20
index id_disconnection_notification = 21
index id_connection_lost = 22
index id_connection_banned = 23
index id_invalid_password = 24
index id_incompatible_protocol_version = 25
index id_ip_recently_connected = 26
index id_timestamp = 27
index id_unconnected_pong = 28
index id_advertise_system = 29
index id_download_progress = 30
index id_remote_disconnection_notification = 31
index id_remote_connection_lost = 32
index id_remote_new_incoming_connection = 33
index id_file_list_transfer_header = 34
index id_file_list_transfer_file = 35
index id_file_list_reference_push_ack = 36
index id_ddt_download_request = 37
index id_transport_string = 38
index id_replica_manager_construction = 39
index id_replica_manager_scope_change = 40
index id_replica_manager_serialize = 41
index id_replica_manager_download_started = 42
index id_replica_manager_download_complete = 43
index id_rakvoice_open_channel_request = 44
index id_rakvoice_open_channel_reply = 45
index id_rakvoice_close_channel = 46
index id_rakvoice_data = 47
index id_autopatcher_get_changelist_since_date = 48
index id_autopatcher_creation_list = 49
index id_autopatcher_deletion_list = 50
index id_autopatcher_get_patch = 51
index id_autopatcher_patch_list = 52
index id_autopatcher_repository_fatal_error = 53
index id_autopatcher_cannot_download_original_unmodified_files = 54
index id_autopatcher_finished_internal = 55
index id_autopatcher_finished = 56
index id_autopatcher_restart_application = 57
index id_nat_punchthrough_request = 58
index id_nat_connect_at_time = 59
index id_nat_get_most_recent_port = 60
index id_nat_client_ready = 61
index id_nat_target_not_connected = 62
index id_nat_target_unresponsive = 63
index id_nat_connection_to_target_lost = 64
index id_nat_already_in_progress = 65
index id_nat_punchthrough_failed = 66
index id_nat_punchthrough_succeeded = 67
index id_ready_event_set = 68
index id_ready_event_unset = 69
index id_ready_event_all_set = 70
index id_ready_event_query = 71
index id_lobby_general = 72
index id_rpc_remote_error = 73
index id_rpc_plugin = 74
index id_file_list_reference_push = 75
index id_ready_event_force_all_set = 76
index id_rooms_execute_func = 77
index id_rooms_logon_status = 78
index id_rooms_handle_change = 79
index id_lobby2_send_message = 80
index id_lobby2_server_error = 81
index id_fcm2_new_host = 82
index id_fcm2_request_fcmguid = 83
index id_fcm2_respond_connection_count = 84
index id_fcm2_inform_fcmguid = 85
index id_fcm2_update_min_total_connection_count = 86
index id_fcm2_verified_join_start = 87
index id_fcm2_verified_join_capable = 88
index id_fcm2_verified_join_failed = 89
index id_fcm2_verified_join_accepted = 90
index id_fcm2_verified_join_rejected = 91
index id_udp_proxy_general = 92
index id_sqlite3_exec = 93
index id_sqlite3_unknown_db = 94
index id_sqllite_logger = 95
index id_nat_type_detection_request = 96
index id_nat_type_detection_result = 97
index id_router_2_internal = 98
index id_router_2_forwarding_no_path = 99
index id_router_2_forwarding_established = 100
index id_router_2_rerouted = 101
index id_team_balancer_internal = 102
index id_team_balancer_requested_team_full = 103
index id_team_balancer_requested_team_locked = 104
index id_team_balancer_team_requested_cancelled = 105
index id_team_balancer_team_assigned = 106
index id_lightspeed_integration = 107
index id_xbox_lobby = 108
index id_two_way_authentication_incoming_challenge_success = 109
index id_two_way_authentication_outgoing_challenge_success = 110
index id_two_way_authentication_incoming_challenge_failure = 111
index id_two_way_authentication_outgoing_challenge_failure = 112
index id_two_way_authentication_outgoing_challenge_timeout = 113
index id_two_way_authentication_negotiation = 114
index id_cloud_post_request = 115
index id_cloud_release_request = 116
index id_cloud_get_request = 117
index id_cloud_get_response = 118
index id_cloud_unsubscribe_request = 119
index id_cloud_server_to_server_command = 120
index id_cloud_subscription_notification = 121
index id_lib_voice = 122
index id_relay_plugin = 123
index id_nat_request_bound_addresses = 124
index id_nat_respond_bound_addresses = 125
index id_fcm2_update_user_context = 126
index id_reserved_3 = 127
index id_reserved_4 = 128
index id_reserved_5 = 129
index id_reserved_6 = 130
index id_reserved_7 = 131
index id_reserved_8 = 132
index id_reserved_9 = 133
index id_user_packet_enum = 134

abbrev enumerator_at : ℕ → Option DefaultMessageIdTypes
enumerator_at i = elim (get_elem? message_id_entries i) [ none ↦ none | some entry ↦ some entry.1 ]

enumerator_at-index : (m : DefaultMessageIdTypes) → enumerator_at (index m) ≡ some m
unfolding message_id_entries
enumerator_at-index id_connected_ping = refl
enumerator_at-index id_unconnected_ping = refl
enumerator_at-index id_unconnected_ping_open_connections = refl
enumerator_at-index id_connected_pong = refl
enumerator_at-index id_detect_lost_connections = refl
enumerator_at-index id_open_connection_request_1 = refl
enumerator_at-index id_open_connection_reply_1 = refl
enumerator_at-index id_open_connection_request_2 = refl
enumerator_at-index id_open_connection_reply_2 = refl
enumerator_at-index id_connection_request = refl
enumerator_at-index id_remote_system_requires_public_key = refl
enumerator_at-index id_our_system_requires_security = refl
enumerator_at-index id_public_key_mismatch = refl
enumerator_at-index id_out_of_band_internal = refl
enumerator_at-index id_snd_receipt_acked = refl
enumerator_at-index id_snd_receipt_loss = refl
enumerator_at-index id_connection_request_accepted = refl
enumerator_at-index id_connection_attempt_failed = refl
enumerator_at-index id_already_connected = refl
enumerator_at-index id_new_incoming_connection = refl
enumerator_at-index id_no_free_incoming_connections = refl
enumerator_at-index id_disconnection_notification = refl
enumerator_at-index id_connection_lost = refl
enumerator_at-index id_connection_banned = refl
enumerator_at-index id_invalid_password = refl
enumerator_at-index id_incompatible_protocol_version = refl
enumerator_at-index id_ip_recently_connected = refl
enumerator_at-index id_timestamp = refl
enumerator_at-index id_unconnected_pong = refl
enumerator_at-index id_advertise_system = refl
enumerator_at-index id_download_progress = refl
enumerator_at-index id_remote_disconnection_notification = refl
enumerator_at-index id_remote_connection_lost = refl
enumerator_at-index id_remote_new_incoming_connection = refl
enumerator_at-index id_file_list_transfer_header = refl
enumerator_at-index id_file_list_transfer_file = refl
enumerator_at-index id_file_list_reference_push_ack = refl
enumerator_at-index id_ddt_download_request = refl
enumerator_at-index id_transport_string = refl
enumerator_at-index id_replica_manager_construction = refl
enumerator_at-index id_replica_manager_scope_change = refl
enumerator_at-index id_replica_manager_serialize = refl
enumerator_at-index id_replica_manager_download_started = refl
enumerator_at-index id_replica_manager_download_complete = refl
enumerator_at-index id_rakvoice_open_channel_request = refl
enumerator_at-index id_rakvoice_open_channel_reply = refl
enumerator_at-index id_rakvoice_close_channel = refl
enumerator_at-index id_rakvoice_data = refl
enumerator_at-index id_autopatcher_get_changelist_since_date = refl
enumerator_at-index id_autopatcher_creation_list = refl
enumerator_at-index id_autopatcher_deletion_list = refl
enumerator_at-index id_autopatcher_get_patch = refl
enumerator_at-index id_autopatcher_patch_list = refl
enumerator_at-index id_autopatcher_repository_fatal_error = refl
enumerator_at-index id_autopatcher_cannot_download_original_unmodified_files = refl
enumerator_at-index id_autopatcher_finished_internal = refl
enumerator_at-index id_autopatcher_finished = refl
enumerator_at-index id_autopatcher_restart_application = refl
enumerator_at-index id_nat_punchthrough_request = refl
enumerator_at-index id_nat_connect_at_time = refl
enumerator_at-index id_nat_get_most_recent_port = refl
enumerator_at-index id_nat_client_ready = refl
enumerator_at-index id_nat_target_not_connected = refl
enumerator_at-index id_nat_target_unresponsive = refl
enumerator_at-index id_nat_connection_to_target_lost = refl
enumerator_at-index id_nat_already_in_progress = refl
enumerator_at-index id_nat_punchthrough_failed = refl
enumerator_at-index id_nat_punchthrough_succeeded = refl
enumerator_at-index id_ready_event_set = refl
enumerator_at-index id_ready_event_unset = refl
enumerator_at-index id_ready_event_all_set = refl
enumerator_at-index id_ready_event_query = refl
enumerator_at-index id_lobby_general = refl
enumerator_at-index id_rpc_remote_error = refl
enumerator_at-index id_rpc_plugin = refl
enumerator_at-index id_file_list_reference_push = refl
enumerator_at-index id_ready_event_force_all_set = refl
enumerator_at-index id_rooms_execute_func = refl
enumerator_at-index id_rooms_logon_status = refl
enumerator_at-index id_rooms_handle_change = refl
enumerator_at-index id_lobby2_send_message = refl
enumerator_at-index id_lobby2_server_error = refl
enumerator_at-index id_fcm2_new_host = refl
enumerator_at-index id_fcm2_request_fcmguid = refl
enumerator_at-index id_fcm2_respond_connection_count = refl
enumerator_at-index id_fcm2_inform_fcmguid = refl
enumerator_at-index id_fcm2_update_min_total_connection_count = refl
enumerator_at-index id_fcm2_verified_join_start = refl
enumerator_at-index id_fcm2_verified_join_capable = refl
enumerator_at-index id_fcm2_verified_join_failed = refl
enumerator_at-index id_fcm2_verified_join_accepted = refl
enumerator_at-index id_fcm2_verified_join_rejected = refl
enumerator_at-index id_udp_proxy_general = refl
enumerator_at-index id_sqlite3_exec = refl
enumerator_at-index id_sqlite3_unknown_db = refl
enumerator_at-index id_sqllite_logger = refl
enumerator_at-index id_nat_type_detection_request = refl
enumerator_at-index id_nat_type_detection_result = refl
enumerator_at-index id_router_2_internal = refl
enumerator_at-index id_router_2_forwarding_no_path = refl
enumerator_at-index id_router_2_forwarding_established = refl
enumerator_at-index id_router_2_rerouted = refl
enumerator_at-index id_team_balancer_internal = refl
enumerator_at-index id_team_balancer_requested_team_full = refl
enumerator_at-index id_team_balancer_requested_team_locked = refl
enumerator_at-index id_team_balancer_team_requested_cancelled = refl
enumerator_at-index id_team_balancer_team_assigned = refl
enumerator_at-index id_lightspeed_integration = refl
enumerator_at-index id_xbox_lobby = refl
enumerator_at-index id_two_way_authentication_incoming_challenge_success = refl
enumerator_at-index id_two_way_authentication_outgoing_challenge_success = refl
enumerator_at-index id_two_way_authentication_incoming_challenge_failure = refl
enumerator_at-index id_two_way_authentication_outgoing_challenge_failure = refl
enumerator_at-index id_two_way_authentication_outgoing_challenge_timeout = refl
enumerator_at-index id_two_way_authentication_negotiation = refl
enumerator_at-index id_cloud_post_request = refl
enumerator_at-index id_cloud_release_request = refl
enumerator_at-index id_cloud_get_request = refl
enumerator_at-index id_cloud_get_response = refl
enumerator_at-index id_cloud_unsubscribe_request = refl
enumerator_at-index id_cloud_server_to_server_command = refl
enumerator_at-index id_cloud_subscription_notification = refl
enumerator_at-index id_lib_voice = refl
enumerator_at-index id_relay_plugin = refl
enumerator_at-index id_nat_request_bound_addresses = refl
enumerator_at-index id_nat_respond_bound_addresses = refl
enumerator_at-index id_fcm2_update_user_context = refl
enumerator_at-index id_reserved_3 = refl
enumerator_at-index id_reserved_4 = refl
enumerator_at-index id_reserved_5 = refl
enumerator_at-index id_reserved_6 = refl
enumerator_at-index id_reserved_7 = refl
enumerator_at-index id_reserved_8 = refl
enumerator_at-index id_reserved_9 = refl
enumerator_at-index id_user_packet_enum = refl

some-injective : {m n : DefaultMessageIdTypes} → some m ≡ some n → m ≡ n
some-injective e = cc

pub index-Distinct : Distinct index
index-Distinct m n e =
    some-injective (sym (enumerator_at-index m) ∙ ap enumerator_at e ∙ enumerator_at-index n)
