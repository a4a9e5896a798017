-- ===== src/Router/Control.antt =====
-- The control messages of the router, and the callback that each stands for.
use raknet_python.Prelude.{◌≡◌, refl, Bool, true, false, drop, nat_eq}
use raknet_python.Raw.MessageId.{
  DefaultMessageIdTypes, id_connection_attempt_failed, id_already_connected,
  id_no_free_incoming_connections, id_connection_banned, id_invalid_password,
  id_incompatible_protocol_version, id_ip_recently_connected, id_new_incoming_connection,
  id_connection_request_accepted, id_disconnection_notification, id_connection_lost,
  id_unconnected_pong,
}
use raknet_python.Raw.Peer.Packets.{Packet}
use raknet_python.Router.{Sink}

-- The control messages that the router handles.
pub data Control : Type 0 where
  incoming accepted graceful lost answered : Control
  attempt_failed already_connected no_free_incoming banned invalid_password : Control
  incompatible_version recently_connected : Control

abbrev pub enumerator : Control → DefaultMessageIdTypes
enumerator incoming = id_new_incoming_connection
enumerator accepted = id_connection_request_accepted
enumerator graceful = id_disconnection_notification
enumerator lost = id_connection_lost
enumerator answered = id_unconnected_pong
enumerator attempt_failed = id_connection_attempt_failed
enumerator already_connected = id_already_connected
enumerator no_free_incoming = id_no_free_incoming_connections
enumerator banned = id_connection_banned
enumerator invalid_password = id_invalid_password
enumerator incompatible_version = id_incompatible_protocol_version
enumerator recently_connected = id_ip_recently_connected

module _ {A S : Type 0} (sink : Sink A S) where
  -- The callback that each control message stands for.
  abbrev pub deliver : Control → Packet A → S → S
  deliver incoming p = sink.incoming_connection p.system_address p.guid
  deliver accepted p = sink.connect_succeeded p.system_address p.guid
  deliver graceful p = sink.disconnected p.guid true
  deliver lost p = sink.disconnected p.guid false
  deliver answered p = sink.pong p.system_address p.guid (drop 5 p.bytes)
  deliver attempt_failed p = sink.connect_failed p.system_address id_connection_attempt_failed
  deliver already_connected p = sink.connect_failed p.system_address id_already_connected
  deliver no_free_incoming p = sink.connect_failed p.system_address id_no_free_incoming_connections
  deliver banned p = sink.connect_failed p.system_address id_connection_banned
  deliver invalid_password p = sink.connect_failed p.system_address id_invalid_password
  deliver incompatible_version p =
      sink.connect_failed p.system_address id_incompatible_protocol_version
  deliver recently_connected p = sink.connect_failed p.system_address id_ip_recently_connected

-- Whether a control message is one of the failed connects.
abbrev pub is_failure : Control → Bool
is_failure incoming = false
is_failure accepted = false
is_failure graceful = false
is_failure lost = false
is_failure answered = false
is_failure attempt_failed = true
is_failure already_connected = true
is_failure no_free_incoming = true
is_failure banned = true
is_failure invalid_password = true
is_failure incompatible_version = true
is_failure recently_connected = true

abbrev pub is_failure_id : DefaultMessageIdTypes → Bool
is_failure_id id_connection_attempt_failed = true
is_failure_id id_already_connected = true
is_failure_id id_no_free_incoming_connections = true
is_failure_id id_connection_banned = true
is_failure_id id_invalid_password = true
is_failure_id id_incompatible_protocol_version = true
is_failure_id id_ip_recently_connected = true
is_failure_id _ = false

pub is_failure_id-enumerator : (c : Control) → is_failure_id (enumerator c) ≡ is_failure c
is_failure_id-enumerator incoming = refl
is_failure_id-enumerator accepted = refl
is_failure_id-enumerator graceful = refl
is_failure_id-enumerator lost = refl
is_failure_id-enumerator answered = refl
is_failure_id-enumerator attempt_failed = refl
is_failure_id-enumerator already_connected = refl
is_failure_id-enumerator no_free_incoming = refl
is_failure_id-enumerator banned = refl
is_failure_id-enumerator invalid_password = refl
is_failure_id-enumerator incompatible_version = refl
is_failure_id-enumerator recently_connected = refl
