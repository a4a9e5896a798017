-- ===== src/Peer/Starting.antt =====
-- `Peer.__init__` and the factories of src/raknet/_peer.py.
use raknet_python.Prelude.{
  ℕ, Bool, true, false, String, Option, none, some, List, [], ◌∷◌, if◌then◌else◌,
}
use raknet_python.Prelude.Int.{negsuc}
use raknet_python.Raw.Enums.{
  StartupResult, raknet_started, raknet_already_started, invalid_socket_descriptors,
  invalid_max_connections, socket_family_not_supported, socket_port_already_in_use,
  socket_failed_to_bind, socket_failed_test_send, port_cannot_be_zero,
  failed_to_create_network_thread, could_not_generate_guid, startup_other_failure,
}
use raknet_python.Raw.Interface.{Bytes, SocketDescriptor, RakNet}
use raknet_python.Raw.Peer as RawPeer
use raknet_python.Exceptions.{startup_error, Result, ok, raise}
use raknet_python.Mailbox
use raknet_python.Peer.{Peer}

unfoldable pub is_started : StartupResult → Bool
is_started raknet_started = true
is_started raknet_already_started = false
is_started invalid_socket_descriptors = false
is_started invalid_max_connections = false
is_started socket_family_not_supported = false
is_started socket_port_already_in_use = false
is_started socket_failed_to_bind = false
is_started socket_failed_test_send = false
is_started port_cannot_be_zero = false
is_started failed_to_create_network_thread = false
is_started could_not_generate_guid = false
is_started startup_other_failure = false

-- The arguments of `Peer`.
pub record PeerOptions : Type 0 where
  pub addresses : List (String × ℕ)
  pub max_connections : ℕ
  pub max_incoming_connections : Option ℕ
  pub password : Option Bytes
  pub offline_ping_response : Bytes
  pub max_queue : Option ℕ

-- The options that `create_server` passes: one address, and as many incoming connections as
-- connections at all.
unfoldable pub server_options : String × ℕ → ℕ → Option Bytes → Bytes → Option ℕ → PeerOptions
server_options address max_connections password offline_ping_response max_queue = record {
  addresses = address ∷ [];
  max_connections = max_connections;
  max_incoming_connections = some max_connections;
  password = password;
  offline_ping_response = offline_ping_response;
  max_queue = max_queue;
}

-- The options that `create_connection` passes: any local address, one connection, none incoming.
unfoldable pub client_options : Option ℕ → PeerOptions
client_options max_queue = record {
  addresses = ("", 0) ∷ [];
  max_connections = 1;
  max_incoming_connections = none;
  password = none;
  offline_ping_response = [];
  max_queue = max_queue;
}

-- `0 if max_incoming_connections is None else max_incoming_connections`
unfoldable pub incoming_limit : Option ℕ → ℕ
incoming_limit none = 0
incoming_limit (some n) = n

module _ (R : RakNet) where
  open R use {RakPeerInterface}

  -- `raw.SocketDescriptor(port, host)` for each address.
  unfoldable pub descriptors : List (String × ℕ) → List SocketDescriptor
  descriptors [] = []
  descriptors ((host, port) ∷ addresses) = R.socket_descriptor port host ∷ descriptors addresses

  -- `if password is not None`
  unfoldable pub lock : Option Bytes → RakPeerInterface → RakPeerInterface
  lock none raw = raw
  lock (some password) raw = RawPeer.set_incoming_password R raw password

  -- `if offline_ping_response`
  unfoldable pub set_response : Bytes → RakPeerInterface → RakPeerInterface
  set_response [] raw = raw
  set_response (c ∷ response) raw = RawPeer.set_offline_ping_response R raw (c ∷ response)

  -- The calls of RakNet that follow a successful start, in order.
  unfoldable pub configure : PeerOptions → RakPeerInterface → RakPeerInterface
  unfolding incoming_limit lock set_response
  configure options raw = set_response options.offline_ping_response (
      lock options.password (
        RawPeer.set_maximum_incoming_connections R raw
          (incoming_limit options.max_incoming_connections)))

  -- A peer with empty tables. No object of a store has been made; what stands at its references
  -- is never read.
  unfoldable pub new_peer : Option ℕ → RakPeerInterface → Peer R
  unfolding Mailbox.empty
  new_peer max_queue raw = record {
    raw = raw;
    closed = false;
    max_queue = max_queue;
    connections = [];
    pending_connects = [];
    pending_pings = [];
    accept_queue = [];
    connection_at = record {
      next = 0;
      at = λ r. record {
        raw_address = R.default_system_address;
        raw_guid = record { g = 0; system_index = 0 };
        closed = false;
        owns_peer = false;
        mailbox = Mailbox.empty max_queue;
      };
    };
    connect_at = record {
      next = 0;
      at = λ r. record { event = false; connection = none; reason = none };
    };
    ping_at = record { next = 0; at = λ r. record { event = false; pong = none; started = 0 } };
  }

  -- `Peer(addresses, …)`
  unfoldable pub start : PeerOptions → Result (Peer R)
  unfolding is_started descriptors configure new_peer
  start options =
      let (result, raw) =
        RawPeer.startup R (RawPeer.rak_peer R) options.max_connections
          (descriptors options.addresses) (negsuc 99998) in
      if is_started result
      then ok (new_peer options.max_queue (configure options raw))
      else raise (startup_error result)
