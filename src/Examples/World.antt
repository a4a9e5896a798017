-- ===== src/Examples/World.antt =====
-- A RakNet of the documented kind that can be computed with: addresses are a host and a port,
-- packets are their bytes, and nothing but the state below is kept.
use raknet_python.Prelude.{
  if◌then◌else◌, ◌%◌, ℕ, zero, suc, ◌+◌, ◌-◌, ◌≡◌, ◌∙◌, refl, sym, ap, true, false, String, Option,
  none, some, List, [], ◌∷◌, arith, length, take, min, take_of_length-le,
}
use raknet_python.Prelude.Int.{ℤ, pos, negsuc}
use mathlib.Core.Option
use raknet_python.Raw.Enums.{raknet_started, connection_attempt_started, is_connected}
use raknet_python.Raw.Interface.{Bytes, RakNet, RakNetGuid}
use raknet_python.Raw.Peer.Packets.Ownership.{LendsPackets}
use raknet_python.Raw.Peer.Buffers.{copy_bytes}
use raknet_python.Raw.Peer.Buffers.Rows.{ListsConnections}
use raknet_python.Raw.Peer.Buffers.Password.{KeepsPassword}
use raknet_python.Raw.Peer.Buffers.Report.{ShortReports}
use raknet_python.Examples.Ids.{index}

pub record World : Type 0 where
  pub inbox : List Bytes
  pub lent : ℕ
  pub password : Bytes
  pub connected : List (String × ℕ)

abbrev pub guid_of : ℕ → RakNetGuid
guid_of g = record { g = g; system_index = 0 }

abbrev pub hand_out : List Bytes → World → Option Bytes × World
hand_out [] w = (none, w)
hand_out (b ∷ inbox) w = (some b, record w { inbox = inbox; lent = w.lent + 1 })

abbrev pub keep_password : Bytes → ℤ → World → World
keep_password b (pos n) w = record w { password = take (min n 255) b }
keep_password b (negsuc n) w = w

abbrev pub show_password : ℤ → World → Bytes × ℤ
show_password (pos n) w = (take n w.password, pos (min n (length w.password)))
show_password (negsuc n) w = ([], pos 0)

abbrev pub small : RakNet
small = record {
  SystemAddress = String × ℕ;
  AddressOrGuid = ℕ;
  RakNetStatistics = Unit;
  PacketPtr = Bytes;
  RakPeerInterface = World;
  message_id = index;
  host_address_size = 32;
  default_system_address = ("", 0);
  system_address = λ host port. (host, port);
  address_to_string = λ a write_port d. a.0;
  address_from_string = λ a s d v. (true, (s, a.1));
  get_port = λ a. a.1;
  of_system_address = λ a. a.1;
  of_guid = λ g. g.g;
  socket_descriptor = λ port host. record {
    port = port;
    host_address = 0 ∷ [];
    socket_family = 2;
    blocking_socket = true;
    extra_socket_options = 0;
  };
  statistics_to_string = λ s v. 104 ∷ 105 ∷ [];
  packet_system_address = λ b. ("10.0.0.7", 19132);
  packet_guid = λ b. guid_of 7;
  packet_length = λ b. length b;
  packet_bit_size = λ b. length b;
  packet_data = λ b. b;
  packet_was_generated_locally = λ b. false;
  get_instance = record { inbox = []; lent = 0; password = []; connected = [] };
  startup = λ m ds n p w. (raknet_started, w);
  set_maximum_incoming_connections = λ n w. w;
  get_maximum_incoming_connections = λ w. 0;
  set_incoming_password = keep_password;
  get_incoming_password = show_password;
  connect = λ h p b l i a t o w. (connection_attempt_started, w);
  shutdown = λ b o p w. w;
  is_active = λ w. true;
  get_maximum_number_of_peers = λ w. 3;
  empty_vector_has_data = false;
  get_connection_list = λ array n w. (
    true,
    (
      (if array then take n w.connected else []),
      (if array then length (take n w.connected) else length w.connected % 65536),
    ),
  );
  send = λ b l p r o a c n w. (1, w);
  send_loopback = λ b l w. w;
  send_list = λ bs ls n p r o a c f w. (1, w);
  receive = λ w. hand_out w.inbox w;
  deallocate_packet = λ b w. record w { lent = w.lent - 1 };
  close_connection = λ a s o p w. w;
  get_connection_state = λ a w. is_connected;
  cancel_connection_attempt = λ a w. w;
  get_system_list = λ w. (w.connected, []);
  add_to_ban_list = λ h n w. w;
  remove_from_ban_list = λ h w. w;
  clear_ban_list = λ w. w;
  is_banned = λ h w. false;
  ping = λ h p o i w. (true, w);
  set_offline_ping_response = λ b n w. w;
  get_offline_ping_response = λ w. ([], 0);
  get_client_public_key_from_system_address = λ a w. (false, []);
  get_statistics = λ a w. (true, tt);
  get_statistics_list = λ w. (w.connected, (guid_of 7 ∷ [], tt ∷ []));
}

hand_out-some :
    (inbox : List Bytes) (w : World) (b : Bytes)
    → (hand_out inbox w).0 ≡ some b
    → (hand_out inbox w).1.lent ≡ w.lent + 1
hand_out-some [] w b e = cc
hand_out-some (c ∷ inbox) w b e = refl

hand_out-none :
    (inbox : List Bytes) (w : World)
    → (hand_out inbox w).0 ≡ none
    → (hand_out inbox w).1.lent ≡ w.lent
hand_out-none [] w e = refl
hand_out-none (c ∷ inbox) w e = cc

pub small-LendsPackets : LendsPackets small (λ w. w.lent)
small-LendsPackets = record {
  lends = λ w b e. hand_out-some w.inbox w b e;
  idles = λ w e. hand_out-none w.inbox w e;
  takes_back = λ w b n e. omega arith;
}

copy_bytes-length : (b : Bytes) → copy_bytes (length b) b ≡ some b
unfolding copy_bytes
copy_bytes-length [] = refl
copy_bytes-length (c ∷ b) = ap (Option.map (λ t. c ∷ t)) (copy_bytes-length b)

length-take : (n : ℕ) (b : Bytes) → length (take n b) ≡ min n (length b)
length-take zero b = omega arith
length-take (suc n) [] = omega arith
length-take (suc n) (c ∷ b) = omega (arith, length-take n b)

pub small-KeepsPassword : KeepsPassword small (λ w. w.password)
small-KeepsPassword = record {
  sets = λ b n w. refl;
  gets = λ n w. refl;
  copies = λ n w.
      ap (λ k. copy_bytes k (take n w.password)) (sym (length-take n w.password))
      ∙ copy_bytes-length (take n w.password);
}

pub small-ListsConnections : ListsConnections small (λ w. w.connected)
small-ListsConnections = record {
  counts = λ n w e. omega arith;
  writes =
      λ n w e. take_of_length-le (length (take n w.connected)) (take n w.connected) (omega arith);
  counts_all = λ w e. refl;
}

pub small-ShortReports : ShortReports small
small-ShortReports = record { fits = λ s v low high. omega arith }
