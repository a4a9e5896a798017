-- ===== src/Peer/Pump/Invariant.antt =====
-- Receiving and routing packets leaves a peer that is in order in order.
use raknet_python.Prelude.{ℕ}
use raknet_python.Raw.Interface.{RakNet}
use raknet_python.Router.Preserves.{Preserves}
use raknet_python.Peer.{Peer}
use raknet_python.Peer.Sink.{sink}
use raknet_python.Peer.Sink.Invariant.{IsValid}
use raknet_python.Peer.Sink.Preserved.{
  incoming_connection-IsValid, connect_succeeded-IsValid, connect_failed-IsValid, message-IsValid,
  disconnected-IsValid, pong-IsValid,
}
use raknet_python.Peer.Closing.Invariant.{close-IsValid}
use raknet_python.Peer.Pump.{pump_round}
use raknet_python.Peer.Pump.Keeps.{Kept, pump_round-Kept}

module _ (R : RakNet) where
  sink-Preserves : (now : ℕ) → Preserves (sink R now) IsValid
  sink-Preserves now = record {
    incoming_connection = incoming_connection-IsValid R;
    connect_succeeded = connect_succeeded-IsValid R;
    connect_failed = connect_failed-IsValid R;
    message = message-IsValid R;
    disconnected = disconnected-IsValid R;
    pong = pong-IsValid R now;
  }

  pub IsValid-Kept : Kept {R = R} IsValid
  IsValid-Kept = record {
    callbacks = sink-Preserves;
    crashes = λ exc p v. (close-IsValid R 0 exc p v).1;
    calls = λ raw p v. record {
      tracked = v.tracked;
      sound = v.sound;
      connects = v.connects;
      pings = v.pings;
    };
  }

  -- Whatever packet arrives, a round of the pump leaves a peer that is in order in order.
  pub pump_round-IsValid :
      (now : ℕ) (self : Peer R) → IsValid self → IsValid (pump_round R now self)
  pump_round-IsValid = pump_round-Kept IsValid IsValid-Kept
