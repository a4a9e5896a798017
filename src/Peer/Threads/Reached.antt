-- ===== src/Peer/Threads/Reached.antt =====
-- What the threads keep to block by block holds for the callbacks and methods as a whole.
use raknet_python.Prelude.{nat_eq}
use raknet_python.Mailbox
use raknet_python.Peer.{Peer}
