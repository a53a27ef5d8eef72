-- ===== src/Communication.antt =====
-- communication/ and the node tables of config/: who is alive, at which address, and what is sent to whom.
pub mod Connection
pub mod ConnMap
pub mod Nodes
pub mod Sender
pub mod Receiver
pub mod ClientSender
