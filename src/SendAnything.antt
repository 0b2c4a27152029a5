-- ===== src/SendAnything.antt =====
-- Sending kanbans and files to other devices (cmd/send-anything/).
pub mod Outside
pub mod Builder
pub mod Receive
pub mod Download
pub mod Request
pub mod Ends
pub mod Checked
pub mod Baggage
pub mod Send
pub mod Arrives
pub mod Chunks
pub mod Accepts
pub mod SendEnds
pub mod RoundTrip
pub mod Take
pub mod Folder
pub mod EndOfStream
pub mod BrokerConn
pub mod TwoWays
pub mod Subdirectory
