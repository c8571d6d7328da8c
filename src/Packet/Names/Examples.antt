-- ===== src/Packet/Names/Examples.antt =====
-- The theorems on the TCP flags at SYN and ACK.
