-- ===== src/Layer4/Ports.antt =====
-- What TestL4TcpMultiPort and TestL4PortScan of Source/Layer4Transport.c report of their rounds.
use ddtsoft_net_test.Layer4.Rounds.{Rounds}
