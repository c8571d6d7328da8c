-- ===== src/Lib.antt =====
-- DDTSoftNetTest is a UEFI application that tests network interfaces. It builds and parses raw
-- frames, keeps a registry of tests that it runs on an interface, logs what happens, and talks to a
-- companion program on another machine over a UDP control channel. This library models the parts of
-- the program that hold its own logic, function by function, and states what they do.
--
-- The parts and their files:
-- * Packet (Include/PacketDefs.h), with Packet/Checksum and Packet/Builder for
--   Source/PacketBuilder.c and Packet/Parser for Source/PacketParser.c. PktBuildUdpPacket is
--   build_udp_packet, PktParsePacket is parse_packet, and so on. The builders write into a memory and
--   return it with the frame's size; the parser's pointers into the frame are offsets. Packet/Names
--   models the name helpers of Source/PacketParser.c.
-- * Logger (Source/Logger.c): the three static variables are the record Log, and each function takes
--   it and returns the next one.
-- * Registry (Source/TestRegistry.c, Include/OsiLayers.h): mRegistry up to mTestCount is a list.
--   Registry/Tests holds the definitions that RegInitAllTests registers.
-- * Runner (Source/TestRunner.c): asks the registry for the tests of a layer and runs them.
-- * Companion (Source/CompanionLink.c): commands over UDP4, responses from raw frames, the handshake
--   and, in Companion/Requests, the requests on a connected link. The link is the record Link.
-- * Utils (Source/Utils.c): the bounded string copy and the clock.
-- * Smbios (Source/SmbiosParser.c, Include/SystemInfo.h): Smbios/Info holds the structures, Smbios the
--   string sets and the simple structure types, Smbios/Table the memory devices, the walk and the
--   accessors. The static variables, with FirstCpu, are the record State. Smbios/Layout says what a
--   string set is, Smbios/Table/Entries what the structures of a table say.
-- * Pci (Source/PciEnumerator.c), with Pci/Ids for the tables of Include/PciIds.h: a handle is the record
--   of what the firmware answers about it, with the reads of its configuration space by offset.
-- * QuickScan (Source/QuickScan.c): the decision tree and, in QuickScan/Scan, the two scans.
-- * Layer3 (Source/Layer3Network.c): the next hop, the ping and the searches for the distance of
--   the target and for the path MTU; in Layer3/Tests the tests of the configuration, the ping, the
--   sweep, the large packet and the gateway; in Layer3/Subnet what the mask decides; in Layer3/Raw
--   the ARP and ICMP exchanges over raw frames and the test for duplicate addresses.
--   Layer3/Raw/Exchanges runs the tests over these exchanges.
-- * Layer4 (Source/Layer4Transport.c): the test of several TCP ports and the port scan; Layer4/Child has
--   the helpers that create, connect, close and destroy a TCP child.
-- * Stress (Source/StressTest.c): the statistics and, in Stress/Floods, the ICMP and UDP floods
--   and the silent run; Stress/Floods/Raw has the ARP exchange and the flood of raw frames.
-- * Probe (Source/ProtocolProbe.c): the statistics of the periodic probes, their payload, the ARP
--   exchange over the raw interface and ProbeExecuteOnce.
-- * Report (Source/ReportExporter.c): which tests a report runs, and how it counts their results.
-- * Base holds lists and memories over native numbers, and the functions of the EDK2 library that the
--   code calls as C calls its standard library (CopyMem, ZeroMem, CompareMem, StrCmp,
--   AsciiStrLen, StrnCpyS, SwapBytes16, SwapBytes32), as documented. Efi holds the status codes
--   and, in Efi/Polling, the loop that waits for a frame, which Probe and Layer3 use.
-- The runner uses the registry, and the quick scan both. The companion link shares the status codes
-- and texts with the runner. The ICMP flood uses the builder and the parser of packets, the
-- probes and the raw exchanges of layer 3 the builder.
--
-- How values are modelled. UINT8 pointers are memories, functions from an offset to a byte; a copy's
-- source and destination do not overlap. UINT16, UINT32 and UINT64 results that can wrap are written
-- with the remainder they have; a difference that can wrap has the power of two added first. A 16-bit
-- field is stored low byte first, as the machine does, behind the swap that the code writes out.
-- `(a << 8) | b` of two bytes is a sum. A CHAR16 buffer is the list of characters before its NUL.
-- A pointer that a function tests for NULL is an Option; in Companion the arguments are not NULL.
--
-- What is a parameter. The test functions, the text that `%r` prints and the readings of the clock
-- are parameters of Runner; the formatted message and the time stamp are arguments of log_add. The
-- calls of the UEFI drivers are the record Driver of Companion, over an arbitrary state, and the texts
-- that UnicodeSPrint formats its record Printer. Layer3 takes the exchanges over IP4 and SNP as its
-- record Network and, in Layer3/Raw, the driver as its record RawDriver, Stress the driver as its
-- record Driver, Layer4 the boot services and the protocols TCP4 and TCP4 service binding as its record
-- Tcp, with what they document as the record IsFirmware, and Probe the driver and the exchanges as its
-- record Exchange. Report takes the test functions, the clock and the keys. Smbios
-- takes the layouts of the firmware's structures as the function `read` from a field to its value.
--
-- Loops and fuel. The loops over data are structural recursion; the carry loop of the checksums
-- recurses on accessibility, without fuel. The receiving loop of Companion has fuel, since it need not
-- end: each round takes a frame from the driver or two milliseconds off the timeout, so the frames
-- that wait at the driver and the timeout together are enough. The scans of Smbios for the end of a
-- string or of a string set have fuel, as nothing in the code bounds them; the size of a table in
-- SMBIOS's form is enough. The bisection of the path MTU has fuel for twelve rounds, which is enough for
-- the 1465 sizes that it searches. The wait of L4TcpConnect and L4TcpClose has fuel for two rounds more
-- than the timeout has milliseconds, which is enough once its timer can be created.
--
-- Not modelled: CompanionInit and CompanionDestroy (driver set-up), the exchanges over the
-- firmware's ARP, IP4 and UDP4 protocols, L4TcpSend and L4TcpReceive, the tests of the layers but
-- for those of layer 3 and two of layer 4, TestL3Ipv6Nd and TestL3IpHeaderValid, the probes of the
-- firmware's handles, and everything that only draws on the screen or writes the text of reports.
pub mod Base
pub mod Packet
pub mod Efi
pub mod Layer3
pub mod Logger
pub mod Registry
pub mod Runner
pub mod Companion
pub mod Probe
pub mod Layer4
pub mod Report
pub mod Pci
pub mod QuickScan
pub mod Smbios
pub mod Stress
pub mod Utils
