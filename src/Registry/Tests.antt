-- ===== src/Registry/Tests.antt =====
-- The 36 tests that RegInitAllTests of Source/TestRegistry.c registers, a list for each layer.
use Prim.Native.String.{String}
use ddtsoft_net_test.Base.{ℕ, Bool, true, false, Option, some, List, [], ◌∷◌}

-- OSI_LAYER
pub data OsiLayer : Type 0 where
  physical data_link network transport session presentation application all_layers : OsiLayer

-- TEST_TYPE
pub data TestType : Type 0 where
  discovery connectivity performance stress compliance : TestType
  packet_capture security fuzz all_types : TestType

-- The functions that the registry points to.
pub data TestFunction : Type 0 where
  l1_nic_status l1_link_detect l1_nic_init_cycle l1_loopback l1_link_negotiation : TestFunction
  l2_mac_address_valid l2_arp_request_reply l2_arp_cache l2_broadcast_frame l2_frame_tx_rx :
      TestFunction
  l2_mtu_detection l2_receive_filter l3_ip_config_check l3_icmp_echo l3_icmp_sweep : TestFunction
  l3_ttl_hop_discovery l3_mtu_path_discovery l3_ip_fragmentation l3_ipv6_nd l3_ip_header_valid :
      TestFunction
  l3_routing_table l3_duplicate_ip l4_tcp_connect l4_tcp_multi_port l4_tcp_data_transfer :
      TestFunction
  l4_tcp_close l4_udp_send_receive l4_udp_multi_port l4_port_scan l4_tcp_stress : TestFunction
  l7_dhcp_discover l7_dhcp_lease_verify l7_dns_resolve l7_dns_reverse l7_http_get : TestFunction
  l7_http_status_codes : TestFunction

-- TEST_DEFINITION. `execute` is `none` for a NULL pointer.
pub record TestDefinition : Type 0 where
  pub name : String
  pub description : String
  pub layer : OsiLayer
  pub type : TestType
  pub estimated_time_ms : ℕ
  pub requires_target : Bool
  pub requires_ipv6 : Bool
  pub is_destructive : Bool
  pub need_snp : Bool
  pub need_mnp : Bool
  pub need_ip4 : Bool
  pub need_tcp4 : Bool
  pub need_udp4 : Bool
  pub need_dhcp4 : Bool
  pub execute : Option TestFunction

-- The definition that RegAdd fills in from its arguments.
abbrev pub new_test :
    String
    → String
    → OsiLayer
    → TestType
    → ℕ
    → Bool
    → Bool
    → Bool
    → Bool
    → Bool
    → Bool
    → TestFunction
    → TestDefinition
new_test name description layer type time target snp ip4 tcp4 udp4 dhcp4 f = record {
  name = name;
  description = description;
  layer = layer;
  type = type;
  estimated_time_ms = time;
  requires_target = target;
  requires_ipv6 = false;
  is_destructive = false;
  need_snp = snp;
  need_mnp = false;
  need_ip4 = ip4;
  need_tcp4 = tcp4;
  need_udp4 = udp4;
  need_dhcp4 = dhcp4;
  execute = some f;
}

abbrev pub physical_tests : List TestDefinition
physical_tests =
    new_test "NIC Status" "Check NIC state, media presence, and basic readiness" physical discovery
      500 false true false false false false l1_nic_status
    ∷ new_test "Link Detect" "Verify physical link is up and media is connected" physical
        connectivity 1000 false true false false false false l1_link_detect
    ∷ new_test "NIC Init Cycle" "Stop, start, and initialize the NIC to verify stability" physical
        compliance 3000 false true false false false false l1_nic_init_cycle
    ∷ new_test "Loopback" "Send and receive loopback frame through NIC" physical connectivity 2000
        false true false false false false l1_loopback
    ∷ new_test "Link Negotiation" "Check auto-negotiation and link speed parameters" physical
        discovery 1000 false true false false false false l1_link_negotiation
    ∷ []

abbrev pub data_link_tests : List TestDefinition
data_link_tests =
    new_test "MAC Address Valid" "Verify MAC address is valid and non-zero" data_link compliance 500
      false true false false false false l2_mac_address_valid
    ∷ new_test "ARP Request/Reply" "Send ARP request and verify reply (gateway/target)" data_link
        connectivity 7000 false true false false false false l2_arp_request_reply
    ∷ new_test "ARP Cache" "Check ARP protocol cache entries" data_link discovery 2000 false true
        false false false false l2_arp_cache
    ∷ new_test "Broadcast Frame" "Send and verify broadcast Ethernet frame" data_link connectivity
        2000 false true false false false false l2_broadcast_frame
    ∷ new_test "Frame TX/RX" "Transmit and receive raw Ethernet frames" data_link connectivity 3000
        true true false false false false l2_frame_tx_rx
    ∷ new_test "MTU Detection" "Detect maximum transmission unit size" data_link performance 5000
        true true false false false false l2_mtu_detection
    ∷ new_test "Receive Filter" "Test NIC receive filter modes (unicast, multicast, broadcast)"
        data_link compliance 3000 false true false false false false l2_receive_filter
    ∷ []

abbrev pub network_tests : List TestDefinition
network_tests =
    new_test "IP Config Check" "Verify IPv4 address, subnet mask, and gateway configuration" network
      discovery 500 false false true false false false l3_ip_config_check
    ∷ new_test "ICMP Echo (Ping)" "Send ICMP echo request and measure round-trip time" network
        connectivity 5000 true true false false false false l3_icmp_echo
    ∷ new_test "ICMP Sweep" "Ping sweep across subnet to discover live hosts" network discovery
        30000 false true false false false false l3_icmp_sweep
    ∷ new_test "TTL/Hop Discovery" "Trace route hops to target using incrementing TTL" network
        discovery 15000 true true false false false false l3_ttl_hop_discovery
    ∷ new_test "MTU Path Discovery" "Discover path MTU using DF-bit and ICMP responses" network
        performance 10000 true true false false false false l3_mtu_path_discovery
    ∷ new_test "IP Fragmentation" "Test IP fragmentation and reassembly" network compliance 5000
        true true false false false false l3_ip_fragmentation
    ∷ new_test "IPv6 Neighbor Discovery" "Test IPv6 neighbor discovery protocol" network discovery
        5000 false true false false false false l3_ipv6_nd
    ∷ new_test "IP Header Validation" "Validate IP header fields for correctness" network compliance
        2000 false true false false false false l3_ip_header_valid
    ∷ new_test "Routing Table" "Check IP routing table entries" network discovery 2000 false false
        true false false false l3_routing_table
    ∷ new_test "Duplicate IP Detection" "Check for duplicate IP addresses on the network" network
        compliance 5000 false true false false false false l3_duplicate_ip
    ∷ []

abbrev pub transport_tests : List TestDefinition
transport_tests =
    new_test "TCP Connect" "Establish TCP connection to target port" transport connectivity 5000
      true false false true false false l4_tcp_connect
    ∷ new_test "TCP Multi-Port" "Test TCP connectivity on multiple ports" transport connectivity
        15000 true false false true false false l4_tcp_multi_port
    ∷ new_test "TCP Data Transfer" "Send and receive data over TCP connection" transport performance
        10000 true false false true false false l4_tcp_data_transfer
    ∷ new_test "TCP Close" "Test TCP connection graceful close (FIN handshake)" transport compliance
        5000 true false false true false false l4_tcp_close
    ∷ new_test "UDP Send/Receive" "Send and receive UDP datagrams" transport connectivity 5000 true
        false false false true false l4_udp_send_receive
    ∷ new_test "UDP Multi-Port" "Test UDP on multiple ports" transport connectivity 10000 true false
        false false true false l4_udp_multi_port
    ∷ new_test "Port Scan" "Scan common TCP ports on target host" transport discovery 30000 true
        false false true false false l4_port_scan
    ∷ new_test "TCP Stress" "Stress test TCP with rapid connect/disconnect cycles" transport stress
        30000 true false false true false false l4_tcp_stress
    ∷ []

abbrev pub application_tests : List TestDefinition
application_tests =
    new_test "DHCP Discover" "Send DHCP discover and check for offers" application discovery 10000
      false false false false false true l7_dhcp_discover
    ∷ new_test "DHCP Lease Verify" "Verify current DHCP lease is valid" application compliance 5000
        false false false false false true l7_dhcp_lease_verify
    ∷ new_test "DNS Resolve" "Resolve a hostname via DNS query" application connectivity 5000 false
        false true false true false l7_dns_resolve
    ∷ new_test "DNS Reverse" "Perform reverse DNS lookup on an IP address" application connectivity
        5000 false false true false true false l7_dns_reverse
    ∷ new_test "HTTP GET" "Perform HTTP GET request to target" application connectivity 10000 true
        false false true false false l7_http_get
    ∷ new_test "HTTP Status Codes" "Test HTTP response status code handling" application compliance
        10000 true false false true false false l7_http_status_codes
    ∷ []
