-- ===== src/Layer3/Tests/Gateway/Passes.antt =====
-- The verdicts of the tests of one exchange in Source/Layer3Network.c.
use ddtsoft_net_test.Base.{◌≡◌, ◌≢◌, ◌↔◌, ◌⊎◌, inl, inr, ap, arith, Bool-cases, true, false}
use ddtsoft_net_test.Efi.{efi_error}
use ddtsoft_net_test.Runner.{TestResult, result_pass, result_warn}
use ddtsoft_net_test.Layer3.{Ip, PingNic, PingConfig, PingReply, Network, Printer, is_same_subnet}
use ddtsoft_net_test.Layer3.Subnet.{
  IsOneSubnet, is_same_subnet-IsOneSubnet, IsOneSubnet-is_same_subnet,
}
use ddtsoft_net_test.Layer3.Tests.{
  TestPrinter, has_gateway, is_echo_reply, ask, wait_or, echo_report, test_l3_ip_config_check,
  test_l3_icmp_echo,
}
use ddtsoft_net_test.Layer3.Tests.Gateway.{
  large_report, test_l3_ip_fragmentation, test_l3_routing_table,
}

-- 0.0.0.0
abbrev pub no_address : Ip
no_address = record { b0 = 0; b1 = 0; b2 = 0; b3 = 0 }

-- A ping is answered by an echo reply, whose ICMP type is 0.
pub record IsAnswered (g : PingReply) : Type 0 where
  pub received : efi_error g.status ≡ false
  pub echo : g.reply_type ≡ 0

has_gateway-ne : (g : Ip) → has_gateway g ≡ true → g ≢ no_address
unfolding has_gateway
has_gateway-ne g h e = ground (
  arith,
  h,
  ap (λ (x : Ip). x.b0) e,
  ap (λ (x : Ip). x.b1) e,
  ap (λ (x : Ip). x.b2) e,
  ap (λ (x : Ip). x.b3) e,
)

no_gateway-eq : (g : Ip) → has_gateway g ≡ false → g ≡ no_address
unfolding has_gateway
no_gateway-eq g h = ground (arith, h)

is_echo_reply-IsAnswered : (g : PingReply) → is_echo_reply g ≡ true → IsAnswered g
unfolding is_echo_reply
is_echo_reply-IsAnswered g h = record { received = ground (arith, h); echo = ground (arith, h) }

IsAnswered-is_echo_reply : (g : PingReply) → IsAnswered g → is_echo_reply g ≡ true
unfolding is_echo_reply
IsAnswered-is_echo_reply g a = ground (arith, a.received, a.echo)

module _ {W : Type 0} (net : Network W) (p : Printer) (q : TestPrinter) (nic : PingNic)
    (config : PingConfig) where
  config_check_iff :
      (r : TestResult)
      → ((test_l3_ip_config_check q nic r).1.status_code ≡ result_pass)
        ↔ ((nic.has_ip4 ≡ true) × (nic.has_ip_config ≡ true) × (nic.gateway ≢ no_address))
  unfolding test_l3_ip_config_check
  config_check_iff r = (
    λ h. (ground (arith, h), ground (arith, h), has_gateway-ne nic.gateway (ground (arith, h))),
    λ (ip4, address, gateway). elim (Bool-cases (has_gateway nic.gateway)) [
      | inl there ↦ ground (arith, ip4, address, there)
      | inr missing ↦ absurd (gateway (no_gateway-eq nic.gateway missing))
    ],
  )

  config_warns_iff :
      (r : TestResult)
      → ((test_l3_ip_config_check q nic r).1.status_code ≡ result_warn)
        ↔ ((nic.has_ip4 ≡ true) × (nic.has_ip_config ≡ true) × (nic.gateway ≡ no_address))
  unfolding test_l3_ip_config_check
  config_warns_iff r = (
    λ h. (ground (arith, h), ground (arith, h), no_gateway-eq nic.gateway (ground (arith, h))),
    λ (ip4, address, gateway). elim (Bool-cases (has_gateway nic.gateway)) [
      | inl there ↦ absurd (has_gateway-ne nic.gateway there gateway)
      | inr missing ↦ ground (arith, ip4, address, missing)
    ],
  )

  echo_report_iff :
      (g : PingReply) (r : TestResult)
      → ((echo_report net p q nic config g r).status_code ≡ result_pass) ↔ IsAnswered g
  unfolding echo_report
  echo_report_iff g r = (
    λ h. record { received = ground (arith, h); echo = ground (arith, h) },
    λ a. ground (arith, a.received, a.echo),
  )

  large_report_iff :
      (g : PingReply) (r : TestResult)
      → ((large_report net p q nic config g r).status_code ≡ result_pass) ↔ IsAnswered g
  unfolding large_report
  large_report_iff g r = (
    λ h. is_echo_reply-IsAnswered g (grind (arith, h)),
    λ a. ground (arith, IsAnswered-is_echo_reply g a),
  )

  routing_iff :
      (r : TestResult) (w : W)
      → ((test_l3_routing_table net p q nic config r w).1.status_code ≡ result_pass) ↔ (
          (nic.gateway ≢ no_address)
          × IsOneSubnet nic.ipv4_address nic.gateway nic.subnet_mask
          × (efi_error (net.resolve_target_mac nic.ipv4_address nic.gateway 3000 w).0.0 ≡ false))
  unfolding test_l3_routing_table
  routing_iff r w = (
    λ h. (
      has_gateway-ne nic.gateway (ground (arith, h)),
      is_same_subnet-IsOneSubnet nic.ipv4_address nic.gateway nic.subnet_mask (ground (arith, h)),
      ground (arith, h),
    ),
    λ (gateway, subnet, resolved). elim (Bool-cases (has_gateway nic.gateway)) [
      | inl there ↦
          let same = IsOneSubnet-is_same_subnet _ _ _ subnet in
          ground (arith, there, same, resolved)
      | inr missing ↦ absurd (gateway (no_gateway-eq nic.gateway missing))
    ],
  )

  routing_warns_iff :
      (r : TestResult) (w : W)
      → ((test_l3_routing_table net p q nic config r w).1.status_code ≡ result_warn) ↔ (
          (nic.gateway ≡ no_address) ⊎ (¬ IsOneSubnet nic.ipv4_address nic.gateway nic.subnet_mask))
  unfolding test_l3_routing_table
  routing_warns_iff r w =
      let same = is_same_subnet nic.ipv4_address nic.gateway nic.subnet_mask in
      (
        λ h. elim (Bool-cases (has_gateway nic.gateway)) [
          | inl there ↦ inr (λ subnet. ground (
            arith,
            h,
            there,
            IsOneSubnet-is_same_subnet nic.ipv4_address nic.gateway nic.subnet_mask subnet,
          ))
          | inr missing ↦ inl (no_gateway-eq nic.gateway missing)
        ],
        λ c. elim (Bool-cases (has_gateway nic.gateway)) [
          | inl there ↦ elim (Bool-cases same) [
            | inl on ↦ absurd (elim c [
              | inl none_set ↦ has_gateway-ne nic.gateway there none_set
              | inr apart ↦ apart (is_same_subnet-IsOneSubnet _ _ _ on)
            ])
            | inr off ↦ ground (arith, there, off)
          ]
          | inr missing ↦ ground (arith, missing)
        ],
      )

  -- Whatever the subnet mask, the test of the configuration passes exactly when the NIC has the IP4
  -- protocol, an address and a gateway that is not 0.0.0.0, and warns exactly when it has all but the
  -- gateway. The ping and the test of the large packet pass exactly when their one ping, with 32 and
  -- with 1200 bytes, is answered without an error by an ICMP message of type 0. The test of the gateway
  -- passes exactly when there is a gateway, its address has the NIC's bits wherever the mask has a bit,
  -- and its MAC address is resolved; it warns exactly when there is no gateway or a bit differs.
  pub tests_pass_iff :
      (r : TestResult) (w : W)
      → (((test_l3_ip_config_check q nic r).1.status_code ≡ result_pass)
          ↔ ((nic.has_ip4 ≡ true) × (nic.has_ip_config ≡ true) × (nic.gateway ≢ no_address)))
        × (((test_l3_ip_config_check q nic r).1.status_code ≡ result_warn)
            ↔ ((nic.has_ip4 ≡ true) × (nic.has_ip_config ≡ true) × (nic.gateway ≡ no_address)))
        × (((test_l3_icmp_echo net p q nic config r w).1.status_code ≡ result_pass)
            ↔ IsAnswered (ask net p q nic config 1 32 (wait_or net p q nic config 3000) w).0)
        × (((test_l3_ip_fragmentation net p q nic config r w).1.status_code ≡ result_pass)
            ↔ IsAnswered (ask net p q nic config 200 1200 3000 w).0)
        × (((test_l3_routing_table net p q nic config r w).1.status_code ≡ result_pass) ↔ (
            (nic.gateway ≢ no_address)
            × IsOneSubnet nic.ipv4_address nic.gateway nic.subnet_mask
            × (efi_error (net.resolve_target_mac nic.ipv4_address nic.gateway 3000 w).0.0 ≡ false)))
        × (((test_l3_routing_table net p q nic config r w).1.status_code ≡ result_warn) ↔ (
            (nic.gateway ≡ no_address)
            ⊎ (¬ IsOneSubnet nic.ipv4_address nic.gateway nic.subnet_mask)))
  unfolding test_l3_icmp_echo test_l3_ip_fragmentation
  tests_pass_iff r w = (
    config_check_iff r,
    config_warns_iff r,
    echo_report_iff _ _,
    large_report_iff _ _,
    routing_iff r w,
    routing_warns_iff r w,
  )
