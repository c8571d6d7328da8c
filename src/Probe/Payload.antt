-- ===== src/Probe/Payload.antt =====
-- The text that ProbeBuildPayload of Source/ProtocolProbe.c writes, read back.
use ddtsoft_net_test.Base.{
  ℕ, ◌+◌, ◌-◌, ◌*◌, ◌/◌, ◌%◌, ◌^◌, ◌≡◌, refl, arith, true, ltb, if◌then◌else◌, Bytes, store8,
  zero_mem,
}
use ddtsoft_net_test.Probe.{build_payload, store_bytes, hex_digit, is_echo}

-- The number that four decimal digits at `o` stand for.
abbrev pub decimal_at : Bytes → ℕ → ℕ
decimal_at b o =
    ((b o - 48) * 10 + (b (o + 1) - 48)) * 100 + ((b (o + 2) - 48) * 10 + (b (o + 3) - 48))

abbrev pub hex_value : ℕ → ℕ
hex_value c = if ltb c 65 then c - 48 else c - 55

-- The number that eight hexadecimal digits at `o` stand for.
abbrev pub hex_at : Bytes → ℕ → ℕ
hex_at b o =
    hex_value (b o) * 2 ^ 28
    + hex_value (b (o + 1)) * 2 ^ 24
    + hex_value (b (o + 2)) * 2 ^ 20
    + hex_value (b (o + 3)) * 2 ^ 16
    + hex_value (b (o + 4)) * 2 ^ 12
    + hex_value (b (o + 5)) * 2 ^ 8
    + hex_value (b (o + 6)) * 2 ^ 4
    + hex_value (b (o + 7))

hex_value-hex_digit : (n : ℕ) → hex_value (hex_digit (n % 16) % 256) ≡ n % 16
unfolding hex_digit
hex_value-hex_digit n = ground arith

module _ (buffer : Bytes) (seq_id ts : ℕ) where
  build_payload_id : decimal_at (build_payload buffer seq_id ts) 11 ≡ seq_id % 10000
  unfolding build_payload store_bytes store8 zero_mem
  build_payload_id = omega arith

  build_payload_time : hex_at (build_payload buffer seq_id ts) 19 ≡ ts % 2 ^ 32
  unfolding build_payload store_bytes store8 zero_mem
  build_payload_time =
      rw
        (
          hex_value-hex_digit (ts / 2 ^ 28),
          hex_value-hex_digit (ts / 2 ^ 24),
          hex_value-hex_digit (ts / 2 ^ 20),
          hex_value-hex_digit (ts / 2 ^ 16),
          hex_value-hex_digit (ts / 2 ^ 12),
          hex_value-hex_digit (ts / 2 ^ 8),
          hex_value-hex_digit (ts / 2 ^ 4),
          hex_value-hex_digit ts,
        )
        (omega arith)

  echoed : is_echo (build_payload buffer seq_id ts) ≡ true
  unfolding is_echo build_payload store_bytes store8 zero_mem
  echoed = refl

  terminated : build_payload buffer seq_id ts 27 ≡ 0
  unfolding build_payload store_bytes store8 zero_mem
  terminated = refl

  -- What ProbeBuildPayload writes passes the test for an echo, its decimal digits stand for the sequence
  -- id modulo 10000, its hexadecimal digits for the low 32 bits of the time, and a NUL
  -- follows them.
  pub build_payload_lem :
      (is_echo (build_payload buffer seq_id ts) ≡ true)
      × (decimal_at (build_payload buffer seq_id ts) 11 ≡ seq_id % 10000)
      × (hex_at (build_payload buffer seq_id ts) 19 ≡ ts % 2 ^ 32)
      × (build_payload buffer seq_id ts 27 ≡ 0)
  build_payload_lem = (echoed, build_payload_id, build_payload_time, terminated)
