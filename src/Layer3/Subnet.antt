-- ===== src/Layer3/Subnet.antt =====
-- What L3IsSameSubnet of Source/Layer3Network.c decides, bit by bit.
use ddtsoft_net_test.Base.{
  ℕ, zero, suc, ◌*◌, ◌/◌, ◌%◌, ◌≡◌, ◌⊎◌, inl, inr, refl, arith, Bool-cases, true, ◌==◌,
}
use ddtsoft_net_test.Layer3.{Ip, bit_and, is_same_subnet}

-- Two bytes agree in those of their lowest bits that are set in a mask.
abbrev pub Agree : ℕ → ℕ → ℕ → ℕ → Type 0
Agree zero a b m = Unit {0}
Agree (suc n) a b m = (m % 2 ≡ 1 → a % 2 ≡ b % 2) × Agree n (a / 2) (b / 2) (m / 2)

-- Two addresses have the same bits where the mask has a bit.
pub record IsOneSubnet (a b m : Ip) : Type 0 where
  pub first : Agree 8 a.b0 b.b0 m.b0
  pub second : Agree 8 a.b1 b.b1 m.b1
  pub third : Agree 8 a.b2 b.b2 m.b2
  pub fourth : Agree 8 a.b3 b.b3 m.b3

parity : (m : ℕ) → (m % 2 ≡ 0) ⊎ (m % 2 ≡ 1)
parity m = elim (Bool-cases (m % 2 == 0)) [
  | inl e ↦ inl (ground (arith, e))
  | inr o ↦ inr (ground (arith, o))
]

bit_and-Agree : (n a b m : ℕ) → bit_and n a m ≡ bit_and n b m → Agree n a b m
unfolding bit_and
bit_and-Agree zero a b m e = tt
bit_and-Agree (suc n) a b m e = elim (parity m) [
  | inl off ↦
      let left : a % 2 * (m % 2) ≡ 0 = rw off (omega arith) in
      let right : b % 2 * (m % 2) ≡ 0 = rw off (omega arith) in
      (
        λ h. absurd (omega arith),
        bit_and-Agree n (a / 2) (b / 2) (m / 2) (omega (arith, left, right, e)),
      )
  | inr on ↦
      let left : a % 2 * (m % 2) ≡ a % 2 = rw on (omega arith) in
      let right : b % 2 * (m % 2) ≡ b % 2 = rw on (omega arith) in
      (
        λ h. omega (arith, left, right, e),
        bit_and-Agree n (a / 2) (b / 2) (m / 2) (omega (arith, left, right, e)),
      )
]

Agree-bit_and : (n a b m : ℕ) → Agree n a b m → bit_and n a m ≡ bit_and n b m
unfolding bit_and
Agree-bit_and zero a b m s = refl
Agree-bit_and (suc n) a b m (bit, s) =
    let rest = Agree-bit_and n (a / 2) (b / 2) (m / 2) s in
    elim (parity m) [
      | inl off ↦
          let left : a % 2 * (m % 2) ≡ 0 = rw off (omega arith) in
          let right : b % 2 * (m % 2) ≡ 0 = rw off (omega arith) in omega (arith, left, right, rest)
      | inr on ↦
          let left : a % 2 * (m % 2) ≡ a % 2 = rw on (omega arith) in
          let right : b % 2 * (m % 2) ≡ b % 2 = rw on (omega arith) in
          omega (arith, left, right, rest, bit on)
    ]

pub is_same_subnet-IsOneSubnet : (a b m : Ip) → is_same_subnet a b m ≡ true → IsOneSubnet a b m
unfolding is_same_subnet
is_same_subnet-IsOneSubnet a b m h = record {
  first = bit_and-Agree 8 a.b0 b.b0 m.b0 (ground (arith, h));
  second = bit_and-Agree 8 a.b1 b.b1 m.b1 (ground (arith, h));
  third = bit_and-Agree 8 a.b2 b.b2 m.b2 (ground (arith, h));
  fourth = bit_and-Agree 8 a.b3 b.b3 m.b3 (ground (arith, h));
}

pub IsOneSubnet-is_same_subnet : (a b m : Ip) → IsOneSubnet a b m → is_same_subnet a b m ≡ true
unfolding is_same_subnet
IsOneSubnet-is_same_subnet a b m s = ground (
  arith,
  Agree-bit_and 8 a.b0 b.b0 m.b0 s.first,
  Agree-bit_and 8 a.b1 b.b1 m.b1 s.second,
  Agree-bit_and 8 a.b2 b.b2 m.b2 s.third,
  Agree-bit_and 8 a.b3 b.b3 m.b3 s.fourth,
)
