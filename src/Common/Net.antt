-- ===== src/Common/Net.antt =====
-- Types of the standard library that the components only compare: a socket address is a number
-- (the code tests addresses for equality and hands them on), and so is an IP address.
use Prim.Native.Nat.{ℕ}

abbrev pub SocketAddr : Type 0
SocketAddr = ℕ

abbrev pub IpAddr : Type 0
IpAddr = ℕ

-- The number of values of the unsigned machine integers.
abbrev pub u16_mod : ℕ
u16_mod = 65536

abbrev pub u32_mod : ℕ
u32_mod = 4294967296

abbrev pub u64_mod : ℕ
u64_mod = 18446744073709551616
