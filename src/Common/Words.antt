-- ===== src/Common/Words.antt =====
-- Machine integers: `std::size_t` is 64 bits wide, a port 16; `int` is given by its value.
use Prim.Native.Nat.{ℕ, ◌-◌, ◌%◌, ◌<◌}
use native.Mathlib.Omega.{arith}

abbrev pub size_mod : ℕ
size_mod = 18446744073709551616

abbrev pub port_mod : ℕ
port_mod = 65536

-- One more than the largest int.
abbrev pub int_mod : ℕ
int_mod = 2147483648

-- The values of an unsigned.
abbrev pub unsigned_mod : ℕ
unsigned_mod = 4294967296

-- `negsuc n` is -(n + 1).
pub data ℤ : Type 0 where
  pos : ℕ → ℤ
  negsuc : ℕ → ℤ

-- The conversion of an `int` to `unsigned short`.
unfoldable pub to_port : ℤ → ℕ
to_port (pos n) = n % port_mod
to_port (negsuc n) = port_mod - 1 - n % port_mod

pub to_port-lt : (i : ℤ) → to_port i < port_mod
unfolding to_port
to_port-lt (pos n) = omega arith
to_port-lt (negsuc n) = omega arith
