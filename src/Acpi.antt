-- ===== src/Acpi.antt =====
-- The search for the table of ACPI (src/pinion64/acpi.c). Memory is read by bytes.
pub mod Scan
use pinion.Prelude.{
  true, false, ℕ, Option, Bool, none, suc, ◌+◌, ◌==◌, ◌*◌, ◌%◌, ◌&&◌, ◌^◌, zero, some,
}
use pinion.Bytes.{Memory, little}

abbrev pub signature : ℕ
signature = 0x2052_5450_2044_5352

-- The loop over the 20 bytes of the checksum, which has 8 bits, from byte `i` on.
pub checksum_loop : ℕ → Memory → (addr i sum : ℕ) → ℕ
checksum_loop zero m addr i sum = sum
checksum_loop (suc n) m addr i sum = checksum_loop n m addr (i + 1) ((sum + m (addr + i)) % 2 ^ 8)

pub is_rdsp : Memory → ℕ → Bool
is_rdsp m addr = little m addr 8 == signature && checksum_loop 20 m addr 0 0 == 0

-- The loop of `init_acpi`, down to the address 2 in steps of 2, with `n` steps left: the address `2 * n`.
pub scan : ℕ → Memory → Option ℕ
scan zero m = none
scan (suc n) m = elim (is_rdsp m (2 * suc n)) [ true ↦ some (2 * suc n) | false ↦ scan n m ]

-- The highest even address below 1 MiB that holds a table.
pub init_acpi : Memory → Option ℕ
init_acpi m = scan 0x7_FFFF m
