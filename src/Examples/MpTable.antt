-- ===== src/Examples/MpTable.antt =====
-- A table with a processor, a bus and an IOAPIC.
use pinion.Bytes.{Memory, little}
use pinion.MpTable.{ioapic_init, Message, table, cpu, bus, ioapic, done, is_mptable, sum_loop}
use pinion.MpTable.Entries.{Laid, ioapic_init-Laid}
use pinion.Paging.{virtual_base, vaddr}
use pinion.Prelude.{
  ℕ, List, [], ◌∷◌, ◌+◌, ◌-◌, ◌≡◌, ◌==◌, if◌then◌else◌, refl, arith, ◌<◌, suc, zero,
}

-- the bytes at 0x10 and from 0x1000 on
abbrev bytes : List (ℕ × ℕ)
bytes =
    (0x10, 0x5F)
    ∷ (0x11, 0x4D)
    ∷ (0x12, 0x50)
    ∷ (0x13, 0x5F)
    ∷ (0x15, 0x10)
    ∷ (0x1A, 0x95)
    ∷ (0x1006, 4)
    ∷ (0x1022, 3)
    ∷ (0x102D, 7)
    ∷ (0x1040, 1)
    ∷ (0x1041, 5)
    ∷ (0x1042, b'I')
    ∷ (0x1043, b'S')
    ∷ (0x1044, b'A')
    ∷ (0x1045, b' ')
    ∷ (0x1046, b' ')
    ∷ (0x1047, b' ')
    ∷ (0x1048, 2)
    ∷ (0x1049, 8)
    ∷ (0x104A, 17)
    ∷ (0x104D, 0)
    ∷ (0x104E, 0xC0)
    ∷ (0x104F, 0xFE)
    ∷ []

byte_at : List (ℕ × ℕ) → ℕ → ℕ
byte_at [] a = 0
byte_at ((b, v) ∷ rest) a = let below = byte_at rest a in if a == b then v else below

abbrev firmware : Memory
firmware a = byte_at bytes (a - virtual_base)

abbrev entries : List Message
entries = cpu 7 0 ∷ bus 5 (b'I' ∷ b'S' ∷ b'A' ∷ []) ∷ ioapic 8 17 (vaddr 0xFEC0_0000) ∷ []

blanks : (j : ℕ) → j < 3 → firmware (virtual_base + 0x1045 + j) ≡ b' '
unfolding byte_at
blanks zero l = refl
blanks (suc zero) l = refl
blanks (suc (suc zero)) l = refl
blanks (suc (suc (suc j))) l = absurd (omega arith)

firmware-Laid : Laid firmware (virtual_base + 0x102C) entries
unfolding byte_at vaddr little
firmware-Laid = (
  (refl, refl, refl),
  (
    (
      refl,
      refl,
      (refl, omega arith, (refl, omega arith, (refl, omega arith, blanks))),
      omega arith,
    ),
    ((refl, refl, refl, refl), tt),
  ),
)

ioapic_init-Laid_example : ioapic_init firmware ≡ done (table 4 3 ∷ entries) (vaddr 0xFEC0_0000)
unfolding byte_at is_mptable sum_loop vaddr little
ioapic_init-Laid_example =
    ioapic_init-Laid 0 (virtual_base + 0x1000) firmware entries (omega arith)
      (record { here = refl; before = λ j l. absurd (omega arith) }) refl (omega arith) refl
      firmware-Laid
