-- ===== src/Examples/Load.antt =====
-- A kernel with one call of pinion.
use pinion.Bytes.{Memory, little}
use pinion.Load.{
  Rela, unknown, with_apirev, fixup_kernel, rela, with_tag, symbol_at, name_at, place,
}
use pinion.Load.Fixup.{Tag, described, fixup_kernel-Linked}
use pinion.Load.Links.{Linked, Clear}
use pinion.Prelude.{ℕ, List, [], ◌∷◌, some, ◌≡◌, ◌==◌, if◌then◌else◌, refl, arith, inr, ◌+◌, ◌*◌}

-- The bytes that are not 0, by address.
abbrev bytes : List (ℕ × ℕ) → Memory
bytes [] a = 0
bytes ((b, v) ∷ bs) a = if a == b then v else bytes bs a

-- The dynamic section is at 0x100, the relocation at 0x200, "__PINION_page_get" at 0x300, its symbol at
-- 0x400.
abbrev kernel : Memory
kernel = bytes (
    (0x100, 23)
    ∷ (0x109, 2)
    ∷ (0x110, 2)
    ∷ (0x118, 24)
    ∷ (0x120, 5)
    ∷ (0x129, 3)
    ∷ (0x130, 6)
    ∷ (0x139, 4)
    ∷ (0x140, 11)
    ∷ (0x148, 24)
    ∷ (0x201, 0x10)
    ∷ (0x208, 7)
    ∷ (0x300, b'_')
    ∷ (0x301, b'_')
    ∷ (0x302, b'P')
    ∷ (0x303, b'I')
    ∷ (0x304, b'N')
    ∷ (0x305, b'I')
    ∷ (0x306, b'O')
    ∷ (0x307, b'N')
    ∷ (0x308, b'_')
    ∷ (0x309, b'p')
    ∷ (0x30a, b'a')
    ∷ (0x30b, b'g')
    ∷ (0x30c, b'e')
    ∷ (0x30d, b'_')
    ∷ (0x30e, b'g')
    ∷ (0x30f, b'e')
    ∷ (0x310, b't')
    ∷ [])

abbrev section : List Tag
section = (23, 0x200) ∷ (2, 24) ∷ (5, 0x300) ∷ (6, 0x400) ∷ (11, 24) ∷ []

abbrev relocation : Rela
relocation = record { offset = 0x1000; type = 7; sym = 0; addend = 0 }

abbrev entry_code : ℕ → ℕ
entry_code i = 0x2000 + 16 * i

fixup_kernel-Linked_example :
    let d = with_apirev kernel (described 0 section unknown) in
    (m' : Memory) × (fixup_kernel entry_code 0x20_0000 0 6 0x100 kernel ≡ some m')
    × Linked entry_code 0x20_0000 0 d 0x200 0x500 kernel m' (relocation ∷ [])
    × ((b : ℕ) → Clear entry_code 0x20_0000 0 d 0x200 0x500 b 1 (relocation ∷ []) → m' b ≡ kernel b)
unfolding little rela with_tag with_apirev symbol_at name_at place
fixup_kernel-Linked_example =
    fixup_kernel-Linked entry_code 0x20_0000 0 0x200 0x500 0x100 section (relocation ∷ []) kernel
      (
        refl,
        omega arith,
        refl,
        (
          refl,
          omega arith,
          refl,
          (refl, omega arith, refl, (refl, omega arith, refl, (refl, omega arith, refl, refl))),
        ),
      )
      (omega arith) (omega arith) (omega arith) (omega arith)
      (
        record {
          within = omega arith;
          is = refl;
          from = omega arith;
          upto = omega arith;
          next = omega arith;
          symbol = (omega arith, omega arith);
          name = (omega arith, omega arith);
          outside = inr (omega arith);
        },
        omega arith,
      )
      (tt, tt)
