-- ===== src/Paging/Setup/Entries.antt =====
-- What the entries of the first tables say.
use pinion.Paging.{table_of, frame_of, pf_pres, pf_large, virtual_base}
use pinion.Paging.Setup.{entry_of, window_entry}
use pinion.Prelude.{
  ℕ, ◌≡◌, ◌<◌, ◌+◌, ◌*◌, ◌%◌, ◌^◌, test_bit, true, false, arith, if◌then◌else◌, ltb, set_bit,
  Bool-cases, inl, inr, refl,
}

-- The entry of a table in the window points to it.
module _ (a : ℕ) (aligned : a % 0x1000 ≡ 0) (low : a < 2 ^ 30) where
  pub entry_of-plain : entry_of (a + virtual_base) ≡ a + 3
  unfolding entry_of
  entry_of-plain = ground arith

  pub entry_of-table : table_of (entry_of (a + virtual_base)) ≡ a + virtual_base
  entry_of-table = rw entry_of-plain (omega arith)

  pub entry_of-present : test_bit (entry_of (a + virtual_base)) pf_pres ≡ true
  entry_of-present = rw entry_of-plain (ground arith)

  pub entry_of-small : test_bit (entry_of (a + virtual_base)) pf_large ≡ false
  entry_of-small = rw entry_of-plain (ground arith)

-- The bits of a flag are added one by one.
module _ (x : ℕ) (aligned : x % 2 ^ 21 ≡ 0) where
  set_memory : set_bit (set_bit (set_bit x 9) 0) 1 ≡ x + 0x203
  set_memory = ground arith

  set_large : set_bit (set_bit (x + 0x203) 7) 8 ≡ x + 0x383
  set_large = ground arith

  set_device : set_bit (x + 0x383) 4 ≡ x + 0x393
  set_device = ground arith

  frame_of_memory : frame_of (x + 0x383) ≡ x % 2 ^ 63
  frame_of_memory = omega arith

  frame_of_device : frame_of (x + 0x393) ≡ x % 2 ^ 63
  frame_of_device = omega arith

-- The memory of an entry of the window.
abbrev pub physical : ℕ → ℕ
physical i = if ltb i 256 then i * 2 ^ 21 else i * 2 ^ 21 + 0xC000_0000

module _ (i : ℕ) where
  pub window_entry-plain :
      window_entry i ≡ (if ltb i 256 then physical i + 0x383 else physical i + 0x393)
  unfolding window_entry
  window_entry-plain = elim (Bool-cases (ltb i 256)) [
    | inl low ↦
        rw (low, set_memory (i * 2 ^ 21) (omega arith), set_large (i * 2 ^ 21) (omega arith)) refl
    | inr high ↦
        rw
          (
            high,
            set_memory (i * 2 ^ 21 + 0xC000_0000) (omega arith),
            set_large (i * 2 ^ 21 + 0xC000_0000) (omega arith),
            set_device (i * 2 ^ 21 + 0xC000_0000) (omega arith),
          )
          refl
  ]

  pub window_entry-frame : i < 512 → frame_of (window_entry i) ≡ physical i
  window_entry-frame small = rw window_entry-plain (ground arith)

  pub window_entry-present : test_bit (window_entry i) pf_pres ≡ true
  window_entry-present = rw window_entry-plain (ground arith)

  pub window_entry-large : test_bit (window_entry i) pf_large ≡ true
  window_entry-large = rw window_entry-plain (ground arith)
