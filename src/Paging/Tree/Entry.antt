-- ===== src/Paging/Tree/Entry.antt =====
-- The new table that the loop of `pcx_set_frame` makes, and its entry.
-- After a new table has been put into the entry `j` of the table `t`.
use pinion.Paging.{
  table_of, new_table, pf_pres, pf_large, virtual_base, pf_valid, pf_write, pf_user,
}
use pinion.Alloc.Bump.{Bump, with_page, frame, Bump-steps, Bump-le, pge_alloc-Bump}
use pinion.Alloc.{with_word}
use pinion.Prelude.{
  ℕ, ◌+◌, suc, update, set_bit, test_bit, ◌≡◌, arith, if◌then◌else◌, ◌^◌, ltb, true, false, ◌-◌,
  ◌==◌, refl, ◌%◌,
}
use pinion.Machine.{Kernel, Ptr, ok, null}

abbrev pub entry : Kernel → ℕ
entry k = k.alloc_base + 0x207

abbrev pub added : Ptr → ℕ → Kernel → Kernel
added t j k =
    let h = with_word (with_page k) t j (entry k) in
    record h {
      pages = update h.pages (frame k) (λ j. if ltb j 512 then 0 else h.pages (frame k) j);
    }

module _ (n : ℕ) (k : Kernel) (bump : Bump (suc n) k) where
  entry_lem :
      set_bit
        (set_bit
          (set_bit (set_bit ((frame k + 2 ^ 64 - virtual_base) % 2 ^ 64) pf_valid) pf_pres)
          pf_write)
        pf_user
      ≡ entry k
  entry_lem =
      let plain : (frame k + 2 ^ 64 - virtual_base) % 2 ^ 64 ≡ k.alloc_base =
        ground (arith, bump.room, bump.low) in
      rw plain (ground (arith, bump.aligned))

  pub entry-table : table_of (entry k) ≡ frame k
  entry-table = ground (arith, bump.aligned, bump.room, bump.low)

  pub entry-present : test_bit (entry k) pf_pres ≡ true
  entry-present = ground (arith, bump.aligned)

  pub entry-small : test_bit (entry k) pf_large ≡ false
  entry-small = ground (arith, bump.aligned)

  pub new_table-added : (t : Ptr) (j : ℕ) → new_table t j k ≡ ok tt (added t j k)
  unfolding new_table
  new_table-added t j =
      let full : (frame k == null) ≡ false = ground arith in
      rw (pge_alloc-Bump n k bump, full, entry_lem) refl

  pub added-Bump : (t : Ptr) (j : ℕ) → Bump n (added t j k)
  added-Bump t j =
      Bump-steps 1 n k (added t j k) (Bump-le (1 + n) (suc n) k (omega arith) bump)
        (refl, refl, bump.unlocked.2) refl (refl, bump.no_tcb, bump.no_ccb) (refl, refl)
        (omega arith)
