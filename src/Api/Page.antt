-- ===== src/Api/Page.antt =====
-- `page_get` and `page_set` (src/pinion64/api/page_get.c, page_set.c).
pub mod Flags
use pinion.Paging.{
  pf_pcd, pf_pwt, pf_valid, get_trans, pf_user, pf_pres, get_flags, pf_nx, pf_dirty, pf_write,
  pf_accs, pf_nread, set_frame,
}
use pinion.Machine.{Cmd, ok, pure, ◌>>=◌}
use Prim.Native.Nat.{suc}
use pinion.Prelude.{
  ℕ, Bool, test_bit, if◌then◌else◌, set_bit, not, true, low_bits, ◌||◌, ◌==◌, false, ◌/◌, ◌^◌, ◌+◌,
  ◌%◌, zero,
}

-- The positions of `__PINION_PAGE_VALID` to `__PINION_PAGE_WRITE_THROUGH`.
abbrev pub page_valid : ℕ
page_valid = 0

abbrev pub page_read : ℕ
page_read = 4

abbrev pub page_write : ℕ
page_write = 5

abbrev pub page_exec : ℕ
page_exec = 6

abbrev pub page_user : ℕ
page_user = 7

abbrev pub page_accessed : ℕ
page_accessed = 8

abbrev pub page_dirty : ℕ
page_dirty = 9

abbrev pub page_cache_disable : ℕ
page_cache_disable = 12

abbrev pub page_write_through : ℕ
page_write_through = 13

-- `if (c) flags |= 1 << b;`
abbrev pub or_if : Bool → ℕ → ℕ → ℕ
or_if c b flags = if c then set_bit flags b else flags

-- The branch for a page that is present.
cook_present : (raw flags : ℕ) → ℕ
cook_present raw flags = or_if (test_bit raw pf_pcd) page_cache_disable (
    or_if (test_bit raw pf_pwt) page_write_through (
      or_if (test_bit raw pf_user) page_user (
        or_if (not (test_bit raw pf_nx)) page_exec (
          or_if (test_bit raw pf_write) page_write
            (or_if (not (test_bit raw pf_nread)) page_read flags)))))

-- The flags of the API for those of a page table entry.
pub cook : ℕ → ℕ
unfolding cook_present
cook raw =
    if not (test_bit raw pf_valid)
    then 0
    else let flags = set_bit 0 page_valid in
      let flags' = if test_bit raw pf_pres then cook_present raw flags else flags in
      or_if (test_bit raw pf_dirty) page_dirty (or_if (test_bit raw pf_accs) page_accessed flags')

-- The branch for flags that allow some access.
uncook_present : (flags raw : ℕ) → ℕ
uncook_present flags raw = or_if (test_bit flags page_cache_disable) pf_pcd (
    or_if (test_bit flags page_write_through) pf_pwt (
      or_if (test_bit flags page_user) pf_user (
        or_if (not (test_bit flags page_exec)) pf_nx (
          or_if (test_bit flags page_write) pf_write
            (or_if (not (test_bit flags page_read)) pf_nread (set_bit raw pf_pres))))))

-- `raw_flags` of `page_set`.
pub uncook : ℕ → ℕ
unfolding uncook_present
uncook flags =
    if not (test_bit flags page_valid)
    then 0
    else let raw = set_bit 0 pf_valid in
      let raw' =
        if test_bit flags page_read || test_bit flags page_write || test_bit flags page_exec
        then uncook_present flags raw
        else raw in
      or_if (test_bit flags page_dirty) pf_dirty (or_if (test_bit flags page_accessed) pf_accs raw')

-- `struct __PINION_page_content`
pub record PageContent : Type 0 where
  pub paddr : ℕ
  pub flags : ℕ

pub get : ℕ → Cmd PageContent
get vaddr k = ok (record { paddr = get_trans k vaddr; flags = cook (get_flags k vaddr) }) k

-- The loop over the pages from offset `i`, with `n` pages left. The entry is given the flags of the
-- API as they are.
set_pages : ℕ → (vbase pbase flags i : ℕ) → Cmd Bool
set_pages zero vbase pbase flags i = pure true
set_pages (suc n) vbase pbase flags i = do
  failed ← set_frame ((vbase + i) % 2 ^ 64) 0x1000 ((pbase + i) % 2 ^ 64) flags
  if failed == 0 then set_pages n vbase pbase flags (i + 0x1000) else pure false

-- One round for each page. `raw_flags` is computed and not used, so it has no part in the model.
pub set : (vbase pbase flags size : ℕ) → Cmd Bool
set vbase pbase flags size =
    if not (low_bits vbase 12 == 0) || not (low_bits pbase 12 == 0) || not (low_bits size 12 == 0)
    then pure false
    else set_pages (size / 2 ^ 12) vbase pbase flags 0
