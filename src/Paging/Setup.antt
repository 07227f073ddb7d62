-- ===== src/Paging/Setup.antt =====
-- The first page tables (`pcx_init` of src/pinion64/page.c). The switch to them is left out.
pub mod Upper
pub mod Entries
pub mod Tables
pub mod Window
pub mod Levels
use pinion.Alloc.{pge_alloc, with_word}
use pinion.Machine.{Ptr, Cmd, pure, ◌>>=◌, ◌>>◌, get, null, change, halt, null_pointer}
use pinion.Paging.{virtual_base, pf_pres, pf_write, pf_large, pf_valid, pf_pcd}
use pinion.Prelude.{
  ℕ, zero, suc, ◌+◌, ◌*◌, ◌/◌, ◌%◌, ◌^◌, ◌==◌, if◌then◌else◌, ltb, set_bit, update, ◌-◌, ◌&&◌,
}

-- The position of `PF_GLOBL`.
abbrev pub pf_globl : ℕ
pf_globl = 8

-- A loop that clears the words of a page.
pub clear_page : Ptr → Cmd (Unit {0})
clear_page page =
    if page == null
    then halt null_pointer
    else change
        λ k. record k { pages = update k.pages page (λ j. if ltb j 512 then 0 else k.pages page j) }

-- The entry of a table at this address: `((uint64_t) pt - base) | PF_PRES | PF_WRITE`.
pub entry_of : Ptr → ℕ
entry_of pt = set_bit (set_bit ((pt + 2 ^ 64 - virtual_base) % 2 ^ 64) pf_pres) pf_write

-- The loop over the entries of the root from entry `i` on, with `n` left.
pub upper_loop : ℕ → ℕ → Cmd (Unit {0})
upper_loop zero i = pure tt
upper_loop (suc n) i = do
  pt3 ← pge_alloc
  change (λ k. with_word k k.pcx_root i (entry_of pt3))
  clear_page pt3
  upper_loop n (i + 1)

-- An entry of the window: 2 MiB of memory, from 256 on those of the devices.
pub window_entry : ℕ → ℕ
window_entry i =
    let low = set_bit (set_bit (set_bit (i * 2 ^ 21) pf_valid) pf_pres) pf_write in
    let device = set_bit (set_bit (set_bit (i * 2 ^ 21 + 0xC000_0000) pf_valid) pf_pres) pf_write in
    if ltb i 256
    then set_bit (set_bit low pf_large) pf_globl
    else set_bit (set_bit (set_bit device pf_large) pf_globl) pf_pcd

-- The two loops that fill the table of the window.
pub fill_window : Ptr → Cmd (Unit {0})
fill_window pt2 =
    if pt2 == null
    then halt null_pointer
    else change λ k. record k {
      pages = update k.pages pt2 (λ i. if ltb i 512 then window_entry i else k.pages pt2 i);
    }

-- The table of the window, and its entry in the last table of level 3.
pub add_window : Cmd (Unit {0})
add_window = do
  pt2 ← pge_alloc
  fill_window pt2
  k ← get
  let pt3 = (k.pages k.pcx_root 511 + virtual_base) % 2 ^ 64 / 2 ^ 12 * 2 ^ 12
  change (λ k. with_word k pt3 511 (entry_of pt2))

pub init : Cmd (Unit {0})
init = do
  root ← pge_alloc
  change (λ k. record k { pcx_root = root })
  clear_page root
  upper_loop 256 256
  add_window
