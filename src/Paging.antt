-- ===== src/Paging.antt =====
-- The page tables of the root paging context (src/pinion64/page.c). A table is a page of 512
-- entries; an entry holds the address of a frame, and flags in its low 12 bits and in bit 63.
pub mod Mapping
pub mod Setup
pub mod Tree
use pinion.Alloc.{pge_alloc, with_word}
use pinion.Machine.{Ptr, Kernel, Cmd, pure, ◌>>=◌, get, null, ◌>>◌, change, halt, null_pointer}
use Prim.Native.Nat.{bit_or}
use pinion.Prelude.{
  zero, suc, ℕ, Option, ◌%◌, ◌+◌, ◌/◌, none, if◌then◌else◌, ◌^◌, ◌*◌, some, not, ltb, ◌-◌, set_bit,
  test_bit, low_bits, ◌&&◌, ◌==◌, ◌||◌, update,
}

-- where pinion maps the physical memory
abbrev pub virtual_base : ℕ
virtual_base = 0xFFFF_FFFF_C000_0000

-- The positions of `PF_PRES` to `PF_NX`.
abbrev pub pf_pres : ℕ
pf_pres = 0

abbrev pub pf_write : ℕ
pf_write = 1

abbrev pub pf_user : ℕ
pf_user = 2

abbrev pub pf_pwt : ℕ
pf_pwt = 3

abbrev pub pf_pcd : ℕ
pf_pcd = 4

abbrev pub pf_accs : ℕ
pf_accs = 5

abbrev pub pf_dirty : ℕ
pf_dirty = 6

abbrev pub pf_large : ℕ
pf_large = 7

abbrev pub pf_valid : ℕ
pf_valid = 9

abbrev pub pf_nread : ℕ
pf_nread = 10

abbrev pub pf_nx : ℕ
pf_nx = 63

-- `entry &~ PF_BITS` and `entry & PF_BITS`
abbrev pub frame_of : ℕ → ℕ
frame_of e = e % 2 ^ 63 / 2 ^ 12 * 2 ^ 12

abbrev pub flags_of : ℕ → ℕ
flags_of e = e % 2 ^ 12 + e / 2 ^ 63 % 2 * 2 ^ 63

-- The table, as pinion sees it, at the frame of an entry.
abbrev pub table_of : ℕ → Ptr
table_of e = (frame_of e + virtual_base) % 2 ^ 64

abbrev pub shift : ℕ → ℕ
shift i = 12 + 9 * (i - 1)

-- `(addr >> shift) & 0x1FF`, the index into the table of level `i`
abbrev pub index : ℕ → ℕ → ℕ
index addr i = addr / 2 ^ shift i % 2 ^ 9

-- The entry at which the walk from a table of level `i` ends, with its level; `none` if one on the
-- way is not present.
pub walk : (ℕ → ℕ → ℕ) → ℕ → (pt addr : ℕ) → Option (ℕ × ℕ)
walk pages zero pt addr = none
walk pages (suc i) pt addr =
    let e = pages pt (index addr (suc i)) in
    let rest = walk pages i (table_of e) addr in
    if not (test_bit e pf_pres)
    then none
    else if test_bit e pf_large || i == 0
    then some (e, suc i)
    else rest

pub get_trans : Kernel → ℕ → ℕ
get_trans k addr = elim (walk k.pages 4 k.pcx_root addr) [
  | none ↦ 2 ^ 64 - 1
  | some (e, i) ↦ (frame_of e + addr % 2 ^ shift i) % 2 ^ 64
]

-- `addr & -0x1000`
pub get_frame : Kernel → ℕ → ℕ
unfolding get_trans
get_frame k addr = get_trans k (addr / 2 ^ 12 * 2 ^ 12)

pub get_flags : Kernel → ℕ → ℕ
get_flags k addr = elim (walk k.pages 4 k.pcx_root addr) [ none ↦ 0 | some (e, i) ↦ flags_of e ]

-- A new table in the entry `j` of the table `pt`. Without memory the code clears the table at NULL.
pub new_table : (pt j : ℕ) → Cmd (Unit {0})
new_table pt j = do
  page ← pge_alloc
  let e = (page + 2 ^ 64 - virtual_base) % 2 ^ 64
  let e' = set_bit (set_bit (set_bit (set_bit e pf_valid) pf_pres) pf_write) pf_user
  change (λ k. with_word k pt j e')
  if page == null
      then halt null_pointer
      else change (λ k. record k {
        pages = update k.pages page (λ i. if ltb i 512 then 0 else k.pages page i);
      })

pub ensure_table : (pt j : ℕ) → Cmd (Unit {0})
ensure_table pt j = do k ← get; if test_bit (k.pages pt j) pf_pres then pure tt else new_table pt j

-- The loop down to the table of level 1, from the table `pt` of level `i + 1`. `none` is the error
-- that a large page is in the way.
pub descend : ℕ → (pt addr : ℕ) → Cmd (Option Ptr)
descend zero pt addr = pure (some pt)
descend (suc i) pt addr = do
  let j = index addr (suc (suc i))
  ensure_table pt j
  k ← get
  if test_bit (k.pages pt j) pf_large then pure none else descend i (table_of (k.pages pt j)) addr

-- 0, or 1 on an error. The mapping is of one page, whatever `size` says.
pub set_frame : (addr size frame flags : ℕ) → Cmd ℕ
set_frame addr size frame flags =
    if not (low_bits size 12 == 0) || not (low_bits addr 12 == 0) then pure 1 else do
      k ← get
      pt ← descend 3 k.pcx_root addr
      elim pt [
        | none ↦ pure 1
        | some pt ↦ (do change (λ k. with_word k pt (index addr 1) (bit_or frame flags)); pure 0)
      ]

-- Where pinion sees a physical address, or null.
unfoldable pub vaddr : ℕ → Ptr
vaddr p =
    if ltb p 0x2000_0000
    then (p + virtual_base) % 2 ^ 64
    else if ltb 0xE000_0000 p && ltb p 0x1_0000_0000
    then (p - 0xE000_0000 + virtual_base + 0x2000_0000) % 2 ^ 64
    else null
