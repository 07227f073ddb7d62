-- ===== src/Unfold/Multiboot.antt =====
-- What multiboot hands to unfold: memory regions and modules (src/unfold/multiboot.c, mmap.c). A string
-- is the function from positions to its characters; 0 ends it.
pub mod Regions
pub mod Image
use pinion.Prelude.{
  ℕ, List, Option, Bool, update, ◌∷◌, suc, if◌then◌else◌, none, [], ◌+◌, ◌==◌, some, false, ◌%◌,
  zero, ◌^◌, leb, not, ltb,
}
use pinion.MemoryMap.{Region}
use pinion.MemoryMap.Init.{Found}

-- `struct multiboot_mmap`
pub record MmapEntry : Type 0 where
  pub size : ℕ
  pub base_addr : ℕ
  pub length : ℕ
  pub type : ℕ

-- `mboot_static_mmap` has 256 bytes: 16 for the totals, 16 for each region.
abbrev pub mmap_room : ℕ
mmap_room = 15

-- The loop over the memory map, whose entries `at` gives by address: `i` bytes have been read, `count`
-- regions written. `none` is a write behind the static array, or too few rounds.
pub mmap_loop :
    ℕ → (at : ℕ → MmapEntry) (bytes addr i total count : ℕ) → (ℕ → Region) → Option Found
mmap_loop zero at bytes addr i total count entry = none
mmap_loop (suc n) at bytes addr i total count entry =
    let e = at addr in
    let next = (addr + e.size + 4) % 2 ^ 32 in
    let i' = (i + e.size + 4) % 2 ^ 32 in
    let skip = mmap_loop n at bytes next i' total count entry in
    let add =
      mmap_loop n at bytes next i' ((total + e.length) % 2 ^ 64) (count + 1)
        (update entry count (record { base = e.base_addr; size = e.length })) in
    if leb bytes i
    then some (record { total = total; count = count; entry = entry })
    else if not (e.type == 1)
    then skip
    else if ltb count mmap_room
    then add
    else none

-- The loop of `init_mmap` over the `n` regions from number `i` on.
pub total_loop : ℕ → (ℕ → Region) → (i total : ℕ) → ℕ
total_loop zero entry i total = total
total_loop (suc n) entry i total = total_loop n entry (i + 1) ((total + (entry i).size) % 2 ^ 64)

-- `init_mmap`
pub init_mmap : Found → Found
init_mmap f = record f { total = total_loop f.count f.entry 0 0 }

-- The position of the end of a string, from position `j` on.
pub end_of : ℕ → (string : ℕ → ℕ) → ℕ → Option ℕ
end_of zero string j = none
end_of (suc n) string j =
    let rest = end_of n string (j + 1) in if string j == 0 then some j else rest

-- Back from position `j` to the last `/`; the result is the position behind it, or 0.
pub base_name : (string : ℕ → ℕ) → ℕ → ℕ
base_name string zero = if string 0 == b'/' then 1 else 0
base_name string (suc j) =
    let rest = base_name string j in if string (suc j) == b'/' then suc j + 1 else rest

-- How many of the characters of `text` stand in the string from `j` on.
pub matching : List ℕ → (string : ℕ → ℕ) → ℕ → ℕ
matching [] string j = 0
matching (c ∷ cs) string j =
    let rest = matching cs string (j + 1) in
    if string j == 0 then 0 else if c == string j then suc rest else 0

abbrev pub pinion64 : List ℕ
pinion64 = b'p' ∷ b'i' ∷ b'n' ∷ b'i' ∷ b'o' ∷ b'n' ∷ b'6' ∷ b'4' ∷ []

-- The module with this string is the image of pinion; `none` if the string has no end within `n`
-- characters.
pub is_pinion : ℕ → (string : ℕ → ℕ) → Option Bool
is_pinion n string = elim (end_of n string 0) [
  | none ↦ none
  | some j ↦ some (matching pinion64 string (base_name string j) == 8)
]

-- The copy of a name, from character `j` on, with `n` of the 48 characters left. The loop ends with the
-- string `first` of the first module.
pub copy_name : ℕ → (first string : ℕ → ℕ) (j : ℕ) → (ℕ → ℕ) → ℕ → ℕ
copy_name zero first string j name = update name 47 0
copy_name (suc n) first string j name =
    let name' = update name j (string j) in
    let rest = copy_name n first string (j + 1) name' in
    if first j == 0 then update name' 47 0 else rest
