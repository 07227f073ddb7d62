-- ===== src/Config.antt =====
-- The configuration of the boot loader (src/pinion64/config.c). A text is the list of its
-- characters, without the terminating NUL.
pub mod Hex
pub mod Parse
pub mod Lookup
use pinion.Prelude.{
  ℕ, List, Option, none, some, ◌∷◌, if◌then◌else◌, leb, ◌==◌, ◌*◌, ◌&&◌, ◌%◌, [], ◌-◌, ◌^◌, ◌+◌,
}

-- `strcmp` of this file (and of load.c, init.c and api_resolve.c): 0 where no character differs up
-- to the end of the shorter text.
unfoldable pub strcmp : List ℕ → List ℕ → ℕ
strcmp [] b = 0
strcmp (x ∷ xs) [] = 0
strcmp (x ∷ xs) (y ∷ ys) = if x == y then strcmp xs ys else 1

-- `struct config_item`
pub record ConfigItem : Type 0 where
  pub section : List ℕ
  pub property : List ℕ
  pub value : List ℕ

-- `config_read` over the complete entries; `none` is NULL.
unfoldable pub read : List ConfigItem → (section property : List ℕ) → Option (List ℕ)
read [] section property = none
read (item ∷ rest) section property =
    if strcmp item.section section == 0 && strcmp item.property property == 0
    then some item.value
    else read rest section property

-- The value of a hexadecimal digit.
digit : ℕ → Option ℕ
digit c =
    if leb b'0' c && leb c b'9'
    then some (c - b'0')
    else if leb b'a' c && leb c b'f'
    then some (c - b'a' + 10)
    else if leb b'A' c && leb c b'F'
    then some (c - b'A' + 10)
    else none

-- The loop over the digits: `ptrvalue <<= 4` on 64 bits, then the digit in the four free bits.
pub as_ptr_loop : List ℕ → ℕ → Option ℕ
as_ptr_loop [] acc = some acc
as_ptr_loop (c ∷ cs) acc =
    let next = λ (d : ℕ). as_ptr_loop cs (acc * 16 % 2 ^ 64 + d) in
    elim (digit c) [ none ↦ none | some d ↦ next d ]

-- The value `v` if there is one, and `sentinel` if not.
unfoldable pub value_or : ℕ → Option ℕ → ℕ
value_or sentinel none = sentinel
value_or sentinel (some v) = v

unfoldable pub read_as_ptr : List ConfigItem → (section property : List ℕ) → (sentinel : ℕ) → ℕ
read_as_ptr items section property sentinel =
    value_or sentinel
      (elim (read items section property) [ none ↦ none | some value ↦ as_ptr_loop value 0 ])
