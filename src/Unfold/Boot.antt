-- ===== src/Unfold/Boot.antt =====
-- `init` of src/unfold/init.c.
use pinion.Options.{◌>>=◌}
use pinion.Prelude.{
  ℕ, Option, List, ◌∷◌, if◌then◌else◌, some, test_bit, not, [], leb, ◌==◌, none, ◌+◌, ◌^◌,
}
use pinion.Bytes.{Memory}
use pinion.Unfold.Elf.{load_pinion}
use pinion.Unfold.Multiboot.{MmapEntry, mmap_loop, init_mmap}
use pinion.Unfold.Objects.{Object, Module, pinion_image, objects_of, object_room, relocated}
use pinion.MemoryMap.Init.{Found}

-- `struct multiboot_header`; the fields of a flag that is not set are not read.
pub record Multiboot : Type 0 where
  pub flags : ℕ
  pub mods : List Module
  pub mmap_bytes : ℕ
  pub mmap_addr : ℕ
  pub mmap_at : ℕ → MmapEntry

-- How unfold ends: an error is logged, or pinion is entered.
pub data Outcome : Type 0 where
  bad_magic no_mmap no_objects no_image image_out_of_range : Outcome
  entered : (entry : ℕ) → Found → List Object → Memory → Outcome

-- `mmap` and `object_list` after `init_multiboot`; `none` inside where they stay `NULL`.
pub record Given : Type 0 where
  pub mmap : Option Found
  pub objects : Option (List Object)

flag_mods : ℕ
flag_mods = 3

flag_mmap : ℕ
flag_mmap = 6

-- `mods_addr->string`, that of the first module.
abbrev first_string : List Module → ℕ → ℕ
first_string [] = λ j. 0
first_string (m ∷ ms) = m.string

mmap_of : Multiboot → Option (Option Found)
mmap_of mboot =
    if test_bit mboot.flags flag_mmap
    then (do
      f ←
          mmap_loop (mboot.mmap_bytes + 1) mboot.mmap_at mboot.mmap_bytes mboot.mmap_addr 0 0 0
            (λ i. record { base = 0; size = 0 })
      some (some f))
    else some none

objects_in : ℕ → Multiboot → Option (Option (List Object))
objects_in chars mboot =
    if test_bit mboot.flags flag_mods
    then (do os ← objects_of chars object_room (first_string mboot.mods) mboot.mods; some (some os))
    else some none

-- `init_multiboot`; strings have fewer than `chars` characters.
pub init_multiboot : ℕ → Multiboot → Option Given
init_multiboot chars mboot = do
  mmap ← mmap_of mboot
  objects ← objects_in chars mboot
  some (record { mmap = mmap; objects = objects })

-- The end of `init`, with the image that was found. An image that is no ELF file has the entry 0.
enter : Found → List Object → Option Object → Memory → Outcome
enter f os none m = no_image
enter f os (some o) m =
    let (entry, m') = load_pinion o.base m in
    if leb (2 ^ 32) o.base
    then image_out_of_range
    else entered entry (init_mmap f) (relocated os) m'

check : Option Found → Option (List Object) → Memory → Outcome
check none os m = no_mmap
check (some f) none m = no_objects
check (some f) (some os) m = enter f os (pinion_image os) m

pub init : (chars magic : ℕ) → Multiboot → Memory → Option Outcome
init chars magic mboot m =
    if not (magic == 0x2BAD_B002)
    then some bad_magic
    else do g ← init_multiboot chars mboot; some (check g.mmap g.objects m)
