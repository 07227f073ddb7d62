-- ===== src/Unfold/Objects.antt =====
-- The objects that unfold hands to pinion (src/unfold/object.h, object.c, and the modules of
-- multiboot.c).
use pinion.Prelude.{
  ℕ, List, Option, ◌∷◌, some, none, ◌+◌, ◌^◌, suc, if◌then◌else◌, ◌%◌, ◌-◌, ◌==◌, [], zero,
}
use pinion.Unfold.Multiboot.{is_pinion, copy_name}
use pinion.Options.{◌>>=◌}

-- `struct unfold_object`
pub record Object : Type 0 where
  pub base : ℕ
  pub size : ℕ
  pub type : ℕ
  pub name : ℕ → ℕ

abbrev pub object_unknown : ℕ
object_unknown = 0xFFFF_FFFF

abbrev pub object_pinion : ℕ
object_pinion = 1

-- `struct multiboot_module`
pub record Module : Type 0 where
  pub mod_start : ℕ
  pub mod_end : ℕ
  pub string : ℕ → ℕ

-- `mboot_static_objl` has 256 bytes: 8 for the count, 64 for each object.
abbrev pub object_room : ℕ
object_room = 3

-- One module. Strings have fewer than `chars` characters; `first` is that of the first module.
pub object_of : (chars : ℕ) (first : ℕ → ℕ) → Module → Option Object
object_of chars first mod' = do
  pinion ← is_pinion chars mod'.string
  some (record {
    base = mod'.mod_start;
    size = (mod'.mod_end + 2 ^ 32 - mod'.mod_start) % 2 ^ 32;
    type = if pinion then object_pinion else object_unknown;
    name = copy_name 48 first mod'.string 0 (λ j. 0);
  })

-- The loop over the modules, with room for `room` more objects; `none` is a write behind the array.
pub objects_of : (chars room : ℕ) (first : ℕ → ℕ) → List Module → Option (List Object)
objects_of chars room first [] = some []
objects_of chars zero first (m ∷ ms) = none
objects_of chars (suc room) first (m ∷ ms) = do
  object ← object_of chars first m
  rest ← objects_of chars room first ms
  some (object ∷ rest)

-- The first image of pinion, which `init_object_list` looks for.
pub pinion_image : List Object → Option Object
pinion_image [] = none
pinion_image (o ∷ os) = if o.type == object_pinion then some o else pinion_image os

-- The move of the objects to the addresses of pinion.
pub relocated : List Object → List Object
relocated [] = []
relocated (o ∷ os) = record o { base = (o.base + 0xFFFF_FFFF_C000_0000) % 2 ^ 64 } ∷ relocated os
