-- ===== src/Load/Image/Readable.antt =====
-- When `fixup_kernel` can read the dynamic section and the name of the API.
use pinion.Bytes.{Memory}
use pinion.Load.{unknown}
use pinion.Load.Copy.{mapped}
use pinion.Load.Fixup.{Tag, Tags, described, tags, collect-described}
use pinion.Load.Image.{readable, section_mapped, name_mapped}
use pinion.Machine.{Kernel}
use pinion.Prelude.{ℕ, List, [], ◌∷◌, suc, true, ◌+◌, ◌^◌, ◌%◌, ◌≡◌, ◌≢◌, arith, refl, ne→==}

-- The entries are mapped, and so is the end.
abbrev pub EntriesMapped : Kernel → ℕ → List Tag → Type 0
EntriesMapped k a [] = (mapped k a ≡ true) × (mapped k ((a + 15) % 2 ^ 64) ≡ true)
EntriesMapped k a (e ∷ es) =
    (mapped k a ≡ true)
    × (mapped k ((a + 15) % 2 ^ 64) ≡ true)
    × EntriesMapped k ((a + 16) % 2 ^ 64) es

section_seen :
    (es : List Tag) (k : Kernel) (m : Memory) (a : ℕ)
    → Tags m a es
    → EntriesMapped k a es
    → section_mapped (suc (tags es)) k m a ≡ true
unfolding section_mapped
section_seen [] k m a laid (first, last) = rw (laid, first, last) refl
section_seen ((tag, val) ∷ es) k m a (is, ne, holds, laid) (first, last, seen) =
    rw (first, last, is, ne→== tag 0 ne) (section_seen es k m ((a + 16) % 2 ^ 64) laid seen)

-- A dynamic section whose entries are mapped, with a name of the API that is mapped, can be read.
pub readable-mapped :
    (base : ℕ) (es : List Tag) (k : Kernel) (m : Memory) (dynamic : ℕ)
    → let d = described base es unknown in
      Tags m dynamic es
      → dynamic ≢ 0
      → d.str ≢ 0
      → EntriesMapped k dynamic es
      → mapped k ((d.str + d.needed_off) % 2 ^ 64) ≡ true
      → mapped k (((d.str + d.needed_off) % 2 ^ 64 + 15) % 2 ^ 64) ≡ true
      → readable base (suc (tags es)) k m dynamic ≡ true
unfolding readable name_mapped
readable-mapped base es k m dynamic laid there named seen first last =
    rw
      (
        ne→== dynamic 0 there,
        section_seen es k m dynamic laid seen,
        collect-described es (suc (tags es)) m base dynamic unknown (omega arith) laid,
        ne→== (described base es unknown).str 0 named,
        first,
        last,
      )
      refl
