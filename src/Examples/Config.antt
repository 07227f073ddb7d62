-- ===== src/Examples/Config.antt =====
-- The configuration, the memory map, and numbers.
use pinion.MemoryMap.Init.Fits.{Below, init-Below}
use pinion.MemoryMap.Init.{Found, Pmm, init}
use pinion.Resolve.Names.{resolve-At}
use pinion.Resolve.{resolve, symbol_of, page_set}
use pinion.Config.Parse.Print.{AllPrintable, lines, parse-lines}
use pinion.Config.{strcmp, read_as_ptr, ConfigItem}
use pinion.Prelude.{
  List, ◌+◌, ◌%◌, ℕ, length, ◌≡◌, ◌^◌, arith, ◌∷◌, [], ◌≤◌, refl, ◌*◌, if◌then◌else◌, some, ◌==◌,
  suc,
}
use pinion.Config.Hex.{read_as_ptr-putp}
use pinion.Config.Lookup.{read-Looked, Looked}
use pinion.Config.Parse.Rounds.{parse-parse_loop}
use pinion.Config.Parse.{entry, parse, parse_loop, next_word, skip_blanks, word, skip_line}
use pinion.Log.{putp}
use pinion.MemoryMap.{cutoff}
use pinion.Config

-- "kernel", "kern" and "base"
abbrev kernel : List ℕ
kernel = b'k' ∷ b'e' ∷ b'r' ∷ b'n' ∷ b'e' ∷ b'l' ∷ []

abbrev kern : List ℕ
kern = b'k' ∷ b'e' ∷ b'r' ∷ b'n' ∷ []

abbrev base_name : List ℕ
base_name = b'b' ∷ b'a' ∷ b's' ∷ b'e' ∷ []

abbrev items : List ConfigItem
items = record { section = kernel; property = base_name; value = putp 0xC000 } ∷ []

-- "# x\nk b v\n"
abbrev text : List ℕ
text = b'#' ∷ b' ' ∷ b'x' ∷ 10 ∷ b'k' ∷ b' ' ∷ b'b' ∷ b' ' ∷ b'v' ∷ 10 ∷ []

parse-text :
    parse text ≡ some (record { section = b'k' ∷ []; property = b'b' ∷ []; value = b'v' ∷ [] } ∷ [])
unfolding parse parse_loop entry next_word skip_blanks word skip_line
parse-text = refl

read-Looked_example : Looked items kern base_name (Config.read items kern base_name)
read-Looked_example = read-Looked items kern base_name

read_as_ptr-putp_example : read_as_ptr items kernel base_name 7 ≡ 0xC000
unfolding Config.read strcmp
read_as_ptr-putp_example = read_as_ptr-putp items kernel base_name 0xC000 7 (omega arith) refl

parse-parse_loop_example :
    (items : List ConfigItem) × (parse text ≡ some items)
    × (parse_loop (5 + suc (length text)) 64 text ≡ some items)
parse-parse_loop_example = parse-parse_loop text 5

-- A value may have blanks.
abbrev printed : List ConfigItem
printed = record { section = kernel; property = base_name; value = b'a' ∷ b' ' ∷ b'b' ∷ [] } ∷ []

printed-AllPrintable : AllPrintable printed
printed-AllPrintable = (
  record {
    section = ground arith;
    section_begins = refl;
    no_comment = λ cs e. cc;
    property = ground arith;
    property_begins = refl;
    value = ground arith;
    value_begins = refl;
  },
  tt,
)

parse-lines_example : parse (lines printed) ≡ some printed
parse-lines_example = parse-lines printed printed-AllPrintable (omega arith)

resolve-At_example :
    resolve (λ i. 0x1000 + 16 * i) 0x20_0000 (symbol_of page_set)
    ≡ (0x20_0000 + (0x1000 + 16 * 15)) % 2 ^ 64
resolve-At_example = resolve-At (λ i. 0x1000 + 16 * i) 0x20_0000 15 page_set refl

-- 2 GiB in two regions
abbrev found : Found
found = record {
  total = 0x8000_0000;
  count = 2;
  entry = λ i.
      if i == 0
      then record { base = 0; size = 0x9_0000 }
      else record { base = 0x10_0000; size = 0x7FF0_0000 };
}

init-Below_example :
    (p : Pmm) × (init 0x20_0000 0x21_0000 found ≡ some p)
    × (p.map_cutoff ≡ cutoff 0x8000_0000)
    × Below p.map_cutoff found p.low.count p.low
    × (p.high.count ≤ 2)
init-Below_example = init-Below found 0x20_0000 0x21_0000 (omega arith)
