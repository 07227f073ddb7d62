-- ===== src/Config/Parse.antt =====
-- `config_parse` (src/pinion64/config.c). The text is consumed from the front: a character that the code
-- replaces by NUL ends the word before it and is dropped.
pub mod Rounds
pub mod Print
use pinion.Options.{◌>>=◌}
use pinion.Prelude.{
  true, false, ℕ, List, Bool, Option, [], length, ◌∷◌, none, ◌||◌, suc, ◌==◌, if◌then◌else◌, some,
  zero,
}
use pinion.Config.{ConfigItem}

-- `pconf[i] == ' ' || pconf[i] == '\t'`
abbrev pub is_blank : ℕ → Bool
is_blank c = c == b' ' || c == 9

abbrev pub newline : ℕ
newline = 10

unfoldable pub skip_blanks : List ℕ → List ℕ
skip_blanks [] = []
skip_blanks (c ∷ cs) = let rest = skip_blanks cs in if is_blank c then rest else c ∷ cs

-- A comment, with the end of its line.
unfoldable pub skip_line : List ℕ → List ℕ
skip_line [] = []
skip_line (c ∷ cs) = let rest = skip_line cs in if c == newline then cs else rest

-- The characters up to one that ends the word, and the text behind that one. At the end of the text
-- there is no word.
unfoldable pub word : (ℕ → Bool) → List ℕ → Option (List ℕ × List ℕ)
word ends [] = none
word ends (c ∷ cs) =
    let rest = word ends cs in
    if ends c then some ([], cs) else elim rest [ none ↦ none | some (w, cs') ↦ some (c ∷ w, cs') ]

-- The next word after blanks.
unfoldable pub next_word : (ℕ → Bool) → List ℕ → Option (List ℕ × List ℕ)
next_word ends text = word ends (skip_blanks text)

abbrev pub ends_name : ℕ → Bool
ends_name c = is_blank c || c == newline

abbrev pub ends_value : ℕ → Bool
ends_value c = c == newline

-- One entry, and the text behind it; `none` where the text ends before the entry does. An entry that
-- is left without a property or a value by this is not kept.
unfoldable pub entry : List ℕ → Option (ConfigItem × List ℕ)
entry text = do
  (section, text) ← next_word ends_name text
  (property, text) ← next_word ends_name text
  (value, text) ← next_word ends_value text
  some (record { section = section; property = property; value = value }, text)

-- The loop over the lines, with room for `room` more entries, in at most `n` rounds; `none` where it is
-- not over by then.
unfoldable pub parse_loop : (n room : ℕ) → List ℕ → Option (List ConfigItem)
parse_loop zero room text = none
parse_loop (suc n) zero text = some []
parse_loop (suc n) (suc room) [] = some []
parse_loop (suc n) (suc room) (c ∷ cs) = elim (c == b'#') [
  | true ↦ parse_loop n (suc room) (skip_line (c ∷ cs))
  | false ↦ elim (c == newline) [
    | true ↦ parse_loop n (suc room) cs
    | false ↦ elim (entry (c ∷ cs)) [
      | none ↦ some []
      | some (item, rest) ↦ (do items ← parse_loop n room rest; some (item ∷ items))
    ]
  ]
]

-- The complete entries of `config_index` after `config_parse`. Every round but the last takes a character
-- at least.
unfoldable pub parse : List ℕ → Option (List ConfigItem)
parse text = parse_loop (suc (length text)) 64 text
