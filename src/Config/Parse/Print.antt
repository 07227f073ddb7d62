-- ===== src/Config/Parse/Print.antt =====
-- What `config_parse` makes of a text that is written by lines.
use pinion.Config.Parse.Rounds.{Shrinks, entry-Shrinks}
use pinion.Prelude.{
  ℕ, List, Bool, ◌∷◌, ◌≢◌, ◌++◌, ◌≡◌, false, true, some, [], refl, length, suc, ◌<◌, ◌≤◌, ◌==◌,
  subst, ap, arith, ◌∙◌, sym, zero, ne→==,
}
use pinion.Config.{ConfigItem}
use pinion.Config.Parse.{
  skip_blanks, word, next_word, entry, ends_name, ends_value, newline, is_blank, parse_loop, parse,
  ◌>>=◌,
}

-- A text of which no character ends a word.
abbrev pub Inside : (ℕ → Bool) → List ℕ → Type 0
Inside ends [] = Unit {0}
Inside ends (c ∷ cs) = (ends c ≡ false) × Inside ends cs

-- A text that begins with a character which is not a blank.
abbrev pub Begins : List ℕ → Type 0
Begins [] = ⊥
Begins (c ∷ cs) = is_blank c ≡ false

-- The names have no blanks and no line ends, the section does not begin a comment, and the value has no
-- line end.
pub record Printable (item : ConfigItem) : Type 0 where
  pub section : Inside ends_name item.section
  pub section_begins : Begins item.section
  pub no_comment : (cs : List ℕ) → item.section ≢ b'#' ∷ cs
  pub property : Inside ends_name item.property
  pub property_begins : Begins item.property
  pub value : Inside ends_value item.value
  pub value_begins : Begins item.value

-- One line for an item.
pub line : ConfigItem → List ℕ → List ℕ
line item rest = item.section ++ b' ' ∷ (item.property ++ b' ' ∷ (item.value ++ newline ∷ rest))

pub lines : List ConfigItem → List ℕ
lines [] = []
lines (item ∷ items) = line item (lines items)

abbrev pub AllPrintable : List ConfigItem → Type 0
AllPrintable [] = Unit {0}
AllPrintable (item ∷ items) = Printable item × AllPrintable items

word-append :
    (ends : ℕ → Bool) (w : List ℕ) (c : ℕ) (rest : List ℕ)
    → Inside ends w
    → ends c ≡ true
    → word ends (w ++ c ∷ rest) ≡ some (w, rest)
unfolding word
word-append ends [] c rest i e = rw e refl
word-append ends (x ∷ w) c rest (nx, i) e = rw (nx, word-append ends w c rest i e) refl

skip_blanks-append : (w rest : List ℕ) → Begins w → skip_blanks (w ++ rest) ≡ w ++ rest
unfolding skip_blanks
skip_blanks-append [] rest b = absurd b
skip_blanks-append (c ∷ w) rest b = rw b refl

next_word-append :
    (ends : ℕ → Bool) (w : List ℕ) (c : ℕ) (rest : List ℕ)
    → Begins w
    → Inside ends w
    → ends c ≡ true
    → next_word ends (w ++ c ∷ rest) ≡ some (w, rest)
unfolding next_word
next_word-append ends w c rest b i e =
    rw (skip_blanks-append w (c ∷ rest) b) (word-append ends w c rest i e)

entry-line :
    (item : ConfigItem) (rest : List ℕ)
    → Printable item
    → entry (line item rest) ≡ some (item, rest)
unfolding entry line
entry-line item rest p =
    rw
      (
        next_word-append ends_name item.section b' ' _ p.section_begins p.section refl,
        next_word-append ends_name item.property b' ' _ p.property_begins p.property refl,
        next_word-append ends_value item.value newline rest p.value_begins p.value refl,
      )
      refl

line-length :
    (item : ConfigItem) (rest : List ℕ) → Printable item → length rest < length (line item rest)
line-length item rest p =
    subst (λ o. Shrinks (length (line item rest)) o) (entry-line item rest p)
      (entry-Shrinks (line item rest))

-- The first round on a text that begins with an entry.
parse_loop-entry :
    (n room : ℕ) (text : List ℕ) (c : ℕ) (cs : List ℕ) (item : ConfigItem) (rest : List ℕ)
    → text ≡ c ∷ cs
    → (c == b'#') ≡ false
    → (c == newline) ≡ false
    → entry text ≡ some (item, rest)
    → parse_loop (suc n) (suc room) text ≡ (parse_loop n room rest >>= λ items. some (item ∷ items))
unfolding parse_loop
parse_loop-entry n room text c cs item rest is nc nl e =
    ap (parse_loop (suc n) (suc room)) is ∙ rw (parse_loop, nc, nl, sym is, e) refl

-- A printable section begins neither an empty line nor a comment.
section-cons :
    (section rest : List ℕ)
    → Begins section
    → Inside ends_name section
    → ((cs : List ℕ) → section ≢ b'#' ∷ cs)
    → (c : ℕ) × (cs : List ℕ) × (section ++ rest ≡ c ∷ cs)
      × ((c == b'#') ≡ false)
      × ((c == newline) ≡ false)
section-cons [] rest b i nc = absurd b
section-cons (c ∷ w) rest b (name, i) nc =
    (c, w ++ rest, refl, ne→== c b'#' (λ e. nc w (ap (λ c. c ∷ w) e)), ground arith)

parse_loop-line :
    (n room : ℕ) (item : ConfigItem) (rest : List ℕ)
    → Printable item
    → parse_loop (suc n) (suc room) (line item rest)
      ≡ (parse_loop n room rest >>= λ items. some (item ∷ items))
unfolding line
parse_loop-line n room item rest p =
    let (c, cs, is, nc, nl) = section-cons item.section _ p.section_begins p.section p.no_comment in
    parse_loop-entry n room (line item rest) c cs item rest is nc nl (entry-line item rest p)

no_rounds : (text : List ℕ) → length text < 0 → ⊥
no_rounds text le = omega arith

no_room : (item : ConfigItem) (items : List ConfigItem) → length (item ∷ items) ≤ 0 → ⊥
no_room item items fits = omega arith

parse_loop-lines :
    (items : List ConfigItem) (n room : ℕ)
    → AllPrintable items
    → length (lines items) < n
    → length items ≤ room
    → parse_loop n room (lines items) ≡ some items
unfolding lines parse_loop
parse_loop-lines [] zero room ps le fits = absurd (no_rounds (lines []) le)
parse_loop-lines [] (suc n) zero ps le fits = refl
parse_loop-lines [] (suc n) (suc room) ps le fits = refl
parse_loop-lines (item ∷ items) zero room (p, ps) le fits =
    absurd (no_rounds (lines (item ∷ items)) le)
parse_loop-lines (item ∷ items) (suc n) zero (p, ps) le fits = absurd (no_room item items fits)
parse_loop-lines (item ∷ items) (suc n) (suc room) (p, ps) le fits =
    parse_loop-line n room item (lines items) p
    ∙ ap (λ o. o >>= λ items. some (item ∷ items))
        (parse_loop-lines items n room ps (let l = line-length item (lines items) p in omega arith)
          (omega arith))

-- config_parse of a text with one line for each of up to 64 items, the words separated by one
-- blank, gives these items, where the names are not empty and have no blanks or line ends, no
-- section begins with the comment sign, and each value begins with a character that is not a
-- blank and has no line end.
pub parse-lines :
    (items : List ConfigItem)
    → AllPrintable items
    → length items ≤ 64
    → parse (lines items) ≡ some items
unfolding parse
parse-lines items ps fits =
    parse_loop-lines items (suc (length (lines items))) 64 ps (omega arith) fits
