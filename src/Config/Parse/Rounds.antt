-- ===== src/Config/Parse/Rounds.antt =====
-- The loop of `config_parse` ends.
use pinion.Options.{◌>>=◌}
use pinion.Config.{ConfigItem}
use Prim.Native.Nat.{zero, suc}
use pinion.Prelude.{
  ℕ, Option, List, Bool, length, some, ◌≤◌, arith, suc, ◌<◌, ◌≡◌, none, if◌then◌else◌, [], ◌∷◌, ap,
  true, false, refl, ◌==◌, ◌+◌, Bool-cases, inl, inr,
}
use pinion.Config.Parse.{
  skip_blanks, skip_line, word, next_word, entry, parse_loop, parse, ends_name, ends_value, newline,
}

skip_blanks-length : (text : List ℕ) → length (skip_blanks text) ≤ length text
unfolding skip_blanks
skip_blanks-length [] = omega arith
skip_blanks-length (c ∷ cs) = ground (arith, skip_blanks-length cs)

skip_line-length : (text : List ℕ) → length (skip_line text) ≤ length text
unfolding skip_line
skip_line-length [] = omega arith
skip_line-length (c ∷ cs) = ground (arith, skip_line-length cs)

-- What is left of a text of `n` characters is shorter.
abbrev pub Shrinks : {A : Type 0} → ℕ → Option (A × List ℕ) → Type 0
Shrinks n none = Unit {0}
Shrinks n (some (a, rest)) = length rest < n

word-step :
    (n c : ℕ) (cs : List ℕ) (ended : Bool) (o : Option (List ℕ × List ℕ))
    → length cs < n
    → Shrinks n o
    → Shrinks n (
        if ended then some ([], cs) else elim o [ none ↦ none | some (w, cs') ↦ some (c ∷ w, cs') ])
word-step n c cs true o small s = small
word-step n c cs false none small s = tt
word-step n c cs false (some (w, rest)) small s = s

Shrinks-weaken :
    {A : Type 0} (m n : ℕ) (o : Option (A × List ℕ)) → m ≤ n → Shrinks m o → Shrinks n o
Shrinks-weaken m n none le s = tt
Shrinks-weaken m n (some (a, rest)) le s = omega arith

word-Shrinks : (ends : ℕ → Bool) (text : List ℕ) → Shrinks (length text) (word ends text)
unfolding word
word-Shrinks ends [] = tt
word-Shrinks ends (c ∷ cs) =
    word-step (length (c ∷ cs)) c cs (ends c) (word ends cs) (omega arith) (
      Shrinks-weaken (length cs) (length (c ∷ cs)) (word ends cs) (omega arith)
        (word-Shrinks ends cs))

next_word-Shrinks :
    (n : ℕ) (ends : ℕ → Bool) (text : List ℕ) → length text ≤ n → Shrinks n (next_word ends text)
unfolding next_word
next_word-Shrinks n ends text le =
    let text' = skip_blanks text in
    Shrinks-weaken (length text') n (word ends text')
      (let shorter = skip_blanks-length text in omega arith) (word-Shrinks ends text')

bind-Shrinks :
    {A B : Type 0} (n : ℕ) (o : Option (A × List ℕ)) (next : A × List ℕ → Option (B × List ℕ))
    → Shrinks n o
    → ((a : A) (rest : List ℕ) → length rest < n → Shrinks n (next (a, rest)))
    → Shrinks n (o >>= next)
bind-Shrinks n none next s f = tt
bind-Shrinks n (some (a, rest)) next s f = f a rest s

pub entry-Shrinks : (text : List ℕ) → Shrinks (length text) (entry text)
unfolding entry
entry-Shrinks text =
    let n = length text in
    bind-Shrinks n (next_word ends_name text) _ (next_word-Shrinks n ends_name text (omega arith))
      λ s rest l.
        bind-Shrinks n (next_word ends_name rest) _
          (next_word-Shrinks n ends_name rest (omega arith))
          λ p rest l.
            bind-Shrinks n (next_word ends_value rest) _
              (next_word-Shrinks n ends_value rest (omega arith)) λ v rest l. l

comment-length :
    (c : ℕ) (cs : List ℕ) (n : ℕ)
    → (c == b'#') ≡ true
    → length (c ∷ cs) < suc n
    → length (skip_line (c ∷ cs)) < n
unfolding skip_line
comment-length c cs n comment le = ground (arith, skip_line-length cs)

-- The loop is over after `m` rounds, and after `n` rounds, with the same entries.
abbrev Over : (m n room : ℕ) → List ℕ → Type 0
Over m n room text =
    (items : List ConfigItem) × (parse_loop m room text ≡ some items)
    × (parse_loop n room text ≡ some items)

entry_part :
    (k m n room : ℕ) (o : Option (ConfigItem × List ℕ))
    → Shrinks k o
    → ((rest : List ℕ) → length rest < k → Over m n room rest)
    → (items : List ConfigItem) × (◌≡◌ {A = Option (List ConfigItem)}
        (elim o [
          | none ↦ some []
          | some (item, rest) ↦ parse_loop m room rest >>= λ items. some (item ∷ items)
        ])
        (some items))
      × (◌≡◌ {A = Option (List ConfigItem)}
          (elim o [
            | none ↦ some []
            | some (item, rest) ↦ parse_loop n room rest >>= λ items. some (item ∷ items)
          ])
          (some items))
entry_part k m n room none s over = ([], refl, refl)
entry_part k m n room (some (item, rest)) s over =
    let (items, e, f) = over rest s in
    (
      item ∷ items,
      ap (λ o. o >>= λ items. some (item ∷ items)) e,
      ap (λ o. o >>= λ items. some (item ∷ items)) f,
    )

-- The loop is over once there are more rounds than characters.
rounds-Over :
    (m n room : ℕ) (text : List ℕ) → length text < m → length text < n → Over m n room text
unfolding parse_loop
rounds-Over zero n room text l l' = absurd (omega arith)
rounds-Over (suc m) zero room text l l' = absurd (omega arith)
rounds-Over (suc m) (suc n) zero text l l' = ([], refl, refl)
rounds-Over (suc m) (suc n) (suc room) [] l l' = ([], refl, refl)
rounds-Over (suc m) (suc n) (suc room) (c ∷ cs) l l' = elim (Bool-cases (c == b'#')) [
  | inl comment ↦
      rw (parse_loop, comment)
        (rounds-Over m n (suc room) (skip_line (c ∷ cs)) (comment-length c cs m comment l)
          (comment-length c cs n comment l'))
  | inr n1 ↦
      rw (parse_loop, n1)
        (elim (Bool-cases (c == newline)) [
          | inl empty ↦
              rw (parse_loop, empty) (rounds-Over m n (suc room) cs (omega arith) (omega arith))
          | inr n1 ↦
              rw (parse_loop, n1)
                (entry_part (length (c ∷ cs)) m n room (entry (c ∷ cs)) (entry-Shrinks (c ∷ cs))
                  λ rest shorter. rounds-Over m n room rest (omega arith) (omega arith))
        ])
]

-- The loop of config_parse is over after one round more than there are characters, with the same
-- entries for any greater number of rounds.
pub parse-parse_loop :
    (text : List ℕ) (n : ℕ)
    → (items : List ConfigItem) × (parse text ≡ some items)
      × (parse_loop (n + suc (length text)) 64 text ≡ some items)
unfolding parse
parse-parse_loop text n =
    rounds-Over (suc (length text)) (n + suc (length text)) 64 text (omega arith) (omega arith)
