-- ===== src/MpTable/Names.antt =====
-- The name of a bus, less the blanks that fill it up.
use mathlib.Core.Path.{fun_ext}
use pinion.Bytes.{Memory, text}
use pinion.MpTable.{bus, trim, bus_string, bus_message}
use pinion.Prelude.{
  ℕ, List, [], ◌∷◌, some, zero, suc, ◌≡◌, ◌≢◌, ◌<◌, ◌≤◌, ◌+◌, ◌==◌, ◌&&◌, ◌∙◌, if◌then◌else◌, leb,
  ltb, update, false, arith, refl, ap, last_or, length, Bool-cases, inl, inr, sym,
}

-- The `n` characters from an address on are the name, none of them 0, and blanks behind it.
abbrev pub Padded : Memory → ℕ → List ℕ → ℕ → Type 0
Padded m a [] n = (j : ℕ) → j < n → m (a + j) ≡ b' '
Padded m a (c ∷ cs) zero = ⊥
Padded m a (c ∷ cs) (suc n) = (m a ≡ c) × (c ≢ 0) × Padded m (a + 1) cs n

-- Zeros from `l` to below `n`.
abbrev cut : ℕ → ℕ → (ℕ → ℕ) → ℕ → ℕ
cut l n f j = if leb l j && ltb j n then 0 else f j

trim-cut :
    (n l : ℕ) (f : ℕ → ℕ)
    → l < n
    → f l ≢ b' '
    → ((j : ℕ) → l < j → j < n → f j ≡ b' ')
    → trim n f ≡ some (cut (suc l) n f)
unfolding trim
trim-cut zero l f less last blank = absurd (omega arith)
trim-cut (suc n) l f less last blank = elim (Bool-cases (l == n)) [
  | inl here ↦
      let e : (f n == b' ') ≡ false = ground (arith, here, last) in
      rw e (ap some (fun_ext λ j. ground (arith, here)))
  | inr before ↦
      let e : f n ≡ b' ' = blank n (ground (arith, before)) (omega arith) in
      let g = update f n 0 in
      let go =
        trim-cut n l g (ground (arith, before)) (ground (arith, before))
          (λ j a b. ground (arith, blank j)) in
      rw e (go ∙ ap some (fun_ext λ j. ground (arith, before)))
]

-- The string is the name.
text-Padded :
    (name : List ℕ) (n a i : ℕ) (m : Memory) (g : ℕ → ℕ)
    → Padded m a name n
    → ((j : ℕ) → j < length name → g (i + j) ≡ m (a + j))
    → g (i + length name) ≡ 0
    → text (suc n) g i ≡ name
unfolding text
text-Padded [] n a i m g p same end = let e : g i ≡ 0 = ap g (omega arith) ∙ end in rw e refl
text-Padded (c ∷ cs) zero a i m g p same end = absurd p
text-Padded (c ∷ cs) (suc n) a i m g p same end =
    let here : g i ≡ c = ap g (omega arith) ∙ same 0 (omega arith) ∙ ap m (omega arith) ∙ p.0 in
    let full : (c == 0) ≡ false = ground (arith, p.1) in
    rw (here, full)
      (ap (λ r. c ∷ r)
        (text-Padded cs n (a + 1) (i + 1) m g p.2
          (λ j l. ap g (omega arith) ∙ same (suc j) (omega arith) ∙ ap m (omega arith))
          (ap g (omega arith) ∙ end)))

-- The blanks, and the last character.
blanks-Padded :
    (name : List ℕ) (n a : ℕ) (m : Memory)
    → Padded m a name n
    → (j : ℕ) → length name ≤ j
    → j < n
    → m (a + j) ≡ b' '
blanks-Padded [] n a m p j l h = p j h
blanks-Padded (c ∷ cs) zero a m p j l h = absurd p
blanks-Padded (c ∷ cs) (suc n) a m p zero l h = absurd (omega arith)
blanks-Padded (c ∷ cs) (suc n) a m p (suc j) l h =
    ap m (omega arith) ∙ blanks-Padded cs n (a + 1) m p.2 j (omega arith) (omega arith)

last-Padded :
    (c : ℕ) (cs : List ℕ) (n a : ℕ) (m : Memory)
    → Padded m a (c ∷ cs) n
    → (length cs < n) × (m (a + length cs) ≡ last_or c cs)
last-Padded c cs zero a m p = absurd p
last-Padded c [] (suc n) a m p = (omega arith, ap m (omega arith) ∙ p.0)
last-Padded c (d ∷ ds) (suc n) a m p =
    let (l, e) = last-Padded d ds n (a + 1) m p.2 in (omega arith, ap m (omega arith) ∙ e)

module _ (m : Memory) (entry : ℕ) where
  bus_string_inside : (j : ℕ) → j < 6 → bus_string m entry j ≡ m (entry + 2 + j)
  unfolding bus_string
  bus_string_inside j l = ground arith

  bus_string_end : bus_string m entry 6 ≡ 0
  unfolding bus_string
  bus_string_end = refl

  cut_inside : (l j : ℕ) → l < 6 → j ≤ l → cut (suc l) 6 (bus_string m entry) j ≡ m (entry + 2 + j)
  cut_inside l j small le = ground (arith, bus_string_inside j)

  cut_end : (l : ℕ) → l < 6 → cut (suc l) 6 (bus_string m entry) (suc l) ≡ 0
  cut_end l small = elim (Bool-cases (l == 5)) [
    | inl e ↦
        let at : suc l ≡ 6 = ground (arith, e) in
        ap (cut (suc l) 6 (bus_string m entry)) at ∙ ground (arith, at, bus_string_end)
    | inr ne ↦ ground (arith, ne)
  ]

-- A name that does not end in a blank is what the message has.
pub bus_message-Padded :
    (c : ℕ) (cs : List ℕ) (m : Memory) (entry : ℕ)
    → Padded m (entry + 2) (c ∷ cs) 6
    → last_or c cs ≢ b' '
    → bus_message m entry ≡ some (bus (m (entry + 1)) (c ∷ cs) ∷ [])
unfolding bus_message
bus_message-Padded c cs m entry p ends =
    let (l, last) = last-Padded c cs 6 (entry + 2) m p in
    let f = bus_string m entry in
    let trimmed : trim 6 f ≡ some (cut (suc (length cs)) 6 f) =
      trim-cut 6 (length cs) f l
        (λ e. ends (sym last ∙ sym (bus_string_inside m entry (length cs) l) ∙ e))
        (λ j a b.
          bus_string_inside m entry j b
          ∙ blanks-Padded (c ∷ cs) 6 (entry + 2) m p j (omega arith) b) in
    let g = cut (suc (length cs)) 6 f in
    let name : text 7 g 0 ≡ c ∷ cs =
      text-Padded (c ∷ cs) 6 (entry + 2) 0 m g p
        (λ j a. ap g (omega arith) ∙ cut_inside m entry (length cs) j l (omega arith))
        (ap g (omega arith) ∙ cut_end m entry (length cs) l) in
    rw (trimmed, name) refl
