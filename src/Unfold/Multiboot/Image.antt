-- ===== src/Unfold/Multiboot/Image.antt =====
-- Which module is taken for the image of pinion.
use native.Mathlib.Decide.{ℕ_discrete}
use pinion.Unfold.Multiboot.{end_of, base_name, matching, pinion64, is_pinion}
use pinion.Prelude.{
  ℕ, List, [], ◌∷◌, Bool, true, some, suc, zero, ◌+◌, ◌-◌, ◌≡◌, ◌≢◌, ◌≤◌, ◌<◌, ◌⊎◌, ◌==◌, ◌↔◌, ◌∙◌,
  arith, refl, ap, inl, inr, Bool-cases,
}

-- The string has its end at `e`.
pub record EndsAt (string : ℕ → ℕ) (e : ℕ) : Type 0 where
  pub ends : string e ≡ 0
  pub within : (j : ℕ) → j < e → string j ≢ 0

-- The last part of a path up to `e` begins at `s`.
abbrev pub Base : (string : ℕ → ℕ) (e s : ℕ) → Type 0
Base string e s =
    ((s ≡ 0) ⊎ ((0 < s) × (s ≤ e + 1) × (string (s - 1) ≡ b'/')))
    × ((j : ℕ) → s ≤ j → j ≤ e → string j ≢ b'/')

-- The string has these characters from `s` on.
abbrev pub Matches : List ℕ → (string : ℕ → ℕ) → ℕ → Type 0
Matches [] string s = Unit {0}
Matches (c ∷ cs) string s = (string s ≡ c) × Matches cs string (s + 1)

end_of-EndsAt :
    (n j e : ℕ) (string : ℕ → ℕ) → EndsAt string e → j ≤ e → e < j + n → end_of n string j ≡ some e
unfolding end_of
end_of-EndsAt zero j e string at le lt = absurd (omega arith)
end_of-EndsAt (suc n) j e string at le lt =
    let here = at.within j in
    let end = at.ends in
    let rec = end_of-EndsAt n (j + 1) e string at in
    elim (ℕ_discrete j e) [
      | yes same ↦ ground (arith, ap string same ∙ end, same)
      | no other ↦ ground (arith, here, rec)
    ]

base_name-Base : (string : ℕ → ℕ) (j : ℕ) → Base string j (base_name string j)
unfolding base_name
base_name-Base string zero = elim (Bool-cases (string 0 == b'/')) [
  | inl slash ↦
      rw slash (inr (omega arith, omega arith, ground arith), λ i l h. absurd (omega arith))
  | inr other ↦
      rw other (inl refl, λ i l h. (let z : i ≡ 0 = omega arith in ground (arith, ap string z)))
]
base_name-Base string (suc j) = elim (Bool-cases (string (suc j) == b'/')) [
  | inl slash ↦
      rw slash (inr (omega arith, omega arith, ground arith), λ i l h. absurd (omega arith))
  | inr other ↦ rw other (
      let (from, clear) = base_name-Base string j in
      (
        elim from [ inl e ↦ inl e | inr (p, l, c) ↦ inr (p, omega arith, c) ],
        λ i l h. elim (ℕ_discrete i (suc j)) [
          | yes same ↦ ground (arith, ap string same)
          | no ne ↦ clear i l (omega arith)
        ],
      ))
]

size : List ℕ → ℕ
size [] = 0
size (c ∷ cs) = suc (size cs)

NoZero : List ℕ → Type 0
NoZero [] = Unit {0}
NoZero (c ∷ cs) = (c ≢ 0) × NoZero cs

matching-Matches :
    (cs : List ℕ) (string : ℕ → ℕ) (s : ℕ)
    → NoZero cs
    → (matching cs string s ≡ size cs) ↔ Matches cs string s
unfolding matching size NoZero
matching-Matches [] string s nz = (λ e. tt, λ m. refl)
matching-Matches (c ∷ cs) string s (ne, nz) =
    let (to, from) = matching-Matches cs string (s + 1) nz in
    (λ e. (ground arith, to (ground arith)), λ (here, m). ground (arith, from m))

pinion64-NoZero : NoZero pinion64
unfolding NoZero
pinion64-NoZero = (
  omega arith,
  (
    omega arith,
    (omega arith, (omega arith, (omega arith, (omega arith, (omega arith, (omega arith, tt)))))),
  ),
)

matching-pinion64 :
    (string : ℕ → ℕ) (s : ℕ) → (matching pinion64 string s ≡ 8) ↔ Matches pinion64 string s
unfolding size
matching-pinion64 string s = matching-Matches pinion64 string s pinion64-NoZero

-- For a string with its end within the bound, the module is taken for the image of pinion just
-- where the last part of its path, behind the last slash or from the start, begins with
-- pinion64.
pub is_pinion-Matches :
    (n e : ℕ) (string : ℕ → ℕ)
    → EndsAt string e
    → e < n
    → (b : Bool) × (s : ℕ) × (is_pinion n string ≡ some b)
      × Base string e s
      × ((b ≡ true) ↔ Matches pinion64 string s)
unfolding is_pinion
is_pinion-Matches n e string at lt =
    let s = base_name string e in
    let (to, from) = matching-pinion64 string s in
    (
      matching pinion64 string s == 8,
      s,
      rw (is_pinion, end_of-EndsAt n 0 e string at (omega arith) (omega arith)) refl,
      base_name-Base string e,
      (λ b. to (ground arith), λ m. ground (arith, from m)),
    )
