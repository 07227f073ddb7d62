-- ===== src/Prelude/Lists.antt =====
-- Lists of addresses, by Boolean membership, and writes to functions on numbers.
use Prim.Native.Nat.{ℕ, suc, ◌+◌, ◌≤◌}
use mathlib.Core.Path.{◌≡◌, refl, ap, ◌∙◌}
use mathlib.Core.Logic.{◌≢◌, ◌⊎◌}
use mathlib.Core.Bool.{Bool, true, false, ◌||◌}
use mathlib.Core.List.{List, [], ◌∷◌, ◌++◌}
use native.Mathlib.Omega.{arith}
use pinion.Prelude.Tests.{◌==◌, if◌then◌else◌}

-- `f` with the value at `p` replaced.
abbrev pub update {ℓ} : {A : Type ℓ} → (ℕ → A) → ℕ → A → ℕ → A
update f p v a = if a == p then v else f a

pub update_self {ℓ} : {A : Type ℓ} (f : ℕ → A) (p : ℕ) (v : A) → update f p v p ≡ v
update_self f p v = ground arith

abbrev pub length {ℓ} : {A : Type ℓ} → List A → ℕ
length [] = 0
length (_ ∷ xs) = suc (length xs)

abbrev pub has : ℕ → List ℕ → Bool
has a [] = false
has a (x ∷ xs) = (a == x) || has a xs

infix 40 ◌∈◌ ◌∉◌
abbrev pub ◌∈◌ : ℕ → List ℕ → Type 0
a ∈ xs = has a xs ≡ true

abbrev pub ◌∉◌ : ℕ → List ℕ → Type 0
a ∉ xs = has a xs ≡ false

abbrev pub Distinct : List ℕ → Type 0
Distinct [] = Unit
Distinct (x ∷ xs) = (x ∉ xs) × Distinct xs

-- The last element, or `d` if there is none.
abbrev pub last_or : ℕ → List ℕ → ℕ
last_or d [] = d
last_or d (x ∷ xs) = last_or x xs

-- The list without the first occurrence of an element.
abbrev pub erase : ℕ → List ℕ → List ℕ
erase a [] = []
erase a (x ∷ xs) = if a == x then xs else x ∷ erase a xs

pub has-append : (a : ℕ) (xs ys : List ℕ) → has a (xs ++ ys) ≡ (has a xs || has a ys)
has-append a [] ys = refl
has-append a (x ∷ xs) ys = ground (arith, has-append a xs ys)

pub Distinct-append_one : (a : ℕ) (xs : List ℕ) → Distinct xs → a ∉ xs → Distinct (xs ++ a ∷ [])
Distinct-append_one a [] d out = (refl, tt)
Distinct-append_one a (x ∷ xs) d out =
    (ground (arith, has-append x xs (a ∷ [])), Distinct-append_one a xs d.1 (ground arith))

pub last_or-append_one : (d a : ℕ) (xs : List ℕ) → last_or d (xs ++ a ∷ []) ≡ a
last_or-append_one d a [] = refl
last_or-append_one d a (x ∷ xs) = last_or-append_one x a xs

pub last_or_mem : (d : ℕ) (xs : List ℕ) → (last_or d xs ≡ d) ⊎ (last_or d xs ∈ xs)
last_or_mem d [] = ground arith
last_or_mem d (x ∷ xs) = ground (arith, last_or_mem x xs)

-- The new last element, where the first one of `y ∷ ys` goes and `d` takes its place.
pub last_or_ne :
    (d y : ℕ) (ys : List ℕ)
    → y ∉ ys
    → (if last_or y ys == y then d else last_or y ys) ≡ last_or d ys
last_or_ne d y [] out = ground arith
last_or_ne d y (z ∷ zs) out = ground (arith, last_or_mem z zs)

pub erase-cons_self : (a : ℕ) (xs : List ℕ) → erase a (a ∷ xs) ≡ xs
erase-cons_self a xs = ground arith

pub erase-cons_ne : (a x : ℕ) (xs : List ℕ) → a ≢ x → erase a (x ∷ xs) ≡ x ∷ erase a xs
erase-cons_ne a x xs ne = ground arith

pub has-erase : (a b : ℕ) (xs : List ℕ) → a ∉ xs → a ∉ erase b xs
has-erase a b [] out = refl
has-erase a b (x ∷ xs) out = ground (arith, has-erase a b xs)

pub has-erase_ne : (a b : ℕ) (xs : List ℕ) → a ≢ b → has a (erase b xs) ≡ has a xs
has-erase_ne a b [] ne = refl
has-erase_ne a b (x ∷ xs) ne = ground (arith, has-erase_ne a b xs)

pub erase_out : (a : ℕ) (xs : List ℕ) → a ∉ xs → erase a xs ≡ xs
erase_out a [] out = refl
erase_out a (x ∷ xs) out = ground (arith, erase_out a xs)

pub has-erase_self : (a : ℕ) (xs : List ℕ) → Distinct xs → a ∉ erase a xs
has-erase_self a [] d = refl
has-erase_self a (x ∷ xs) d = ground (arith, has-erase_self a xs)

pub Distinct-erase : (a : ℕ) (xs : List ℕ) → Distinct xs → Distinct (erase a xs)
Distinct-erase a [] d = tt
Distinct-erase a (x ∷ xs) d = ground (arith, Distinct-erase a xs, has-erase x a xs)

pub length-erase : (a : ℕ) (xs : List ℕ) → a ∈ xs → length xs ≡ length (erase a xs) + 1
length-erase a [] i = cc
length-erase a (x ∷ xs) i = ground (arith, length-erase a xs)

-- A list without repetition is no longer than one that has all its elements.
pub length-Distinct_le :
    (xs ys : List ℕ) → Distinct xs → ((a : ℕ) → a ∈ xs → a ∈ ys) → length xs ≤ length ys
length-Distinct_le [] ys d within = omega arith
length-Distinct_le (x ∷ xs) ys d within =
    let fewer = length-Distinct_le xs (erase x ys) d.1 λ a i.
      has-erase_ne a x ys (λ e. ground (arith, ap (λ b. has b xs) e)) ∙ within a (ground arith) in
    let here = length-erase x ys (within x (ground arith)) in omega arith
