-- ===== src/Resolve/Names.antt =====
-- Which symbols resolve.
use mathlib.Core.List.{append-nil}
use pinion.Config.Lookup.{strcmp-OnePrefix}
use pinion.Config.{strcmp}
use pinion.Prelude.{
  List, ℕ, ◌∷◌, ◌≡◌, suc, [], ◌+◌, zero, ◌%◌, ◌^◌, ap, ◌∙◌, arith, Bool, true, sym, ◌&&◌, ◌==◌,
  refl, inl,
}
use pinion.Resolve.{symbol_of, resolve_from, calls, resolve}

-- `name` is one of `names`, at the place `i`.
abbrev pub At : List (List ℕ) → ℕ → List ℕ → Type 0
At [] i name = ⊥
At (n ∷ names) zero name = n ≡ name
At (n ∷ names) (suc i) name = At names i name

-- A symbol is unlike the names before place `i`.
abbrev Unlike : List (List ℕ) → ℕ → List ℕ → Type 0
Unlike [] i symbol = Unit {0}
Unlike (n ∷ names) zero symbol = Unit {0}
Unlike (n ∷ names) (suc i) symbol = (strcmp symbol (symbol_of n) ≡ 1) × Unlike names i symbol

resolve_from-At :
    (entry : ℕ → ℕ) (load_addr : ℕ) (names : List (List ℕ)) (i j : ℕ) (name : List ℕ)
    → At names i name
    → Unlike names i (symbol_of name)
    → strcmp (symbol_of name) (symbol_of name) ≡ 0
    → resolve_from entry load_addr names j (symbol_of name) ≡ (load_addr + entry (j + i)) % 2 ^ 64
unfolding resolve_from
resolve_from-At entry load_addr [] i j name at un self = absurd at
resolve_from-At entry load_addr (n ∷ names) zero j name at un self =
    let same = ap (λ n. strcmp (symbol_of name) (symbol_of n)) at ∙ self in
    rw same (ap (λ m. (load_addr + entry m) % 2 ^ 64) (omega arith))
resolve_from-At entry load_addr (n ∷ names) (suc i) j name at (no1, un) self = rw no1 (
    resolve_from-At entry load_addr names i (j + 1) name at un self
    ∙ ap (λ m. (load_addr + entry m) % 2 ^ 64) (omega arith))

-- The symbol of `n` is unlike those of all `names`.
apart : List ℕ → List (List ℕ) → Bool
apart n [] = true
apart n (m ∷ names) = strcmp (symbol_of m) (symbol_of n) == 1 && apart n names

separate : List (List ℕ) → Bool
separate [] = true
separate (n ∷ names) = apart n names && separate names

apart-At :
    (n : List ℕ) (names : List (List ℕ)) (i : ℕ) (name : List ℕ)
    → apart n names ≡ true
    → At names i name
    → strcmp (symbol_of name) (symbol_of n) ≡ 1
unfolding apart
apart-At n [] i name a at = absurd at
apart-At n (m ∷ names) zero name a at =
    ap (λ m. strcmp (symbol_of m) (symbol_of n)) (sym at) ∙ ground arith
apart-At n (m ∷ names) (suc i) name a at = apart-At n names i name (ground arith) at

separate-Unlike :
    (names : List (List ℕ)) (i : ℕ) (name : List ℕ)
    → separate names ≡ true
    → At names i name
    → Unlike names i (symbol_of name)
unfolding separate
separate-Unlike [] i name s at = tt
separate-Unlike (n ∷ names) zero name s at = tt
separate-Unlike (n ∷ names) (suc i) name s at =
    (apart-At n names i name (ground arith) at, separate-Unlike names i name (ground arith) at)

calls-separate : separate calls ≡ true
unfolding separate apart strcmp
calls-separate = refl

-- The symbol of each of the 18 API calls resolves to the entry code of this call, relative to
-- the address where pinion is loaded, modulo 2^64.
pub resolve-At :
    (entry : ℕ → ℕ) (load_addr i : ℕ) (name : List ℕ)
    → At calls i name
    → resolve entry load_addr (symbol_of name) ≡ (load_addr + entry i) % 2 ^ 64
unfolding resolve
resolve-At entry load_addr i name at =
    let self =
      (strcmp-OnePrefix (symbol_of name) (symbol_of name)).1
        ([], inl (append-nil (symbol_of name))) in
    resolve_from-At entry load_addr calls i 0 name at
      (separate-Unlike calls i name calls-separate at) self
    ∙ ap (λ m. (load_addr + entry m) % 2 ^ 64) (omega arith)
