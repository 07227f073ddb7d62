-- ===== src/Load/Copy/Filled.antt =====
-- What the byte loops leave.
use pinion.Prelude.{
  ℕ, ◌<◌, ◌+◌, suc, ◌≡◌, ◌^◌, true, arith, ◌⊎◌, ◌≢◌, ◌%◌, ap, ◌≤◌, ◌∙◌, update, inl, zero, refl,
  subst,
}
use pinion.Bytes.{Memory}
use pinion.Load.Copy.{mapped, memcpy, memclr}
use pinion.Machine.{Kernel, ok}

-- The bytes of a range are mapped.
abbrev pub AllMapped : Kernel → (a size : ℕ) → Type 0
AllMapped k a size = (i : ℕ) → i < size → mapped k (a + i) ≡ true

next_all :
    (k : Kernel) (a size : ℕ)
    → a + suc size < 2 ^ 64
    → AllMapped k a (suc size)
    → AllMapped k ((a + 1) % 2 ^ 64) size
next_all k a size fits all i small =
    let at : (a + 1) % 2 ^ 64 + i ≡ a + suc i = omega arith in
    ap (mapped k) at ∙ all (suc i) (omega arith)

-- The bytes of a range are now these, and no other has been written.
pub record Filled (size d : ℕ) (f : ℕ → ℕ) (m m' : Memory) : Type 0 where
  pub inside : (i : ℕ) → i < size → m' (d + i) ≡ f i
  pub outside : (b : ℕ) → (b < d) ⊎ (d + size ≤ b) → m' b ≡ m b

Filled-zero : (d : ℕ) (f : ℕ → ℕ) (m : Memory) → Filled 0 d f m m
Filled-zero d f m = record { inside = λ i small. absurd (omega arith); outside = λ b out. refl }

-- A byte, and the rest of the range.
Filled-suc :
    (size d : ℕ) (f : ℕ → ℕ) (m m' : Memory)
    → d + suc size < 2 ^ 64
    → Filled size ((d + 1) % 2 ^ 64) (λ i. f (suc i)) (update m d (f 0)) m'
    → Filled (suc size) d f m m'
Filled-suc size d f m m' fits rest =
    let next : (d + 1) % 2 ^ 64 ≡ d + 1 = omega arith in
    let at_d : update m d (f 0) d ≡ f 0 = ground arith in
    let first : m' d ≡ f 0 = rest.outside d (inl (omega arith)) ∙ at_d in
    record {
      inside = λ i small. Filled-inside i small next first rest.inside;
      outside = λ b out.
          let apart : update m d (f 0) b ≡ m b = ground (arith, out) in
          rest.outside b (ground (arith, next, out)) ∙ apart;
    }
  where
    Filled-inside :
        (i : ℕ)
        → i < suc size
        → (d + 1) % 2 ^ 64 ≡ d + 1
        → m' d ≡ f 0
        → ((i : ℕ) → i < size → m' ((d + 1) % 2 ^ 64 + i) ≡ f (suc i))
        → m' (d + i) ≡ f i
    Filled-inside zero small next first later = ap m' (omega arith) ∙ first
    Filled-inside (suc i) small next first later = ap m' (omega arith) ∙ later i (omega arith)

Filled-same :
    (size d : ℕ) (f g : ℕ → ℕ) (m m' : Memory)
    → ((i : ℕ) → i < size → f i ≡ g i)
    → Filled size d f m m'
    → Filled size d g m m'
Filled-same size d f g m m' same filled = record {
  inside = λ i small. filled.inside i small ∙ same i small;
  outside = filled.outside;
}

pub memcpy-Filled :
    (size d s : ℕ) (m : Memory) (k : Kernel)
    → d + size < 2 ^ 64
    → s + size < 2 ^ 64
    → AllMapped k d size
    → AllMapped k s size
    → ((i j : ℕ) → i < size → j < size → s + i ≢ d + j)
    → (m' : Memory) × (memcpy size d s m k ≡ ok m' k) × Filled size d (λ i. m (s + i)) m m'
unfolding memcpy
memcpy-Filled zero d s m k fits fits' to from apart = (m, refl, Filled-zero d (λ i. m (s + i)) m)
memcpy-Filled (suc size) d s m k fits fits' to from apart =
    let first : mapped k s ≡ true = ap (mapped k) (omega arith) ∙ from 0 (omega arith) in
    let second : mapped k d ≡ true = ap (mapped k) (omega arith) ∙ to 0 (omega arith) in
    let s' = (s + 1) % 2 ^ 64 in
    let (m', ran, filled) =
      memcpy-Filled size ((d + 1) % 2 ^ 64) s' (update m d (m s)) k (omega arith) (omega arith)
        (next_all k d size fits to) (next_all k s size fits' from)
        (λ i j small small' e. apart (suc i) (suc j) (omega arith) (omega arith) (omega arith)) in
    let same : (i : ℕ) → i < size → update m d (m s) (s' + i) ≡ m (s + suc i) = λ i small.
      let at : s' + i ≡ s + suc i = omega arith in
      let ne : s + suc i ≢ d = λ e. apart (suc i) 0 (omega arith) (omega arith) (omega arith) in
      ap (update m d (m s)) at ∙ ground (arith, ne) in
    let start : update m d (m s) ≡ update m d (m (s + 0)) =
      ap (λ a. update m d (m a)) (omega arith) in
    (
      m',
      rw (first, second) ran,
      Filled-suc size d (λ i. m (s + i)) m m' fits
          (subst (λ m1. Filled size ((d + 1) % 2 ^ 64) (λ i. m (s + suc i)) m1 m') start
            (Filled-same size ((d + 1) % 2 ^ 64) (λ i. update m d (m s) (s' + i))
              (λ i. m (s + suc i)) (update m d (m s)) m' same filled)),
    )

pub memclr-Filled :
    (size d : ℕ) (m : Memory) (k : Kernel)
    → d + size < 2 ^ 64
    → AllMapped k d size
    → (m' : Memory) × (memclr size d m k ≡ ok m' k) × Filled size d (λ i. 0) m m'
unfolding memclr
memclr-Filled zero d m k fits to = (m, refl, Filled-zero d (λ i. 0) m)
memclr-Filled (suc size) d m k fits to =
    let first : mapped k d ≡ true = ap (mapped k) (omega arith) ∙ to 0 (omega arith) in
    let (m', ran, filled) =
      memclr-Filled size ((d + 1) % 2 ^ 64) (update m d 0) k (omega arith)
        (next_all k d size fits to) in
    (m', rw first ran, Filled-suc size d (λ i. 0) m m' fits filled)
