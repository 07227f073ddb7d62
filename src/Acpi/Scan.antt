-- ===== src/Acpi/Scan.antt =====
-- What the search finds.
use native.Mathlib.Decide.{ℕ_discrete}
use pinion.Prelude.{
  ℕ, Option, ◌<◌, ◌*◌, ◌≡◌, some, ◌+◌, false, true, arith, none, zero, Bool-cases, inl, inr, subst,
  refl, sym, ◌%◌,
}
use pinion.Acpi.{is_rdsp, scan, init_acpi, suc}
use pinion.Bytes.{Memory}

-- No even address between the two has a table.
abbrev pub NoneAbove : Memory → (a b : ℕ) → Type 0
NoneAbove m a b = (i : ℕ) → a < 2 * i → 2 * i < b → is_rdsp m (2 * i) ≡ false

-- What a search of the even addresses below an address may give.
abbrev pub Searched : Memory → ℕ → Option ℕ → Type 0
Searched m b none = NoneAbove m 0 b
Searched m b (some a) = (is_rdsp m a ≡ true) × (a % 2 ≡ 0) × (0 < a) × (a < b) × NoneAbove m a b

NoneAbove-up :
    (n a : ℕ) (m : Memory)
    → is_rdsp m (2 * suc n) ≡ false
    → NoneAbove m a (2 * n + 2)
    → NoneAbove m a (2 * suc n + 2)
NoneAbove-up n a m here above i l h = elim (ℕ_discrete i (suc n)) [
  | yes e ↦ rw e here
  | no ne ↦ above i l (omega arith)
]

Searched-up :
    (n : ℕ) (m : Memory) (o : Option ℕ)
    → is_rdsp m (2 * suc n) ≡ false
    → Searched m (2 * n + 2) o
    → Searched m (2 * suc n + 2) o
Searched-up n m none here above = NoneAbove-up n 0 m here above
Searched-up n m (some a) here (is, even, pos, below, above) =
    (is, even, pos, omega arith, NoneAbove-up n a m here above)

scan_here : (n : ℕ) (m : Memory) → is_rdsp m (2 * suc n) ≡ true → scan (suc n) m ≡ some (2 * suc n)
unfolding scan
scan_here n m e = rw (scan, e) refl

scan_below : (n : ℕ) (m : Memory) → is_rdsp m (2 * suc n) ≡ false → scan (suc n) m ≡ scan n m
unfolding scan
scan_below n m e = rw (scan, e) refl

scan-Searched : (n : ℕ) (m : Memory) → Searched m (2 * n + 2) (scan n m)
unfolding scan
scan-Searched zero m = λ i a b. absurd (omega arith)
scan-Searched (suc n) m = elim (Bool-cases (is_rdsp m (2 * suc n))) [
  | inl found ↦
      subst (Searched m (2 * suc n + 2)) (sym (scan_here n m found))
        (found, omega arith, omega arith, omega arith, λ i a b. absurd (omega arith))
  | inr other ↦
      subst (Searched m (2 * suc n + 2)) (sym (scan_below n m other))
        (Searched-up n m (scan n m) other (scan-Searched n m))
]

-- The search for the ACPI table gives the highest even address below 1 MiB and above 0 that has
-- the signature and the checksum, and none just where no such address has them.
pub init_acpi-Searched : (m : Memory) → Searched m 0x10_0000 (init_acpi m)
unfolding init_acpi
init_acpi-Searched m = scan-Searched 0x7_FFFF m
