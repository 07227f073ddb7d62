-- ===== src/MpTable/Find.antt =====
-- What the search for the table finds.
use pinion.Bytes.{Memory}
use pinion.MpTable.{is_mptable, find_loop, find_mptable}
use pinion.Paging.{virtual_base}
use pinion.Prelude.{ℕ, zero, suc, ◌≡◌, ◌<◌, ◌+◌, ◌*◌, ◌∙◌, false, true, arith, ap}

-- The address is the first with a table, of those in steps of 16 behind `base`.
pub record First (m : Memory) (base i : ℕ) : Type 0 where
  pub here : is_mptable m (base + 16 * i) ≡ true
  pub before : (j : ℕ) → j < i → is_mptable m (base + 16 * j) ≡ false

find_loop-First :
    (n i base : ℕ) (m : Memory) → i < n → First m base i → find_loop n m base ≡ base + 16 * i
unfolding find_loop
find_loop-First zero i base m l f = absurd (omega arith)
find_loop-First (suc n) zero base m l f =
    let here : is_mptable m base ≡ true = ap (is_mptable m) (omega arith) ∙ f.here in
    rw (find_loop, here) (omega arith)
find_loop-First (suc n) (suc i) base m l f =
    let here : is_mptable m base ≡ false =
      ap (is_mptable m) (omega arith) ∙ f.before 0 (omega arith) in
    let rest : First m (base + 16) i = record {
      here = ap (is_mptable m) (omega arith) ∙ f.here;
      before = λ j l. ap (is_mptable m) (omega arith) ∙ f.before (suc j) (omega arith);
    } in
    rw (find_loop, here) (find_loop-First n i (base + 16) m (omega arith) rest ∙ omega arith)

pub find_mptable-First :
    (i : ℕ) (m : Memory)
    → i < 0xE_FFFF
    → First m (virtual_base + 16) i
    → find_mptable m ≡ virtual_base + 16 + 16 * i
unfolding find_mptable
find_mptable-First i m l f = find_loop-First 0xE_FFFF i (virtual_base + 16) m l f
