-- ===== src/Bytes.antt =====
-- Memory by bytes, for the code that reads what others have put there.
pub mod Writes
use pinion.Prelude.{ℕ, List, suc, ◌+◌, ◌*◌, zero, update, ◌/◌, ◌%◌, ◌==◌, if◌then◌else◌, ◌∷◌, []}

abbrev pub Memory : Type 0
Memory = ℕ → ℕ

-- The number in the `n` bytes from an address on, the lowest byte first.
unfoldable pub little : Memory → ℕ → ℕ → ℕ
little m a zero = 0
little m a (suc n) = m a + 256 * little m (a + 1) n

-- The write of a number to `n` bytes.
pub put : ℕ → (a v : ℕ) → Memory → Memory
put zero a v m = m
put (suc n) a v m = put n (a + 1) (v / 256) (update m a (v % 256))

-- The characters of a string, at most `n`.
unfoldable pub text : ℕ → Memory → ℕ → List ℕ
text zero m a = []
text (suc n) m a = let rest = text n m (a + 1) in if m a == 0 then [] else m a ∷ rest
