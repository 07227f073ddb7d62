-- ===== src/Bytes/Writes.antt =====
-- What a write leaves to be read.
use pinion.Bytes.{Memory, little, put, text}
use pinion.Prelude.{
  ℕ, suc, zero, ◌+◌, ◌^◌, ◌%◌, ◌/◌, ◌≡◌, ◌≤◌, ◌<◌, ◌⊎◌, update, arith, refl, inl, update_self,
}

-- Two memories that agree from one address up to another.
abbrev pub Agree : (lo hi : ℕ) → Memory → Memory → Type 0
Agree lo hi m m' = (a : ℕ) → lo ≤ a → a < hi → m' a ≡ m a

pub little-Agree :
    (n a lo hi : ℕ) (m m' : Memory)
    → Agree lo hi m m'
    → lo ≤ a
    → a + n ≤ hi
    → little m' a n ≡ little m a n
unfolding little
little-Agree zero a lo hi m m' same l h = refl
little-Agree (suc n) a lo hi m m' same l h =
    ground (arith, same a l, little-Agree n (a + 1) lo hi m m' same)

pub text-Agree :
    (n a lo hi : ℕ) (m m' : Memory)
    → Agree lo hi m m'
    → lo ≤ a
    → a + n ≤ hi
    → text n m' a ≡ text n m a
unfolding text
text-Agree zero a lo hi m m' same l h = refl
text-Agree (suc n) a lo hi m m' same l h =
    rw (same a l (omega arith), text-Agree n (a + 1) lo hi m m' same (omega arith) (omega arith))
      refl

-- A write changes its bytes only.
pub put_apart : (n a v b : ℕ) (m : Memory) → (b < a) ⊎ (a + n ≤ b) → put n a v m b ≡ m b
unfolding put
put_apart zero a v b m apart = refl
put_apart (suc n) a v b m apart =
    ground (arith, put_apart n (a + 1) (v / 256) b (update m a (v % 256)))

pub little-put : (n a v : ℕ) (m : Memory) → v < 256 ^ n → little (put n a v m) a n ≡ v
unfolding little put
little-put zero a v m small = omega arith
little-put (suc n) a v m small =
    rw
      (
        put_apart n (a + 1) (v / 256) a (update m a (v % 256)) (inl (omega arith)),
        little-put n (a + 1) (v / 256) (update m a (v % 256)) (omega arith),
        update_self m a (v % 256),
      )
      (omega arith)
