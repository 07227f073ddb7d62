-- ===== src/Api/Interrupt.antt =====
-- src/pinion64/api/interrupt*.c. An interrupt ID is 32 bits wide, a tap 16; the two highest bits of
-- a tap are flags, bit 15 that its interrupt has fired.
pub mod Wait
pub mod Tapped
use pinion.Interrupts.{find_index, remove_route, add_route}
use pinion.Machine.{Cmd, ◌>>=◌, get, load, pure, ◌>>◌, modify, waiting, Ptr, Tcb}
use pinion.Interrupts
use pinion.Prelude.{
  ℕ, Option, Bool, none, if◌then◌else◌, suc, leb, test_bit, some, false, ◌+◌, update, ◌||◌, zero,
  not, clear_bit, low_bits, ◌==◌, true,
}

pub get_tap : ℕ → Cmd ℕ
get_tap index = do
  k ← get
  if leb 4 index then pure 0 else do t ← load k.active_tcb; pure (t.tap index)

pub set_tap : ℕ → ℕ → Cmd Bool
set_tap index vec =
    if leb 4 index
    then pure false
    else if test_bit vec 14 || test_bit vec 15
    then pure false
    else do
      k ← get
      let tcb = k.active_tcb
      t ← load tcb
      if not (low_bits (t.tap index) 14 == 0) then remove_route tcb (t.tap index) else pure tt
      modify tcb (λ t. record t { tap = update t.tap index (low_bits vec 16) })
      t ← load tcb
      add_route tcb (t.tap index)
      t ← load tcb
      Interrupts.reset (t.tap index)
      pure true

pub reset : ℕ → Cmd (Unit {0})
reset vec = do
  k ← get
  let tcb = k.active_tcb
  t ← load tcb
  elim (find_index t.tap 4 vec 0) [
    | none ↦ pure tt
    | some i ↦ (do
      modify tcb (λ t. record t { tap = update t.tap i (clear_bit (t.tap i) 15) })
      Interrupts.reset vec)
  ]

-- The first of the `n` tap indices from `i` whose interrupt has fired.
find_fired : (ℕ → ℕ) → ℕ → ℕ → Option ℕ
find_fired tap zero i = none
find_fired tap (suc n) i = if test_bit (tap i) 15 then some i else find_fired tap n (i + 1)

-- The end of `interrupt_wait`, with the tap that has fired.
waited : Ptr → Tcb → Option ℕ → Cmd ℕ
waited tcb t none = do modify tcb (λ t. record t { state = waiting }); pure 0
waited tcb t (some i) = pure (clear_bit (t.tap i) 15)

-- 0 if the thread has to wait: the vector then comes in its register.
pub wait : Cmd ℕ
wait = do k ← get; t ← load k.active_tcb; waited k.active_tcb t (find_fired t.tap 4 0)
