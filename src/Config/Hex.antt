-- ===== src/Config/Hex.antt =====
-- Hexadecimal output is read back by the configuration.
use pinion.Prelude.{
  none, ℕ, ◌<◌, ◌≡◌, ◌^◌, some, ◌/◌, arith, ap, ◌%◌, ◌*◌, ◌+◌, zero, ◌≤◌, List, ◌∙◌, sym,
}
use native.Mathlib.Nat.{div-div-eq-div-mul, div-le_self, pow-suc}
use Prim.Native.Nat.{suc}
use pinion.Config.{
  read, read_as_ptr, ConfigItem, as_ptr_loop, digit, read_as_ptr, ConfigItem, value_or,
}
use pinion.Log
use pinion.Log.{hex_loop, putp}

digit-digit : (d : ℕ) → d < 16 → digit (Log.digit d) ≡ some d
unfolding digit
digit-digit d small = ground arith

as_ptr_loop-hex_loop :
    (n x acc : ℕ) → x < 2 ^ 64 → acc ≡ x / 16 ^ n → as_ptr_loop (hex_loop n x) acc ≡ some x
unfolding as_ptr_loop hex_loop
as_ptr_loop-hex_loop zero x acc small e = ap some (omega arith)
as_ptr_loop-hex_loop (suc n) x acc small e =
    let y = x / 16 ^ n in
    let below : y ≤ x = div-le_self x (16 ^ n) in
    let split : acc ≡ y / 16 =
      e ∙ ap (λ m. x / m) (pow-suc 16 n) ∙ sym (div-div-eq-div-mul x (16 ^ n) 16) in
    rw (as_ptr_loop, hex_loop, digit-digit (y % 16) (omega arith))
      (as_ptr_loop-hex_loop n x (acc * 16 % 2 ^ 64 + y % 16) small (omega arith))

-- Where the value of a configuration property is an address as logputp prints it,
-- config_read_as_ptr gives this address.
pub read_as_ptr-putp :
    (items : List ConfigItem) (section property : List ℕ) (p sentinel : ℕ)
    → p < 2 ^ 64
    → read items section property ≡ some (putp p)
    → read_as_ptr items section property sentinel ≡ p
unfolding read_as_ptr value_or putp
read_as_ptr-putp items section property p sentinel small e =
    ap (λ o. value_or sentinel (elim o [ none ↦ none | some value ↦ as_ptr_loop value 0 ])) e
    ∙ ap (value_or sentinel) (as_ptr_loop-hex_loop 16 p 0 small (omega arith))
