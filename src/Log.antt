-- ===== src/Log.antt =====
-- The log and its formatting (src/pinion64/log.c; Unfold.Messages is its copy). The result is the
-- characters that are put, in order.
pub mod Decimal
pub mod Format
pub mod Serial
use pinion.Options.{◌>>=◌}
use mathlib.Core.List.{reverse}
use pinion.Prelude.{
  ℕ, List, if◌then◌else◌, ltb, [], ◌==◌, ◌+◌, suc, ◌∷◌, ◌-◌, ◌/◌, ◌^◌, ◌%◌, zero, Option, some,
  none, ◌++◌,
}

-- `digit[d]`, for the string "0123456789ABCDEF".
abbrev pub digit : ℕ → ℕ
digit d = if ltb d 10 then b'0' + d else b'A' + (d - 10)

-- The rounds of `logputx` and `logputp` with `n` digits left: the shift is by `4 * (n - 1)` bits.
unfoldable pub hex_loop : ℕ → ℕ → List ℕ
hex_loop zero x = []
hex_loop (suc n) x = digit (x / 16 ^ n % 16) ∷ hex_loop n x

unfoldable pub putx : ℕ → List ℕ
putx x = hex_loop 8 x

unfoldable pub putp : ℕ → List ℕ
putp p = hex_loop 16 p

-- The digits that `logputd` puts in its buffer, the last one first, in at most `n` rounds.
pub fill : ℕ → ℕ → List ℕ
fill zero x = []
fill (suc n) x = let rest = fill n (x / 10) in if x == 0 then [] else digit (x % 10) ∷ rest

-- `logputd` of a number that is not negative.
unfoldable pub putd : ℕ → List ℕ
putd x = if x == 0 then b'0' ∷ [] else reverse (fill 10 x)

-- `logputd` of an `int` of 32 bits. The least one has no negation.
unfoldable pub puti : ℕ → Option (List ℕ)
puti n =
    if ltb n (2 ^ 31)
    then some (putd n)
    else if n == 2 ^ 31
    then none
    else some (b'-' ∷ putd (2 ^ 32 - n))

-- An argument of `log`: a string or `NULL`, or a number.
pub data Arg : Type 0 where
  string : Option (List ℕ) → Arg
  number : ℕ → Arg

unfoldable pub puts : Option (List ℕ) → List ℕ
puts none = b'(' ∷ b'n' ∷ b'u' ∷ b'l' ∷ b'l' ∷ b')' ∷ []
puts (some str) = str

-- `va_arg`; an argument that is missing or of another type has no result.
pub next_string : List Arg → Option (Option (List ℕ) × List Arg)
next_string [] = none
next_string (string str ∷ args) = some (str, args)
next_string (number n ∷ args) = none

pub next_number : List Arg → Option (ℕ × List Arg)
next_number [] = none
next_number (string str ∷ args) = none
next_number (number n ∷ args) = some (n, args)

-- The character behind `%`: what is put, and the arguments that are left.
unfoldable pub directive : ℕ → List Arg → Option (List ℕ × List Arg)
directive c args =
    if c == b's'
    then (do (str, args) ← next_string args; some (puts str, args))
    else if c == b'c'
    then (do (n, args) ← next_number args; some (n % 2 ^ 8 ∷ [], args))
    else if c == b'd'
    then (do (n, args) ← next_number args; text ← puti (n % 2 ^ 32); some (text, args))
    else if c == b'x'
    then (do (n, args) ← next_number args; some (putx (n % 2 ^ 32), args))
    else if c == b'p'
    then (do (n, args) ← next_number args; some (putp (n % 2 ^ 64), args))
    else if c == b'%'
    then some (b'%' ∷ [], args)
    else some ([], args)

-- The loop over the format. A `%` at the end is put.
unfoldable pub format : List ℕ → List Arg → Option (List ℕ)
format [] args = some []
format (c ∷ []) args = some (c ∷ [])
format (c ∷ d ∷ fmt) args =
    if c == b'%'
    then (do (out, left) ← directive d args; rest ← format fmt left; some (out ++ rest))
    else (do rest ← format (d ∷ fmt) args; some (c ∷ rest))

abbrev pub debug : ℕ
debug = 2

abbrev pub error : ℕ
error = 3

-- What stands before a message.
unfoldable pub prefix : ℕ → List ℕ
prefix level =
    if level == debug
    then b'[' ∷ b'd' ∷ b'e' ∷ b'b' ∷ b'u' ∷ b'g' ∷ b']' ∷ b' ' ∷ []
    else if level == error
    then b'[' ∷ b'e' ∷ b'r' ∷ b'r' ∷ b'o' ∷ b'r' ∷ b']' ∷ b' ' ∷ []
    else []

-- `log`; the levels INFO and INIT are below DEBUG.
unfoldable pub log : (level : ℕ) → List ℕ → List Arg → Option (List ℕ)
log level fmt args =
    if ltb level debug
    then some []
    else (do text ← format fmt args; some (prefix level ++ text ++ 10 ∷ []))
