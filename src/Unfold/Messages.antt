-- ===== src/Unfold/Messages.antt =====
-- The log of the boot loader (src/unfold/log.c): a copy of that of pinion, before it had `%p`.
pub mod Same
use mathlib.Core.List.{reverse}
use pinion.Log.{Arg, fill, digit, hex_loop, next_string, next_number, debug, error}
use pinion.Options.{◌>>=◌}
use pinion.Prelude.{
  ℕ, List, [], ◌∷◌, ◌++◌, Option, some, none, if◌then◌else◌, ltb, ◌==◌, ◌%◌, ◌^◌, ◌-◌,
}

pub puts : Option (List ℕ) → List ℕ
puts none = b'(' ∷ b'n' ∷ b'u' ∷ b'l' ∷ b'l' ∷ b')' ∷ []
puts (some str) = str

pub putx : ℕ → List ℕ
putx x = hex_loop 8 x

-- `logputd` of an `int` of 32 bits. The least one has no negation.
pub putd : ℕ → Option (List ℕ)
putd n =
    if n == 0
    then some (b'0' ∷ [])
    else if ltb n (2 ^ 31)
    then some (reverse (fill 10 n))
    else if n == 2 ^ 31
    then none
    else some (b'-' ∷ reverse (fill 10 (2 ^ 32 - n)))

-- The character behind `%`: what is put, and the arguments that are left.
pub directive : ℕ → List Arg → Option (List ℕ × List Arg)
directive c args =
    if c == b's'
    then (do (str, args) ← next_string args; some (puts str, args))
    else if c == b'c'
    then (do (n, args) ← next_number args; some (n % 2 ^ 8 ∷ [], args))
    else if c == b'd'
    then (do (n, args) ← next_number args; text ← putd (n % 2 ^ 32); some (text, args))
    else if c == b'x'
    then (do (n, args) ← next_number args; some (putx (n % 2 ^ 32), args))
    else if c == b'%'
    then some (b'%' ∷ [], args)
    else some ([], args)

-- The loop over the format. A `%` at the end is put.
pub format : List ℕ → List Arg → Option (List ℕ)
format [] args = some []
format (c ∷ []) args = some (c ∷ [])
format (c ∷ d ∷ fmt) args =
    if c == b'%'
    then (do (out, left) ← directive d args; rest ← format fmt left; some (out ++ rest))
    else (do rest ← format (d ∷ fmt) args; some (c ∷ rest))

pub prefix : ℕ → List ℕ
prefix level =
    if level == debug
    then b'[' ∷ b'd' ∷ b'e' ∷ b'b' ∷ b'u' ∷ b'g' ∷ b']' ∷ b' ' ∷ []
    else if level == error
    then b'[' ∷ b'e' ∷ b'r' ∷ b'r' ∷ b'o' ∷ b'r' ∷ b']' ∷ b' ' ∷ []
    else []

-- `log`; the levels INFO and INIT are below DEBUG.
pub log : (level : ℕ) → List ℕ → List Arg → Option (List ℕ)
log level fmt args =
    if ltb level debug
    then some []
    else (do text ← format fmt args; some (prefix level ++ text ++ 10 ∷ []))
