-- ===== src/Log/Format.antt =====
-- What a message puts.
use pinion.Options.{◌>>=◌}
use pinion.Log.{
  puti, putd, putx, putp, puts, Arg, string, number, format, directive, next_string, next_number,
}
use pinion.Log.Decimal.{Numeral, putd-Numeral}
use mathlib.Core.List.{reverse}
use pinion.Prelude.{
  ℕ, List, [], ◌∷◌, ◌++◌, Option, some, ◌≡◌, ◌≢◌, ◌<◌, ◌-◌, ◌^◌, arith, refl, ap, ne→==,
}

-- logputd of an int puts the decimal digits of its amount, without a leading 0 unless the int is
-- 0, for a negative one other than the least behind a minus sign.
pub value-puti :
    (n : ℕ)
    → (n < 2 ^ 31 → (t : List ℕ) × (puti n ≡ some t) × Numeral n (reverse t))
      × (2 ^ 31 < n
          → n < 2 ^ 32
          → (t : List ℕ) × (puti n ≡ some (b'-' ∷ t)) × Numeral (2 ^ 32 - n) (reverse t))
unfolding puti
value-puti n = (
  λ small. (putd n, ground arith, putd-Numeral n small),
  λ big small. (putd (2 ^ 32 - n), ground arith, putd-Numeral (2 ^ 32 - n) (omega arith)),
)

-- The parts of a message, with their arguments.
pub data Piece : Type 0 where
  plain : ℕ → Piece
  percent : Piece
  text : Option (List ℕ) → Piece
  character : ℕ → Piece
  decimal : ℕ → Piece
  hexadecimal : ℕ → Piece
  pointer : ℕ → Piece

-- The arguments have their type, and `%` is written as `%%`.
abbrev pub Fits : Piece → Type 0
Fits (plain c) = c ≢ b'%'
Fits percent = Unit {0}
Fits (text s) = Unit {0}
Fits (character c) = c < 2 ^ 8
Fits (decimal n) = n < 2 ^ 31
Fits (hexadecimal n) = n < 2 ^ 32
Fits (pointer p) = p < 2 ^ 64

abbrev pub AllFit : List Piece → Type 0
AllFit [] = Unit {0}
AllFit (p ∷ ps) = Fits p × AllFit ps

-- The format, the arguments and the output of a part.
abbrev pub source : Piece → List ℕ
source (plain c) = c ∷ []
source percent = b'%' ∷ b'%' ∷ []
source (text s) = b'%' ∷ b's' ∷ []
source (character c) = b'%' ∷ b'c' ∷ []
source (decimal n) = b'%' ∷ b'd' ∷ []
source (hexadecimal n) = b'%' ∷ b'x' ∷ []
source (pointer p) = b'%' ∷ b'p' ∷ []

abbrev pub argument : Piece → List Arg
argument (plain c) = []
argument percent = []
argument (text s) = string s ∷ []
argument (character c) = number c ∷ []
argument (decimal n) = number n ∷ []
argument (hexadecimal n) = number n ∷ []
argument (pointer p) = number p ∷ []

abbrev pub output : Piece → List ℕ
output (plain c) = c ∷ []
output percent = b'%' ∷ []
output (text s) = puts s
output (character c) = c ∷ []
output (decimal n) = putd n
output (hexadecimal n) = putx n
output (pointer p) = putp p

abbrev pub sources : List Piece → List ℕ
sources [] = []
sources (p ∷ ps) = source p ++ sources ps

abbrev pub arguments : List Piece → List Arg
arguments [] = []
arguments (p ∷ ps) = argument p ++ arguments ps

abbrev pub outputs : List Piece → List ℕ
outputs [] = []
outputs (p ∷ ps) = output p ++ outputs ps

format-plain :
    (c : ℕ) (fmt : List ℕ) (args : List Arg) (out : List ℕ)
    → c ≢ b'%'
    → format fmt args ≡ some out
    → format (c ∷ fmt) args ≡ some (c ∷ out)
unfolding format
format-plain c [] args out ne e = ap (λ o. o >>= λ rest. some (c ∷ rest)) e
format-plain c (d ∷ fmt) args out ne e =
    rw (ne→== c b'%' ne) (ap (λ o. o >>= λ rest. some (c ∷ rest)) e)

format-directive :
    (d : ℕ) (fmt : List ℕ) (args left : List Arg) (here out : List ℕ)
    → directive d args ≡ some (here, left)
    → format fmt left ≡ some out
    → format (b'%' ∷ d ∷ fmt) args ≡ some (here ++ out)
unfolding format
format-directive d fmt args left here out e f = rw (e, f) refl

-- For a message of plain characters, %%, and strings, characters and numbers of their sizes (an
-- int below 2^31) under %s, %c, %d, %x and %p, the loop of log puts the text of each piece in
-- order, each directive with its own argument.
pub format-pieces :
    (ps : List Piece) → AllFit ps → format (sources ps) (arguments ps) ≡ some (outputs ps)
unfolding format directive next_string next_number puti
format-pieces [] fits = refl
format-pieces (plain c ∷ ps) (ne, fits) =
    format-plain c (sources ps) (arguments ps) (outputs ps) ne (format-pieces ps fits)
format-pieces (percent ∷ ps) (fit, fits) =
    format-directive b'%' (sources ps) (arguments ps) (arguments ps) (b'%' ∷ []) (outputs ps) refl
      (format-pieces ps fits)
format-pieces (text s ∷ ps) (fit, fits) =
    format-directive b's' (sources ps) (string s ∷ arguments ps) (arguments ps) (puts s)
      (outputs ps) refl (format-pieces ps fits)
format-pieces (character c ∷ ps) (fit, fits) =
    format-directive b'c' (sources ps) (number c ∷ arguments ps) (arguments ps) (c ∷ [])
      (outputs ps) (ground arith) (format-pieces ps fits)
format-pieces (decimal n ∷ ps) (fit, fits) =
    format-directive b'd' (sources ps) (number n ∷ arguments ps) (arguments ps) (putd n)
      (outputs ps) (ground arith) (format-pieces ps fits)
format-pieces (hexadecimal n ∷ ps) (fit, fits) =
    format-directive b'x' (sources ps) (number n ∷ arguments ps) (arguments ps) (putx n)
      (outputs ps) (ground arith) (format-pieces ps fits)
format-pieces (pointer p ∷ ps) (fit, fits) =
    format-directive b'p' (sources ps) (number p ∷ arguments ps) (arguments ps) (putp p)
      (outputs ps) (ground arith) (format-pieces ps fits)
