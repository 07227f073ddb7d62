-- ===== src/Unfold/Messages/Same.antt =====
-- Both logs put the same, where no address is put.
use mathlib.Core.Path.{fun_ext}
use pinion.Log.{Arg, puti, next_string, next_number}
use pinion.Log
use pinion.Options.{◌>>=◌}
use pinion.Prelude.{
  ℕ, List, [], ◌∷◌, ◌++◌, Option, some, none, ◌≡◌, ◌≢◌, Bool-cases, inl, inr, if◌then◌else◌, ltb,
  ◌==◌, ◌%◌, ◌^◌, ◌-◌, arith, refl, ap, ne→==, Bool, ◌<◌, false, ◌∙◌, true,
}
use pinion.Unfold.Messages.{puts, putx, putd, directive, format, prefix, log}

puts_same : (str : Option (List ℕ)) → Log.puts str ≡ puts str
unfolding puts Log.puts
puts_same none = refl
puts_same (some str) = refl

putd_same : (n : ℕ) → n < 2 ^ 32 → puti n ≡ putd n
unfolding putd puti Log.putd
putd_same n fits = elim (Bool-cases (n == 0)) [
  | inl z ↦ ground (arith, z)
  | inr ne ↦ elim (Bool-cases (ltb n (2 ^ 31))) [
    | inl small ↦ rw (ne, small) refl
    | inr big ↦ elim (Bool-cases (n == 2 ^ 31)) [
      | inl least ↦ rw (ne, big, least) refl
      | inr more ↦
          let rest : (2 ^ 32 - n == 0) ≡ false = ground arith in rw (ne, big, more, rest) refl
    ]
  ]
]

directive_same : (c : ℕ) (args : List Arg) → c ≢ b'p' → Log.directive c args ≡ directive c args
unfolding directive Log.directive putx Log.putx
directive_same c args ne = elim (Bool-cases (c == b's')) [
  | inl e ↦
      rw e (
        ap (λ f. next_string args >>= f) (fun_ext λ x. ap (λ str. some (str, x.1)) (puts_same x.0)))
  | inr s ↦ elim (Bool-cases (c == b'c')) [
    | inl e ↦ rw (s, e) refl
    | inr ch ↦ elim (Bool-cases (c == b'd')) [
      | inl e ↦
          rw (s, ch, e)
            (ap (λ f. next_number args >>= f)
              (fun_ext λ x.
                ap (λ o. o >>= λ text. some (text, x.1)) (putd_same (x.0 % 2 ^ 32) (omega arith))))
      | inr d ↦ rw (s, ch, d, ne→== c b'p' ne) refl
    ]
  ]
]

-- No `%` has `p` behind it.
abbrev NoAddress : List ℕ → Type 0
NoAddress [] = Unit
NoAddress (c ∷ []) = Unit
NoAddress (c ∷ d ∷ fmt) = if c == b'%' then (d ≢ b'p') × NoAddress fmt else NoAddress (d ∷ fmt)

format_same :
    (fmt : List ℕ) (args : List Arg) → NoAddress fmt → Log.format fmt args ≡ format fmt args
unfolding format Log.format
format_same [] args clean = refl
format_same (c ∷ []) args clean = refl
format_same (c ∷ d ∷ fmt) args clean =
    go (c == b'%') clean (λ left n. format_same fmt left n) (format_same (d ∷ fmt) args)
      (directive_same d args)
  where
    go :
        (b : Bool)
        → (if b then (d ≢ b'p') × NoAddress fmt else NoAddress (d ∷ fmt))
        → ((left : List Arg) → NoAddress fmt → Log.format fmt left ≡ format fmt left)
        → (NoAddress (d ∷ fmt) → Log.format (d ∷ fmt) args ≡ format (d ∷ fmt) args)
        → (d ≢ b'p' → Log.directive d args ≡ directive d args)
        → (if b
            then (Log.directive d args >>= λ x. Log.format fmt x.1 >>= λ rest. some (x.0 ++ rest))
            else (Log.format (d ∷ fmt) args >>= λ rest. some (c ∷ rest)))
          ≡ (if b
              then (directive d args >>= λ x. format fmt x.1 >>= λ rest. some (x.0 ++ rest))
              else (format (d ∷ fmt) args >>= λ rest. some (c ∷ rest)))
    go true both tail next dir =
        let known : (d ≢ b'p') × NoAddress fmt = both in
        ap (λ o. o >>= λ x. Log.format fmt x.1 >>= λ rest. some (x.0 ++ rest)) (dir known.0)
        ∙ ap (λ f. directive d args >>= f)
            (fun_ext λ x. ap (λ o. o >>= λ rest. some (x.0 ++ rest)) (tail x.1 known.1))
    go false clean tail next dir = ap (λ o. o >>= λ rest. some (c ∷ rest)) (next clean)

-- For a format without `%p`, both logs put the same text.
log_same :
    (level : ℕ) (fmt : List ℕ) (args : List Arg)
    → NoAddress fmt
    → Log.log level fmt args ≡ log level fmt args
unfolding log Log.log prefix Log.prefix
log_same level fmt args clean =
    ap
      (λ o.
        if ltb level Log.debug
        then some []
        else (o >>= λ text. some (prefix level ++ text ++ 10 ∷ [])))
      (format_same fmt args clean)
