-- ===== src/Machine/Returns.antt =====
-- Total correctness of a run: it returns, and its result and state satisfy a postcondition.
use pinion.Prelude.{subst}
use pinion.Machine.{Kernel, Run, ok, Cmd, and_then, Stop, stop, ◌≡◌}

pub data Returns {A : Type 0} (P : A → Kernel → Type 0) : Run A → Type 0 where
  returns : {a : A} {k : Kernel} → P a k → Returns P (ok a k)

module _ {A : Type 0} {P : A → Kernel → Type 0} where
  pub bind :
      {B : Type 0} {Q : B → Kernel → Type 0} {r : Run A} {f : A → Cmd B}
      → Returns P r
      → ((a : A) (k : Kernel) → P a k → Returns Q (f a k))
      → Returns Q (and_then r f)
  bind (returns p) next = next _ _ p

  pub mono :
      {Q : A → Kernel → Type 0} {r : Run A}
      → Returns P r
      → ((a : A) (k : Kernel) → P a k → Q a k)
      → Returns Q r
  mono (returns p) weaken = returns (weaken _ _ p)

-- A run that returns has not stopped.
HasReturned : {A : Type 0} → Run A → Type 0
HasReturned (ok a k) = Unit
HasReturned (stop s) = ⊥

returned : {A : Type 0} {P : A → Kernel → Type 0} {r : Run A} → Returns P r → HasReturned r
unfolding HasReturned
returned (returns p) = tt

pub not_stopped : {A : Type 0} {P : A → Kernel → Type 0} {s : Stop} → Returns P (stop s) → ⊥
unfolding HasReturned
not_stopped p = returned p

-- The rule for a `do` block whose first two commands have a postcondition.
pub bind_two :
    {A B C : Type 0} {P : B → Kernel → Type 0} {Q : C → Kernel → Type 0} (r : Run A) (f : A → Cmd B)
    {g : B → Cmd C}
    → Returns P (and_then r f)
    → ((b : B) (k : Kernel) → P b k → Returns Q (g b k))
    → Returns Q (and_then r (λ a k. and_then (f a k) g))
bind_two (ok a k) f p next = bind p next
bind_two (stop s) f p next = absurd (not_stopped p)

at_ok : {A : Type 0} {P : A → Kernel → Type 0} {a : A} {k : Kernel} → Returns P (ok a k) → P a k
at_ok (returns p) = p

-- What is known of a run that has this result.
pub of_ok :
    {A : Type 0} {P : A → Kernel → Type 0} {r : Run A} {a : A} {k : Kernel}
    → r ≡ ok a k
    → Returns P r
    → P a k
of_ok {P = P} e p = at_ok (subst (Returns P) e p)
