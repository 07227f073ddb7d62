-- ===== src/Scheduler/Queue.antt =====
-- The list of TCBs that the queue's pointers stand for.
use pinion.Prelude.{◌≡◌, refl, ◌≢◌, List, [], ◌∷◌, ◌++◌, arith, ◌∈◌, ◌∉◌, Distinct, last_or}
use pinion.Machine.{Ptr, null, Kernel}

-- From `p` the links lead through the addresses of the list, none of them null, to null.
abbrev pub Chain : (Ptr → Ptr) → Ptr → List Ptr → Type 0
Chain next p [] = p ≡ null
Chain next p (x ∷ xs) = (p ≡ x) × (x ≢ null) × Chain next (next x) xs

abbrev pub links : Kernel → Ptr → Ptr
links k p = (k.tcbs p).next

pub record IsQueue (k : Kernel) (xs : List Ptr) : Type 0 where
  pub chain : Chain (links k) k.schedule_head xs
  pub tail : k.schedule_tail ≡ last_or null xs
  pub distinct : Distinct xs

-- `g` differs from `k` at most in the ends of the queue and in links of TCBs of `ps`.
pub record OnlyLinks (ps : List Ptr) (k g : Kernel) : Type 0 where
  pub rest :
      g
      ≡ record k { tcbs = g.tcbs; schedule_head = g.schedule_head; schedule_tail = g.schedule_tail }
  pub tcb : (p : Ptr) → g.tcbs p ≡ record (k.tcbs p) { next = links g p }
  pub link : (p : Ptr) → p ∉ ps → links g p ≡ links k p

pub OnlyLinks-refl : (ps : List Ptr) (k : Kernel) → OnlyLinks ps k k
OnlyLinks-refl ps k = record { rest = refl; tcb = λ p. refl; link = λ p out. refl }

-- A chain survives a change of links that spares its own addresses.
pub Chain-frame :
    (f g : Ptr → Ptr) (p : Ptr) (xs : List Ptr)
    → Chain f p xs
    → ((a : Ptr) → a ∈ xs → g a ≡ f a)
    → Chain g p xs
Chain-frame f g p [] c same = c
Chain-frame f g p (x ∷ xs) c same =
    (c.0, c.1, ground (arith, same x, Chain-frame f g (f x) xs c.2 (λ a i. same a (ground arith))))

pub null-not_mem : (f : Ptr → Ptr) (p : Ptr) (xs : List Ptr) → Chain f p xs → null ∉ xs
null-not_mem f p [] c = refl
null-not_mem f p (x ∷ xs) c = ground (arith, null-not_mem f (f x) xs c.2)

pub last_or-mem : (x : Ptr) (xs : List Ptr) → last_or x xs ∈ x ∷ xs
last_or-mem x [] = ground arith
last_or-mem x (y ∷ ys) = ground (arith, last_or-mem y ys)

-- The chain goes on where its last link is set.
pub Chain-append_one :
    (f g : Ptr → Ptr) (t x : Ptr) (xs : List Ptr)
    → Chain f x (x ∷ xs)
    → Distinct (x ∷ xs)
    → t ≢ null
    → ((a : Ptr) → a ∈ x ∷ xs → a ≢ last_or x xs → g a ≡ f a)
    → g (last_or x xs) ≡ t
    → g t ≡ null
    → Chain g x ((x ∷ xs) ++ t ∷ [])
Chain-append_one f g t x [] c d nt same end stop = (refl, c.1, (end, nt, stop))
Chain-append_one f g t x (y ∷ ys) c d nt same end stop =
    let go : Chain g y (y ∷ ys ++ t ∷ []) =
      Chain-append_one f g t y ys (refl, c.2.1, c.2.2) d.1 nt (λ a i. same a (ground arith)) end
        stop in
    let step : g x ≡ y = ground (arith, same x, last_or-mem y ys) in (refl, c.1, (step, go.1, go.2))
