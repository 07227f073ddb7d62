-- ===== src/Api/State/Transfer.antt =====
-- Registers that are written can be read back.
use pinion.Machine.Runs.{load-ok, modify-ok}
use pinion.Machine.Returns.{Returns, returns}
use pinion.Threads.Lookup.{lookup, tcb_get-lookup}
use pinion.Prelude.{
  ℕ, ◌≡◌, true, arith, false, Option, ◌≢◌, ◌⊎◌, some, none, ne→==, update_self, ap, ◌∙◌, subst, sym,
  ◌==◌, refl, Bool-cases, inl, inr,
}
use pinion.Api.State.{
  pulled, pushed, ThreadState, has_ip, has_sp, has_callee, has_caller, pull, push, is_suspended,
}
use pinion.Machine.{Tcb, Kernel, Ptr, null, ok, with_tcb}

pub push-none : (id c : ℕ) (k : Kernel) → push id c none k ≡ ok false k
unfolding push
push-none id c k = refl

-- Two states have the same values in the registers of the classes that can be written.
abbrev pub Agree : ℕ → ThreadState → ThreadState → Type 0
Agree c a b =
    (has_ip c ≡ true → a.rip ≡ b.rip)
    × (has_sp c ≡ true → a.rsp ≡ b.rsp)
    × (has_callee c ≡ true
        → (a.rbx ≡ b.rbx)
          × (a.rbp ≡ b.rbp)
          × (a.r12 ≡ b.r12)
          × (a.r13 ≡ b.r13)
          × (a.r14 ≡ b.r14)
          × (a.r15 ≡ b.r15))
    × (has_caller c ≡ true
        → (a.rax ≡ b.rax)
          × (a.rcx ≡ b.rcx)
          × (a.rdx ≡ b.rdx)
          × (a.rdi ≡ b.rdi)
          × (a.rsi ≡ b.rsi)
          × (a.r8 ≡ b.r8)
          × (a.r9 ≡ b.r9)
          × (a.r10 ≡ b.r10)
          × (a.r11 ≡ b.r11))

pulled-pushed : (c : ℕ) (t : Tcb) (s x : ThreadState) → Agree c (pulled c (pushed c s t) x) s
unfolding pulled pushed
pulled-pushed c t s x =
    ((λ e. ground arith), (λ e. ground arith), (λ e. ground arith), λ e. ground arith)

pub pushed-state : (c : ℕ) (s : ThreadState) (t : Tcb) → (pushed c s t).state ≡ t.state
unfolding pushed
pushed-state c s t = ground arith

module _ (id c : ℕ) (k : Kernel) (unlocked : k.table_locked ≡ false) where
  pull-pulled :
      (x : ThreadState)
      → lookup k id ≢ null
      → is_suspended (k.tcbs (lookup k id)).state ≡ true
      → pull id c (some x) k ≡ ok (some (pulled c (k.tcbs (lookup k id)) x)) k
  unfolding pull
  pull-pulled x ne e =
      rw (tcb_get-lookup id k unlocked, ne→== (lookup k id) null ne, load-ok (lookup k id) k ne, e)
        refl

  pub push-pushed :
      (s : ThreadState)
      → lookup k id ≢ null
      → is_suspended (k.tcbs (lookup k id)).state ≡ true
      → push id c (some s) k
        ≡ ok true (with_tcb k (lookup k id) (pushed c s (k.tcbs (lookup k id))))
  unfolding push
  push-pushed s ne e =
      rw
        (
          tcb_get-lookup id k unlocked,
          ne→== (lookup k id) null ne,
          load-ok (lookup k id) k ne,
          e,
          modify-ok (lookup k id) k ne (pushed c s),
        )
        refl

  pull_refused :
      (x : Option ThreadState)
      → (lookup k id == null ≡ true) ⊎ (is_suspended (k.tcbs (lookup k id)).state ≡ false)
      → pull id c x k ≡ ok none k
  unfolding pull
  pull_refused none e = refl
  pull_refused (some x) e = elim (Bool-cases (lookup k id == null)) [
    | inl n ↦ rw (tcb_get-lookup id k unlocked, n) refl
    | inr n ↦ elim e [
      | inl n' ↦ cc
      | inr e ↦ rw (tcb_get-lookup id k unlocked, n, load-ok (lookup k id) k (ground arith), e) refl
    ]
  ]

  pub push_refused :
      (s : Option ThreadState)
      → (lookup k id == null ≡ true) ⊎ (is_suspended (k.tcbs (lookup k id)).state ≡ false)
      → push id c s k ≡ ok false k
  unfolding push
  push_refused none e = refl
  push_refused (some s) e = elim (Bool-cases (lookup k id == null)) [
    | inl n ↦ rw (tcb_get-lookup id k unlocked, n) refl
    | inr n ↦ elim e [
      | inl n' ↦ cc
      | inr e ↦ rw (tcb_get-lookup id k unlocked, n, load-ok (lookup k id) k (ground arith), e) refl
    ]
  ]

  -- With the table unlocked, thread_pull_state and thread_push_state of an ID that names no
  -- thread, or one that is not suspended, both fail and change nothing.
  pub unsuspended_refused :
      (s x : Option ThreadState)
      → (lookup k id == null ≡ true) ⊎ (is_suspended (k.tcbs (lookup k id)).state ≡ false)
      → (pull id c x k ≡ ok none k) × (push id c s k ≡ ok false k)
  unsuspended_refused s x e = (pull_refused x e, push_refused s e)

-- With the table unlocked, thread_push_state of a suspended thread succeeds and writes no other
-- TCB; thread_pull_state with the same classes then succeeds, changes nothing, and gives the
-- written values of the registers of these classes that can be written.
pub pull-push :
    (id c : ℕ) (k : Kernel) (s x : ThreadState)
    → k.table_locked ≡ false
    → lookup k id ≢ null
    → is_suspended (k.tcbs (lookup k id)).state ≡ true
    → Returns
        (λ r g.
          (r ≡ true)
          × ((p : Ptr) → p ≢ lookup k id → g.tcbs p ≡ k.tcbs p)
          × Returns
              (λ o h. (y : ThreadState) × (o ≡ some y) × (h ≡ g) × Agree c y s)
              (pull id c (some x) g))
        (push id c (some s) k)
pull-push id c k s x unlocked ne e =
    let t = lookup k id in
    let new = pushed c s (k.tcbs t) in
    let g = with_tcb k t new in
    let here = update_self k.tcbs t new in
    let still : is_suspended (g.tcbs t).state ≡ true =
      ap (λ y. is_suspended y.state) here ∙ ap is_suspended (pushed-state c s (k.tcbs t)) ∙ e in
    rw (push-pushed id c k unlocked s ne e) (
      returns (
        refl,
        (λ p np. ground arith),
        rw (pull-pulled id c g unlocked x ne still) (
            returns (
              pulled c (g.tcbs t) x,
              refl,
              refl,
              subst (λ y. Agree c (pulled c y x) s) (sym here) (pulled-pushed c (k.tcbs t) s x),
            )),
      ))
