-- ===== src/Threads/Install.antt =====
-- `tcb_new` puts a TCB into an empty slot.
use pinion.Alloc.{with_word}
use pinion.Threads.{install, tcb_limit, slot}
use pinion.Threads.Delete.{Distinct, Names}
use pinion.Threads.Lookup.{lookup}
use pinion.Machine.{Kernel, Ptr, ok, with_tcb, release, modify, null, suspended}
use pinion.Prelude.{
  ℕ, Bool, ◌≡◌, ◌≢◌, ◌<◌, ◌/◌, ◌%◌, ◌==◌, ◌∙◌, false, arith, if◌then◌else◌, ap, sym,
}
use pinion.Threads.Subtables.{Ensured}

-- The TCB `t` is initialized, and stands under `i`.
abbrev pub installed : ℕ → Ptr → Kernel → Kernel
installed i t k =
    record (with_tcb (with_word k (k.tcb_table (i / 512)) (i % 512) t) t (record (k.tcbs t) {
      state = suspended;
      id = i;
      pcx_id = 0;
      xstate = null;
      cs = 0x08;
      ss = 0x10;
      rflags = 0x200200;
    })) { table_locked = false }

pub install-installed :
    (i : ℕ) (t : Ptr) (k : Kernel) → t ≢ null → install i t k ≡ ok t (installed i t k)
unfolding install modify release
install-installed i t k ne = ground arith

lookup-installed :
    (i : ℕ) (t : Ptr) (k : Kernel)
    → Distinct k
    → i < tcb_limit
    → k.tcb_table (i / 512) ≢ null
    → Names k (installed i t k) i t
lookup-installed i t k distinct small there j =
    let same = distinct (j / 512) (i / 512) in ground (arith, same)

-- All IDs from 1 to below `i` are in use.
abbrev pub Used : ℕ → Kernel → Type 0
Used i k = (j : ℕ) → 0 < j → j < i → lookup k j ≢ null

-- The TCB `t` is a new thread, whose ID is the first that was not in use.
pub record Created (k : Kernel) (t : Ptr) (g : Kernel) : Type 0 where
  pub id : ℕ
  pub positive : 0 < id
  pub small : id < tcb_limit
  pub unused : lookup k id ≡ null
  pub first : Used id k
  pub names : Names k g id t
  pub suspended_state : (g.tcbs t).state ≡ suspended
  pub own_id : (g.tcbs t).id ≡ id

pub install-Created :
    (i : ℕ) (t : Ptr) (k g : Kernel) {ready : Bool}
    → 0 < i
    → i < tcb_limit
    → Used i k
    → Ensured i k ready g
    → g.tcb_table (i / 512) ≢ null
    → slot g i ≡ null
    → Created k t (installed i t g)
install-Created i t k g pos small used s there empty = record {
  id = i;
  positive = pos;
  small = small;
  unused = sym (s.names i) ∙ ground arith;
  first = used;
  names = λ j.
      lookup-installed i t g s.distinct small there j
      ∙ ap (λ p. if j == i then t else p) (s.names j);
  suspended_state = ground arith;
  own_id = ground arith;
}

pub Created-names :
    (k g h : Kernel) (t : Ptr) → ((j : ℕ) → lookup g j ≡ lookup k j) → Created g t h → Created k t h
Created-names k g h t same c = record {
  id = c.id;
  positive = c.positive;
  small = c.small;
  unused = sym (same c.id) ∙ c.unused;
  first = λ j pos l e. c.first j pos l (same j ∙ e);
  names = λ j. c.names j ∙ ap (λ p. if j == c.id then t else p) (same j);
  suspended_state = c.suspended_state;
  own_id = c.own_id;
}
