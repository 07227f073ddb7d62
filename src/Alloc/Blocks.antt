-- ===== src/Alloc/Blocks.antt =====
-- Which block an allocation gives, and what it leaves alone.
use native.Mathlib.Decide.{ℕ_discrete}
use pinion.Alloc.{
  pmm_alloc, pge_alloc, pge_push, pge_pop, tcb_push, tcb_free, with_word, tcb_alloc, with_link,
  tcb_pop, link_word,
}
use pinion.Machine.{Kernel, Ptr, acquire, release, modify, null, ok, with_tcb}
use pinion.Machine.Returns.{Returns, returns}
use pinion.Prelude.{
  ◌≡◌, ◌≢◌, ◌⊎◌, ◌+◌, ◌^◌, ◌%◌, ◌==◌, false, true, arith, if◌then◌else◌, ne→==, refl, Bool-cases,
  inl, inr,
}

-- The next frame of `pmm_alloc`, or null.
abbrev pub next_frame : Kernel → Ptr
next_frame k = if k.alloc_base == k.alloc_limit then 0 else (k.alloc_base + k.pmm_base) % 2 ^ 64

-- The next block of `pge_alloc`, and of `tcb_alloc`.
abbrev pub next_page : Kernel → Ptr
next_page k = if k.pge_list == null then next_frame k else k.pge_list

abbrev pub next_tcb : Kernel → Ptr
next_tcb k = if k.tcb_list == null then next_frame k else k.tcb_list

-- The mutexes of the allocators are free.
abbrev pub Free : Kernel → Type 0
Free k = (k.pmm_locked ≡ false) × (k.pge_locked ≡ false) × (k.tcb_locked ≡ false)

-- `pge_alloc` writes no TCB, and no page but the one that it gives.
pub record PageTaken (k : Kernel) (p : Ptr) (g : Kernel) : Type 0 where
  pub is : p ≡ next_page k
  pub tcbs : g.tcbs ≡ k.tcbs
  pub table : g.tcb_table ≡ k.tcb_table
  pub lock : g.table_locked ≡ k.table_locked
  pub unlocked : Free g
  pub others : (q : Ptr) → q ≢ next_page k → g.pages q ≡ k.pages q

-- After `pmm_alloc`.
abbrev pub framed : Kernel → Kernel
framed k = record k {
  pmm_locked = false;
  alloc_base =
      if k.alloc_base == k.alloc_limit then k.alloc_base else (k.alloc_base + 0x1000) % 2 ^ 64;
}

-- `tcb_alloc` writes no page, and no TCB but the one that it gives.
pub record TcbTaken (k : Kernel) (t : Ptr) (g : Kernel) : Type 0 where
  pub is : t ≡ next_tcb k
  pub pages : g.pages ≡ k.pages
  pub table : g.tcb_table ≡ k.tcb_table
  pub lock : g.table_locked ≡ k.table_locked
  pub unlocked : Free g
  pub others : (q : Ptr) → q ≢ next_tcb k → g.tcbs q ≡ k.tcbs q
  pub next : (next_page g ≡ next_page k) ⊎ (next_page g ≡ next_page (framed k))

pub pmm_alloc-ok : (k : Kernel) → k.pmm_locked ≡ false → pmm_alloc k ≡ ok (next_frame k) (framed k)
unfolding pmm_alloc acquire release
pmm_alloc-ok k e = ground arith

-- After `pge_alloc` with an empty list.
abbrev pub paged : Kernel → Kernel
paged k = record (with_word (framed k) (next_frame k) 0 null) {
  pge_locked = false;
  pge_list = null;
}

pge_alloc-list :
    (k : Kernel)
    → k.pge_locked ≡ false
    → k.pge_list ≢ null
    → pge_alloc k ≡ ok k.pge_list (record k { pge_locked = false; pge_list = k.pages k.pge_list 0 })
unfolding pge_alloc pge_pop acquire release
pge_alloc-list k e ne = ground arith

pub pge_alloc-frame :
    (k : Kernel)
    → k.pge_locked ≡ false
    → k.pmm_locked ≡ false
    → k.pge_list ≡ null
    → pge_alloc k ≡ (
        if next_frame k == null
        then ok null (record (framed k) { pge_locked = false })
        else ok (next_frame k) (paged k))
unfolding pge_alloc pge_push pge_pop acquire release
pge_alloc-frame k e pmm empty =
    let ran = pmm_alloc-ok (record k { pge_locked = true }) pmm in ground (arith, ran)

pub pge_alloc-PageTaken : (k : Kernel) → Free k → Returns (PageTaken k) (pge_alloc k)
pge_alloc-PageTaken k (pmm, pge, tcb) = elim (ℕ_discrete k.pge_list null) [
  | no ne ↦ rw (pge_alloc-list k pge ne) (
      returns (record {
        is = ground arith;
        tcbs = refl;
        table = refl;
        lock = refl;
        unlocked = (pmm, refl, tcb);
        others = λ q other. refl;
      }))
  | yes empty ↦ rw (pge_alloc-frame k pge pmm empty) (elim (Bool-cases (next_frame k == null)) [
    | inl out ↦ rw out (
        returns (record {
          is = ground arith;
          tcbs = refl;
          table = refl;
          lock = refl;
          unlocked = (refl, refl, tcb);
          others = λ q other. refl;
        }))
    | inr frame ↦ rw frame (
        returns (record {
          is = ground arith;
          tcbs = refl;
          table = refl;
          lock = refl;
          unlocked = (refl, refl, tcb);
          others = λ q other. ground arith;
        }))
  ])
]

-- After `tcb_alloc` with an empty list.
abbrev pub tcb_framed : Kernel → Kernel
tcb_framed k =
    record (with_tcb (framed k) (next_frame k) (with_link null (k.tcbs (next_frame k)))) {
      tcb_locked = false;
      tcb_list = null;
    }

tcb_alloc-list :
    (k : Kernel)
    → k.tcb_locked ≡ false
    → k.tcb_list ≢ null
    → tcb_alloc k
      ≡ ok k.tcb_list (record k { tcb_locked = false; tcb_list = link_word (k.tcbs k.tcb_list) })
unfolding tcb_alloc tcb_pop acquire release
tcb_alloc-list k e ne = ground arith

pub tcb_alloc-frame :
    (k : Kernel)
    → k.tcb_locked ≡ false
    → k.pmm_locked ≡ false
    → k.tcb_list ≡ null
    → tcb_alloc k ≡ (
        if next_frame k == null
        then ok null (record (framed k) { tcb_locked = false })
        else ok (next_frame k) (tcb_framed k))
unfolding tcb_alloc tcb_push tcb_pop acquire release modify
tcb_alloc-frame k e pmm empty =
    let ran = pmm_alloc-ok (record k { tcb_locked = true }) pmm in ground (arith, ran)

pub tcb_alloc-TcbTaken : (k : Kernel) → Free k → Returns (TcbTaken k) (tcb_alloc k)
tcb_alloc-TcbTaken k (pmm, pge, tcb) = elim (ℕ_discrete k.tcb_list null) [
  | no ne ↦ rw (tcb_alloc-list k tcb ne) (
      returns (record {
        is = ground arith;
        pages = refl;
        table = refl;
        lock = refl;
        unlocked = (pmm, pge, refl);
        others = λ q other. refl;
        next = inl refl;
      }))
  | yes empty ↦ rw (tcb_alloc-frame k tcb pmm empty) (elim (Bool-cases (next_frame k == null)) [
    | inl out ↦ rw out (
        returns (record {
          is = ground arith;
          pages = refl;
          table = refl;
          lock = refl;
          unlocked = (refl, pge, refl);
          others = λ q other. refl;
          next = inr refl;
        }))
    | inr frame ↦ rw frame (
        returns (record {
          is = ground arith;
          pages = refl;
          table = refl;
          lock = refl;
          unlocked = (refl, pge, refl);
          others = λ q other. ground arith;
          next = inr refl;
        }))
  ])
]

pub tcb_free-Returns :
    (t : Ptr) (k : Kernel)
    → t ≢ null
    → Free k
    → Returns
        (λ _ g.
          (g.pages ≡ k.pages)
          × (g.tcb_table ≡ k.tcb_table)
          × (Free g × (g.table_locked ≡ k.table_locked))
          × ((p : Ptr) → p ≢ t → g.tcbs p ≡ k.tcbs p))
        (tcb_free t k)
unfolding tcb_free tcb_push acquire release modify
tcb_free-Returns t k ne (pmm, pge, tcb) =
    rw (tcb, ne→== t null ne)
      (returns (refl, refl, ((pmm, pge, refl), refl), λ p other. ground arith))
