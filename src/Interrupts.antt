-- ===== src/Interrupts.antt =====
-- Interrupt vectors, their routes to threads and the taps of threads
-- (src/pinion64/interrupt_vector.c, and pinion_on_reset of src/pinion64/init.c).
pub mod Wake
pub mod Fire
pub mod Added
pub mod Routes
pub mod Words
use pinion.Scheduler.{add_tcb}
use pinion.Alloc.{pge_alloc, with_word}
use pinion.FaultQueues.{Queue, has_queued, pagefault, miscfault, zombie}
use pinion.Machine.{
  Cmd, Vtable, Ptr, VectorPage, pure, ◌>>=◌, ◌>>◌, modify, no_vtable, change, null, get,
  pinion_vtable, load, irq_vtable, ok, halt, waiting, stop, null_pointer, out_of_bounds, queued,
  suspended_waiting, suspended,
}
use pinion.Prelude.{
  ℕ, Option, ◌*◌, low_bits, none, if◌then◌else◌, ltb, ◌+◌, suc, some, ◌==◌, update, ◌/◌, zero,
  set_bit, ◌^◌,
}

-- `interrupt_vector_page_table` has 128 entries.
vector_page : ℕ → Cmd VectorPage
vector_page vec k =
    if ltb (vec / 2 ^ 7) 128 then ok (k.vector_pages (vec / 2 ^ 7)) k else stop out_of_bounds

-- `page->route[vec & 0x7F].tap[i]` is this word of the page.
abbrev pub tap_word : ℕ → ℕ → ℕ
tap_word vec i = 4 * low_bits vec 7 + i

pub add_vector_page : ℕ → Vtable → Cmd (Unit {0})
add_vector_page base vtable = do
  _ ← vector_page base
  page ← pge_alloc
  change (λ k. record k {
    vector_pages = update k.vector_pages (base / 2 ^ 7) (record { route = page; vtable = vtable });
  })
  if page == null
      then halt null_pointer
      else change (λ k. record k {
        pages = update k.pages page (λ j. if ltb j 512 then null else k.pages page j);
      })

-- The first of the `n` taps from `i` that holds `p`.
find_tap : (ℕ → Ptr) → ℕ → (vec i : ℕ) → Ptr → Option ℕ
find_tap route zero vec i p = none
find_tap route (suc n) vec i p =
    if route (tap_word vec i) == p then some (tap_word vec i) else find_tap route n vec (i + 1) p

-- A write of the word, if there is one.
write_tap : Ptr → Option ℕ → Ptr → Cmd (Unit {0})
write_tap page none p = pure tt
write_tap page (some j) p = change (λ k. with_word k page j p)

-- If the four taps are taken, the code logs an error and installs nothing.
pub add_route : Ptr → ℕ → Cmd (Unit {0})
add_route tcb vec = do
  page ← vector_page vec
  if page.route == null
      then pure tt
      else do k ← get; write_tap page.route (find_tap (k.pages page.route) 4 vec 0 null) tcb

pub remove_route : Ptr → ℕ → Cmd (Unit {0})
remove_route tcb vec = do
  page ← vector_page vec
  if page.route == null
      then pure tt
      else do k ← get; write_tap page.route (find_tap (k.pages page.route) 4 vec 0 tcb) null

-- The first of the `n` tap indices from `j` that taps the vector.
pub find_index : (ℕ → ℕ) → ℕ → (vec j : ℕ) → Option ℕ
find_index tap zero vec j = none
find_index tap (suc n) vec j =
    if low_bits (tap j) 14 == vec then some j else find_index tap n vec (j + 1)

-- The `switch` on the state of a thread whose tap has fired.
wake_state : ℕ → Ptr → ℕ → Cmd (Unit {0})
wake_state vec tcb state =
    if state == waiting
    then (do add_tcb tcb; modify tcb (λ t. record t { state = queued; rax = vec }))
    else if state == suspended_waiting
    then modify tcb (λ t. record t { state = suspended; rax = vec })
    else pure tt

-- The thread's tap `j` fires.
pub wake : ℕ → Ptr → ℕ → Cmd (Unit {0})
wake vec tcb j = do
  modify tcb (λ t. record t { tap = update t.tap j (set_bit (t.tap j) 15) })
  t ← load tcb
  wake_state vec tcb t.state

-- The first tap on the vector fires, if there is one.
wake_at : ℕ → Ptr → Option ℕ → Cmd (Unit {0})
wake_at vec tcb none = pure tt
wake_at vec tcb (some j) = wake vec tcb j

notify : ℕ → Ptr → Cmd (Unit {0})
notify vec tcb =
    if tcb == null then pure tt else do t ← load tcb; wake_at vec tcb (find_index t.tap 4 vec 0)

-- The loop over the `n` routes from `i`.
notify_loop : ℕ → (page : Ptr) → (vec i : ℕ) → Cmd (Unit {0})
notify_loop zero page vec i = pure tt
notify_loop (suc n) page vec i = do
  k ← get
  notify vec (k.pages page (tap_word vec i))
  notify_loop n page vec (i + 1)

-- Both vtables' `on_fire` change nothing: one only logs, the other is null.
pub fire : ℕ → Cmd (Unit {0})
fire vec = do
  page ← vector_page vec
  if page.route == null then pure tt else notify_loop 4 page.route vec 0

-- `pinion_on_reset`: the vector of a queue that is not empty fires again.
refire : Queue → ℕ → Cmd (Unit {0})
refire q vec = do pending ← has_queued q; if pending then fire vec else pure tt

pinion_on_reset : ℕ → Cmd (Unit {0})
pinion_on_reset vec =
    if low_bits vec 7 == 0
    then refire pagefault vec
    else if low_bits vec 7 == 1
    then refire miscfault vec
    else if low_bits vec 7 == 2
    then refire zombie vec
    else pure tt

-- `irq_on_reset` only logs.
on_reset : Vtable → ℕ → Cmd (Unit {0})
on_reset no_vtable vec = pure tt
on_reset pinion_vtable vec = pinion_on_reset vec
on_reset irq_vtable vec = pure tt

pub reset : ℕ → Cmd (Unit {0})
reset vec = do
  page ← vector_page vec
  if page.route == null then pure tt else on_reset page.vtable vec
