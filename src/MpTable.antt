-- ===== src/MpTable.antt =====
-- The table of the processors and interrupts: find_mptable of src/pinion64/mp.s, and ioapic_init of
-- src/pinion64/apic.c. Memory is read by bytes, at the addresses of pinion.
pub mod Find
pub mod Names
pub mod Entries
use pinion.Bytes.{Memory, little, text}
use pinion.Machine.{Ptr, null}
use pinion.Options.{◌>>=◌}
use pinion.Paging.{virtual_base, vaddr}
use pinion.Prelude.{
  ℕ, Bool, List, [], ◌∷◌, ◌++◌, Option, some, none, zero, suc, true, false, ◌+◌, ◌*◌, ◌%◌, ◌^◌,
  ◌==◌, ◌&&◌, ◌||◌, ltb, update, if◌then◌else◌,
}

-- `_MP_`
abbrev pub signature : ℕ
signature = 0x5F50_4D5F

unfoldable pub sum_loop : ℕ → Memory → (addr i sum : ℕ) → ℕ
sum_loop zero m addr i sum = sum
sum_loop (suc n) m addr i sum = sum_loop n m addr (i + 1) ((sum + m (addr + i)) % 2 ^ 8)

unfoldable pub is_mptable : Memory → ℕ → Bool
is_mptable m addr = little m addr 4 == signature && sum_loop 16 m addr 0 0 == 0

-- The loop over the addresses in steps of 16, from this one on, with `n` left.
pub find_loop : ℕ → Memory → ℕ → Ptr
find_loop zero m addr = null
find_loop (suc n) m addr = elim (is_mptable m addr) [
  | true ↦ addr
  | false ↦ find_loop n m (addr + 16)
]

-- The first 15 MiB, less the first 16 bytes.
pub find_mptable : Memory → Ptr
find_mptable m = find_loop 0xE_FFFF m (virtual_base + 16)

-- The structures of apic.c, as far as they are read.
pub record MptableFloatPtr : Type 0 where
  pub physaddr : ℕ

abbrev pub mptable_float_ptr : Memory → ℕ → MptableFloatPtr
mptable_float_ptr m a = record { physaddr = little m (a + 4) 4 }

pub record Mptable : Type 0 where
  pub spec_rv : ℕ
  pub entry_count : ℕ
  pub table : ℕ

abbrev pub mptable : Memory → ℕ → Mptable
mptable m a = record { spec_rv = m (a + 6); entry_count = little m (a + 34) 2; table = a + 44 }

pub record CpuEntry : Type 0 where
  pub lapic_id : ℕ
  pub signature : ℕ

abbrev pub cpu_entry : Memory → ℕ → CpuEntry
cpu_entry m a = record { lapic_id = m (a + 1); signature = little m (a + 4) 4 }

pub record BusEntry : Type 0 where
  pub id : ℕ
  pub string : ℕ → ℕ

abbrev pub bus_entry : Memory → ℕ → BusEntry
bus_entry m a = record { id = m (a + 1); string = λ j. m (a + 2 + j) }

pub record IoapicEntry : Type 0 where
  pub id : ℕ
  pub ver : ℕ
  pub addr : ℕ

abbrev pub ioapic_entry : Memory → ℕ → IoapicEntry
ioapic_entry m a = record { id = m (a + 1); ver = m (a + 2); addr = little m (a + 4) 4 }

pub record IointrEntry : Type 0 where
  pub intr_type : ℕ
  pub bus : ℕ
  pub irq : ℕ
  pub ioapic : ℕ
  pub ioapic_intn : ℕ

abbrev pub iointr_entry : Memory → ℕ → IointrEntry
iointr_entry m a = record {
  intr_type = m (a + 1);
  bus = m (a + 4);
  irq = m (a + 5);
  ioapic = m (a + 6);
  ioapic_intn = m (a + 7);
}

-- What is logged of the table and its entries.
pub data Message : Type 0 where
  table : (rev count : ℕ) → Message
  cpu : (lapic_id signature : ℕ) → Message
  bus : (id : ℕ) → (name : List ℕ) → Message
  ioapic : (id ver : ℕ) → (addr : Ptr) → Message
  interrupt : (type bus irq ioapic intn : ℕ) → Message

-- The loop that clears the blanks at the end of a string of `n` characters; `none` is the read
-- before its start.
pub trim : ℕ → (ℕ → ℕ) → Option (ℕ → ℕ)
trim zero string = none
trim (suc j) string = if string j == b' ' then trim j (update string j 0) else some string

-- `string`
pub bus_string : Memory → ℕ → ℕ → ℕ
bus_string m entry j = if ltb j 6 then (bus_entry m entry).string j else 0

pub bus_message : Memory → ℕ → Option (List Message)
bus_message m entry = do
  string ← trim 6 (bus_string m entry)
  some (bus (bus_entry m entry).id (text 7 string 0) ∷ [])

-- The `switch` on the type of an entry: the messages, and the next entry. An entry of another type
-- is the next one again.
pub read_entry : Memory → ℕ → Option (List Message × ℕ)
read_entry m entry =
    let e = cpu_entry m entry in
    let io = ioapic_entry m entry in
    let intr = iointr_entry m entry in
    let next = (entry + 8) % 2 ^ 64 in
    if m entry == 0
    then some (cpu e.lapic_id e.signature ∷ [], (entry + 20) % 2 ^ 64)
    else if m entry == 1
    then (do message ← bus_message m entry; some (message, next))
    else if m entry == 2
    then some (ioapic io.id io.ver (vaddr io.addr) ∷ [], next)
    else if m entry == 3 || m entry == 4
    then some (interrupt intr.intr_type intr.bus intr.irq intr.ioapic intr.ioapic_intn ∷ [], next)
    else some ([], entry)

-- The loop over the entries, with `n` left.
pub read_loop : ℕ → Memory → ℕ → Option (List Message)
read_loop zero m entry = some []
read_loop (suc n) m entry = do
  (message, next) ← read_entry m entry
  messages ← read_loop n m next
  some (message ++ messages)

-- The end of `ioapic_init`: `for(;;);` without a table, a read at `NULL`, a read before the start of
-- a string, or the messages and the address of the IOAPIC.
pub data Reading : Type 0 where
  no_table no_address before_string : Reading
  done : List Message → Ptr → Reading

pub read_table : Memory → Ptr → Reading
read_table m p =
    let t = mptable m p in
    if p == null then no_address else elim (read_loop t.entry_count m t.table) [
      | none ↦ before_string
      | some messages ↦ done (table t.spec_rv t.entry_count ∷ messages) (vaddr 0xFEC0_0000)
    ]

pub ioapic_init : Memory → Reading
ioapic_init m =
    let mptable_ptr = find_mptable m in
    if mptable_ptr == null
    then no_table
    else read_table m (vaddr (mptable_float_ptr m mptable_ptr).physaddr)
