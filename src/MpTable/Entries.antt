-- ===== src/MpTable/Entries.antt =====
-- What ioapic_init reads.
use pinion.MpTable.Find.{First, find_mptable-First}
use pinion.Machine.{Ptr, null}
use pinion.Bytes.{Memory, little}
use pinion.MpTable.{
  Message, cpu, bus, ioapic, interrupt, table, read_entry, read_loop, read_table, ioapic_init, done,
}
use pinion.MpTable.Names.{Padded, bus_message-Padded}
use pinion.Paging.{vaddr, virtual_base}
use pinion.Prelude.{
  ℕ, List, [], ◌∷◌, some, ◌≡◌, ◌≢◌, ◌⊎◌, ◌+◌, ◌%◌, ◌^◌, inl, inr, refl, last_or, length, ◌<◌, ne→==,
  ◌*◌, ◌==◌, false, arith, ap,
}

abbrev size : Message → ℕ
size (cpu lapic_id signature) = 20
size _ = 8

-- The entry at an address has these contents.
abbrev pub Holds : Memory → ℕ → Message → Type 0
Holds m a (table rev count) = ⊥
Holds m a (cpu lapic_id signature) =
    (m a ≡ 0) × (m (a + 1) ≡ lapic_id) × (little m (a + 4) 4 ≡ signature)
Holds m a (bus id []) = ⊥
Holds m a (bus id (c ∷ cs)) =
    (m a ≡ 1) × (m (a + 1) ≡ id) × Padded m (a + 2) (c ∷ cs) 6 × (last_or c cs ≢ b' ')
Holds m a (ioapic id ver addr) =
    (m a ≡ 2) × (m (a + 1) ≡ id) × (m (a + 2) ≡ ver) × (vaddr (little m (a + 4) 4) ≡ addr)
Holds m a (interrupt type on irq chip intn) =
    ((m a ≡ 3) ⊎ (m a ≡ 4))
    × (m (a + 1) ≡ type)
    × (m (a + 4) ≡ on)
    × (m (a + 5) ≡ irq)
    × (m (a + 6) ≡ chip)
    × (m (a + 7) ≡ intn)

-- The entries stand one behind the other.
abbrev pub Laid : Memory → ℕ → List Message → Type 0
Laid m a [] = Unit
Laid m a (e ∷ es) = Holds m a e × Laid m ((a + size e) % 2 ^ 64) es

read_entry-Holds :
    (e : Message) (a : ℕ) (m : Memory)
    → Holds m a e
    → read_entry m a ≡ some (e ∷ [], (a + size e) % 2 ^ 64)
unfolding read_entry
read_entry-Holds (table rev count) a m h = absurd h
read_entry-Holds (cpu lapic_id signature) a m (type, id, sig) = rw (type, id, sig) refl
read_entry-Holds (bus id []) a m h = absurd h
read_entry-Holds (bus id (c ∷ cs)) a m (type, is, name, ends) =
    rw (type, bus_message-Padded c cs m a name ends, is) refl
read_entry-Holds (ioapic id ver addr) a m (type, is, v, at) = rw (type, is, v, at) refl
read_entry-Holds (interrupt type on irq chip intn) a m (inl t, is, b, i, io, n) =
    rw (t, is, b, i, io, n) refl
read_entry-Holds (interrupt type on irq chip intn) a m (inr t, is, b, i, io, n) =
    rw (t, is, b, i, io, n) refl

read_loop-Laid :
    (es : List Message) (a : ℕ) (m : Memory) → Laid m a es → read_loop (length es) m a ≡ some es
unfolding read_loop
read_loop-Laid [] a m l = refl
read_loop-Laid (e ∷ es) a m (h, l) =
    rw (read_entry-Holds e a m h, read_loop-Laid es ((a + size e) % 2 ^ 64) m l) refl

read_table-Laid :
    (t : Ptr) (m : Memory) (es : List Message)
    → t ≢ null
    → little m (t + 34) 2 ≡ length es
    → Laid m (t + 44) es
    → read_table m t ≡ done (table (m (t + 6)) (length es) ∷ es) (vaddr 0xFEC0_0000)
unfolding read_table
read_table-Laid t m es ne count l =
    rw (read_table, ne→== t null ne, count, read_loop-Laid es (t + 44) m l)
      (ap (λ n. done (table (m (t + 6)) n ∷ es) (vaddr 0xFEC0_0000)) count)

-- Where the first multiple of 16 above 0 in the first 15 MiB that has the signature and the
-- checksum of the MP table points to memory that pinion sees, with a count of entries and as
-- many entries behind each other, of processors, busses, IOAPICs and interrupts, each in its
-- layout, and the name of a bus is not empty, does not end in a blank and is filled up with
-- blanks: ioapic_init ends and logs the contents of each entry in order, with the name of a bus
-- less the blanks.
pub ioapic_init-Laid :
    (i : ℕ) (t : Ptr) (m : Memory) (es : List Message)
    → i < 0xE_FFFF
    → First m (virtual_base + 16) i
    → vaddr (little m (virtual_base + 16 + 16 * i + 4) 4) ≡ t
    → t ≢ null
    → little m (t + 34) 2 ≡ length es
    → Laid m (t + 44) es
    → ioapic_init m ≡ done (table (m (t + 6)) (length es) ∷ es) (vaddr 0xFEC0_0000)
unfolding ioapic_init
ioapic_init-Laid i t m es l f at ne count laid =
    let there : (virtual_base + 16 + 16 * i == null) ≡ false = ground arith in
    rw (find_mptable-First i m l f, there, at) (read_table-Laid t m es ne count laid)
