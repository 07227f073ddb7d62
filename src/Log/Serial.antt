-- ===== src/Log/Serial.antt =====
-- The device that the log puts its characters to (`serialputc` of src/pinion64/log.c). The values
-- that reads of the status port give, in order, are a parameter `inb`; the writes to ports are
-- collected, and in place of the loop without a bound there are `rounds` reads.
pub mod Sent
use pinion.Options.{◌>>=◌}
use pinion.Prelude.{
  ℕ, List, [], ◌∷◌, ◌++◌, Option, some, none, Bool, true, zero, suc, ◌+◌, ◌==◌, if◌then◌else◌,
  test_bit,
}

-- `serialinit`, the reads of the status so far, and the writes: each a port and a byte.
pub record Serial : Type 0 where
  pub serialinit : Bool
  pub reads : ℕ
  pub writes : List (ℕ × ℕ)

abbrev pub data_port : ℕ
data_port = 0x3F8

abbrev pub outb : ℕ → ℕ → Serial → Serial
outb port value s = record s { writes = s.writes ++ (port, value) ∷ [] }

-- `while ((inb(0x3FD) & 0x20) == 0);`
pub wait_loop : ℕ → (inb : ℕ → ℕ) → Serial → Option Serial
wait_loop zero inb s = none
wait_loop (suc n) inb s =
    let read = record s { reads = s.reads + 1 } in
    let rest = wait_loop n inb read in if test_bit (inb s.reads) 5 then some read else rest

-- The end of `serialputc`: the character, with a carriage return before a new line.
pub put_ready : (rounds : ℕ) → (inb : ℕ → ℕ) → ℕ → Serial → Option Serial
put_ready rounds inb c s = do
  s ← wait_loop rounds inb s
  let returned = if c == 10 then outb data_port 13 s else s
  some (outb data_port c returned)

-- The set-up of the device.
pub set_up : Serial → Serial
set_up s =
    let s1 = outb 0x3F9 0x00 s in
    let s2 = outb 0x3FB 0x80 s1 in
    let s3 = outb 0x3F8 0x03 s2 in
    let s4 = outb 0x3F9 0x00 s3 in
    let s5 = outb 0x3FB 0x03 s4 in
    let s6 = outb 0x3FA 0xC7 s5 in
    let s7 = outb 0x3FC 0x0B s6 in record (outb 0x3FC 0x0B s6) { serialinit = true }

pub putc : (rounds : ℕ) → (inb : ℕ → ℕ) → ℕ → Serial → Option Serial
putc rounds inb c s = do
  s ← if s.serialinit then some s else put_ready rounds inb 10 (set_up s)
  put_ready rounds inb c s

-- The characters of a text, one after the other.
pub put_text : (rounds : ℕ) → (inb : ℕ → ℕ) → List ℕ → Serial → Option Serial
put_text rounds inb [] s = some s
put_text rounds inb (c ∷ cs) s = do s ← putc rounds inb c s; put_text rounds inb cs s
