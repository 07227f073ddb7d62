-- ===== src/Lib.antt =====
-- pinion64, a microkernel that gives an operating system threads, paging and interrupt routing on
-- one x86_64 core.
--
-- The parts and their files:
--   Machine      the state and the commands over it (src/pinion64/internal.h, mutex.s)
--   Scheduler    the queue of threads that can run, and the switch of threads (scheduler.c)
--   Core         the control block of the core, and which thread is loaded (ccb.s)
--   Alloc        frames, free lists of TCBs, pages and control blocks (pmm.c, alloc.s)
--   Threads      the table from thread IDs to TCBs (tcb.c)
--   FaultQueues  the threads that faulted or exited (queues.c)
--   Interrupts   vectors, their routes and the taps of threads (interrupt_vector.c, init.c)
--   Paging       the page tables, and those of the start (page.c)
--   Config       the text of the configuration, its lookups and addresses (config.c)
--   MemoryMap    the maps of low and high memory (pmm.c, api/memory_map_read.c)
--   Resolve      the symbols of the API calls (api_resolve.c)
--   Log          the messages of the log, and the serial device (log.c)
--   Api          the calls of a kernel and the trap handler (api/*.c, init.c)
--   Boot         the start of pinion, from the memory map to the first thread and the kernel (init.c)
--   System       calls and traps as events, one after the other (api.s, interrupt.s)
--   Load         the kernel: its segments, its links to the API calls, its start (load.c)
--   Acpi         the search for the ACPI table (acpi.c)
--   MpTable      the table of the processors and interrupts (mp.s, apic.c)
--   Unfold       the boot loader, from the multiboot information to pinion, and its log (src/unfold)
--   Bytes        memory by bytes, for Load, Acpi and Unfold
--   Options      the do blocks of functions without a result in some cases
--   Examples     states, tests, and the theorems at these states
-- Paths are below src/pinion64. A function keeps its name, less the prefix that names its file:
-- scheduler_push_tcb is Scheduler.push_tcb, apilogic_thread_pause is Api.Thread.pause.
--
-- How they interact: a call of the API or a trap finds TCBs by Threads, changes their states, and
-- moves them between the queue of Scheduler and those of FaultQueues; Interrupts moves the threads
-- that wait. Every queue links TCBs by the same field `next`. Boot composes them to the start, whose
-- end is a state that System begins from; Load then puts the kernel behind the first thread.
--
-- A command takes the state to a result and a new state, or stops: at a null pointer, outside a
-- static array, at a mutex that is already held (there is one core, and interrupts are off inside
-- pinion), at `for(;;);`, or where a loop of the model is out of fuel. TCBs and pages are two stores
-- by address, since they come from distinct frames. The walk over the scheduling queue in
-- Scheduler.rem_tcb has 65538 rounds: there are 65535 thread IDs and the idle thread. All other
-- loops are bounded in the source.
--
-- Numbers are native and carry the wrap-around of their C type where an operation can pass it.
-- `x & (2^k - 1)` is written `x % 2^k`, and a test, set or clear of one bit by its position. The
-- target x86_64-elf makes int_fast32_t, a thread ID, 32 bits wide.
--
-- An event of System is a trap with the registers of the interrupted thread, or a call of the running
-- thread with the trap behind it: int 0xFF of the stub, or a timer interrupt just before it. The
-- states that events lead to are the data type System.Reach.Reach.
--
-- pmm_init, config_parse, the loaders and the ACPI search are functions of their input; a write of
-- pmm_init or init_multiboot outside its arrays is the lack of a result. The loop of config_parse has
-- one round more than the text has characters, that over the program headers 2^16 (their number has 16
-- bits), that over the multiboot memory map one for each of its bytes and one more, and that over the
-- relocations one for each byte of the table and one more. A string that the boot loader gives is the
-- function from positions to characters, and its length has a bound, as that of the dynamic section.
-- Each program header is read once, at the start of its segment, and a segment that unfold loads is
-- smaller than 4 GiB.
--
-- load_kernel works on the memory of the virtual addresses, by bytes, besides the page tables, which
-- stand in the store of pages. Its byte loops stop where the tables map nothing, and so does the reading
-- of the dynamic section and of the name of the API; the headers, the other names and the relocations
-- are read and written without this test. A page that it maps shows what its
-- new frame holds, a parameter, and the address of this frame in the window is not looked at again.
-- The loop over the pages of a segment has one round for each page and two more. Names have fewer
-- than 64 characters.
--
-- Not modelled: the VGA device of the log, which is not compiled in, the contents of descriptor tables,
-- the set-up of modes, and a second core. idt_init takes a page for its gates.
-- The calls of the log in the modelled code are left out. thread_create and thread_reap are
-- modelled and are no events of System. Boot leaves out the parts of init that only set registers.
pub mod Prelude
pub mod Options
pub mod Bytes
pub mod Machine
pub mod Scheduler
pub mod Acpi
pub mod Alloc
pub mod System
pub mod Threads
pub mod Unfold
pub mod Core
pub mod FaultQueues
pub mod Interrupts
pub mod Paging
pub mod Api
pub mod Config
pub mod Log
pub mod Resolve
pub mod MemoryMap
pub mod Examples
pub mod Load
pub mod Boot
pub mod MpTable
