-- ===== src/Lib.antt =====
-- A model of the C code of the boot loader and kernel in this repository, with proofs.
--
-- The program. The boot sectors (bootloader/) collect the E820 memory map and load a loader
-- (kernelLoader/), which sets up an interrupt table for exceptions and drives the disk by polling it;
-- the kernel (kernel/) sets up a physical frame allocator, page tables, the interrupt controller and
-- an interrupt-driven ATA driver. In the kernel the page tables take frames from the allocator, the
-- allocator reads the memory map, and the driver is driven by `tick_ata` calls and by the disk's
-- interrupt. Both disk drivers go through the same port instructions.
--
-- Base      names that all modules share: numbers, C comparisons, chains of accesses that may fail
-- Bits      `&`, `|`, `~` and __builtin_ctzll digit by digit, masks as remainders
-- Page      kernel/common.h: PAGE_SIZE, e820_entry_t, and align_down and align_up of pmm.c and vmm.c
-- Pmm       kernel/pmm.c, kernel/pmm.h. The record Pmm is the static bitmap and the ceiling. One
--           definition for each function, and for each loop one by the rounds that are left:
--           pmm_init_from_map, pmm_init, pmm_frame_alloc, pmm_frame_free and the bit operations.
--           Pmm.Bitmap reads the bitmap as a set of frames; Pmm.Ranges, Init, Alloc, Reuse and Holes
--           hold the theorems, and Pmm.Supply is about frames taken one after the other.
-- Vmm       kernel/vmm.c, kernel/vmm.h. The record Vmm is memory byte by byte, the allocator, CR3 and
--           the addresses that invlpg was given. vmm_pte_get and vmm_pte_get_offline are one walk with
--           two ways to reach memory (Mode): through the direct map at HHDM_OFFSET, or one to one.
--           Vmm.Boot has what runs before the direct map is loaded: vmm_kernel_map,
--           vmm_page_1gb_map_offline, vmm_hhdm_create and vmm_init; Vmm.Fuel is about its loops and
--           Vmm.Gib and Vmm.GibEntry about its pages of 1 GiB, Vmm.Direct and Vmm.Hhdm about the whole
--           direct map. Vmm.Memory is about words in memory, Vmm.Entry about entries, Vmm.Walk
--           about the walk against the one that the processor does, Vmm.Mapping and
--           Vmm.RoundTrip about map and unmap where the tables exist, Vmm.PageAlloc about pages with a
--           frame of their own there. Where tables are made on the way: Vmm.Space reads the tables of
--           the lower half (addresses below 2^47) as a tree, Vmm.Zeroed and Vmm.Fresh are about a new
--           table, Vmm.Grow about what it leaves alone, Vmm.Create about the walk, Vmm.Stored and
--           Vmm.Translated about stores and translations, Vmm.Extend and Vmm.MapPage about one page
--           more, Vmm.Unmap about one page less, Vmm.Give about pages with a frame of their own,
--           Vmm.Identity and Vmm.KernelMap about the map of the kernel, Vmm.Linked about the direct map
--           as a part of such a space, and Vmm.Init about vmm_init. Vmm.Serve, Vmm.Reclaim and
--           Vmm.Requests are about histories of vmm_page_alloc and vmm_page_free, against a map from
--           pages to frames.
-- Port      kernel/common.h: inb, outb, insw and outsw as they are declared, over a device that is a stream of answers
--           to inb and a stream of data words, and a record of all writes, the latest first.
--           Port.Memory is about the block that insw leaves in memory.
-- Asm       kernel/io_wrapper.asm, kernelLoader/io_wrapper.asm: the wrappers of the port instructions,
--           instruction by instruction. Asm.Access is about what they do at the ports, Asm.Saved about
--           the registers that they leave and the count of the block wrappers.
-- Pic       kernel/ata_driver_irq.c: remap_pic, unmask_irq, send_eoi, setup_ata_irq as port accesses.
--           Pic.Masks is about the masks, Pic.Remap about what a controller makes of the accesses.
-- AtaIrq    kernel/ata_driver_irq.c, kernel/ata_driver_irq.h. AtaContext is g_ata_ctx; AtaIrq.Begin has
--           the begin functions, AtaIrq.Tick one handler for each step, tick_ata and irq14_ata.
--           AtaIrq.Invariant, Typed, Events, Identify, TaskFile, Transfer, Sector and
--           Complete hold the theorems; AtaIrq.Race has the two handlers that send a command statement by
--           statement, with an interrupt among them.
-- AtaPoll   kernelLoader/atadriver.c, kernelLoader/ata_driver.h. A function takes the machine and
--           returns it with its result; a Transfer names one of the four transfer functions, which
--           share their loop (poll_loop, disk_poll). AtaPoll.Wait is about the waiting loops, Sector,
--           Round, Outcome and Disk about transfers whatever the disk answers, Served about disks that serve
--           them, Init and Ready about ata_init. AtaPoll.Older models kernelLoader/ata_driver.c, an
--           older copy that is linked too, and AtaPoll.Same compares the two.
-- Idt       kernelLoader/idt.c, kernelLoader/idt.h. The table is a function from vectors to gates and
--           the screen one from cells to 16-bit words; an exception handler is the screen that it
--           leaves before it halts. Idt.Gates is about gates, Idt.Hex about numbers on the screen,
--           Idt.Screen about whole screens.
-- Loader    kernelLoader/main.c: kmain over the interrupt table and the machine. The loop that calls
--           ata_init until it succeeds takes fuel and is `none` without it; one round is enough where
--           the disk gets ready. Loader.Filled is about the memory that it fills, Loader.Written about
--           the whole.
-- Kernel    kernel/main.c: kmain over the screen and the memory manager. Kernel.Direct follows it from
--           the memory map to its loop, on its own tables; Kernel.Running goes on with calls of
--           vmm_page_alloc and vmm_page_free.
-- Tests     the theorems at concrete inputs.
--
-- Conventions. An access outside g_frame_bitmap or outside the memory map is `none`; C leaves it
-- undefined. uint64_t, uint32_t and uint8_t arithmetic wraps by a remainder. A loop of the source is a
-- recursion on the rounds that are left, as many as the source's bound gives:
-- MAX_FRAMES rounds in the search of pmm_frame_alloc, 64 places in __builtin_ctzll, 4096 bytes in the
-- clearing of a table. The loops of Vmm.Boot count addresses that can wrap; they take fuel, at least one
-- round more than the source makes, and are `none` without it. The timeouts of the polling driver are
-- rounds, as in the source. Interrupts arrive between calls of the interrupt-driven driver, not inside
-- one, but in AtaIrq.Race, where one arrives between two statements of a handler that sends a
-- command. The C code stands
-- over insw and outsw as common.h declares them; the wrappers move another number of words
-- (Asm.Saved), and the theorems about transfers are about the C code with functions that are as
-- declared. The disk's answers are arbitrary unless a theorem says what they are. Symbols of the linker,
-- the addresses of handlers, CR2 and RSP are arguments.
--
-- Not modelled: the entry code, the boot sectors and the build, which are assembly, linker scripts and
-- shell.
pub mod Base
pub mod Bits
pub mod Page
pub mod Pmm
pub mod Vmm
pub mod Port
pub mod Asm
pub mod Pic
pub mod AtaIrq
pub mod AtaPoll
pub mod Idt
pub mod Loader
pub mod Kernel
mod Tests
