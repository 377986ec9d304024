-- ===== src/Kernel.antt =====
-- kernel/main.c: the kernel from its entry to its endless loop.
pub mod Direct
pub mod Running
use bootloader_kernel_in_nas.Base.{
  ℕ, zero, suc, ◌+◌, ◌-◌, ◌*◌, ◌^◌, bit_or, Bool, Option, some, List, [], ◌∷◌, ◌>>=◌, update,
}
use bootloader_kernel_in_nas.Page.{E820Entry}
use bootloader_kernel_in_nas.Port.{u16}
use bootloader_kernel_in_nas.Pmm.{Pmm, pmm_init}
use bootloader_kernel_in_nas.Vmm.{Vmm}
use bootloader_kernel_in_nas.Vmm.Boot.{vmm_init}
use bootloader_kernel_in_nas.Idt.{codes}

-- The text buffer at VGA_ADDR, one cell of 16 bits at each index, and the memory manager.
pub record Kernel : Type 0 where
  pub screen : ℕ → ℕ
  pub vmm : Vmm

-- `for (p = __bss_start; p < __bss_end; p++) *p = 0;`, with `left` rounds to go
unfoldable pub zero_bytes : (left p : ℕ) → (ℕ → ℕ) → ℕ → ℕ
zero_bytes zero p mem = mem
zero_bytes (suc left) p mem = zero_bytes left (p + 1) (update mem p 0)

-- `for (i = 0; msg[i] != '\0'; i++)`
unfoldable pub hello_loop : (msg : List ℕ) (i : ℕ) → (ℕ → ℕ) → ℕ → ℕ
hello_loop [] i v = v
hello_loop (c ∷ msg) i v = hello_loop msg (i + 1) (update v i (bit_or c (u16 (0x07 * 2 ^ 8))))

abbrev pub msg : List ℕ
msg = codes "HELLO WORLD!"

-- The static variables of pmm.c stand in .bss.
abbrev pub zeroed_pmm : Pmm
zeroed_pmm = record { g_frame_bitmap = λ i. 0; g_phys_ceiling = 0 }

-- The kernel at its endless `hlt`, with the result of `vmm_init`. The linker's symbols, the stack
-- pointer and the memory map behind `bootinfo_ptr` are arguments.
unfoldable pub kmain :
    (bss_start bss_end kernel_start kernel_end rsp : ℕ)
    → List E820Entry
    → (e820_count : ℕ) → Kernel
    → Option (Bool × Kernel)
unfolding zero_bytes hello_loop
kmain bss_start bss_end kernel_start kernel_end rsp e820_map e820_count k =
    let mem = zero_bytes (bss_end - bss_start) bss_start k.vmm.mem in
    let screen = hello_loop msg 0 k.screen in
    pmm_init kernel_start kernel_end e820_map e820_count zeroed_pmm >>= λ pmm.
    vmm_init kernel_start kernel_end rsp (record k.vmm { mem = mem; pmm = pmm })
    >>= λ (success, vmm). some (success, record { screen = screen; vmm = vmm })
