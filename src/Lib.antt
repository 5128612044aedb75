-- ===== src/Lib.antt =====
-- AION: a kernel that boots from UEFI and hands the machine to a language model. The model's output
-- is scanned for actions, and the actions drive the hardware.
--
-- Kernel models kernel/. Kernel/Memory is kernel/memory/memory.c: Bitmap and Pmm are the manager of
-- physical frames (`pmm_init`, `pmm_alloc`, `pmm_alloc_contiguous`, `pmm_free` over `phys_bitmap`,
-- `phys_total_pages` and `phys_free_pages`), Vmm the page tables (`vmm_get_pte`, `vmm_map`,
-- `vmm_unmap`, `vmm_virt_to_phys`, `vmm_init`), Swap the page fault handler, Kmalloc the bump
-- allocator, Setup `memory_init`, and Status `memory_get_status` with the system call of
-- kernel/syscall/syscall.c. Kernel/Arch is kernel/arch/x86_64/: Gdt is gdt.c, Pic and Idt are
-- idt.c. Kernel/Io is kernel/include/io.h. Kernel/Drivers is kernel/drivers/: Serial is serial.c,
-- Display display/display.c, Pci pci/pci.c, Audio audio/audio.c, and Devices the drivers of NVMe,
-- USB, network, camera and microphone, with kernel/fs/fs.c and kernel/process/scheduler.c.
-- Kernel/Boot is kernel/kernel.c: `kernel_main` as a sequence of stages that call these parts.
-- Consciousness models consciousness/. Text has the C strings and the functions of <string.h>.
-- Action is core/action.c: Params has the two parameter parsers, Results the array of results,
-- Handlers the fourteen handlers, and Dispatch the table and the loop over the output. Memory is
-- memory/aion_memory.c: Disk has what it writes, the module itself the store with its eviction,
-- flush, load and search. Senses is senses/senses.c, Llm runtime/llm.c, and Life the loop of
-- core/consciousness.c: it feeds what Senses captures to Llm, runs the output with Action, and puts
-- it into Memory.
--
-- Definitions keep the names of the functions and the order of their statements. State is passed
-- explicitly: a record holds the static variables of a component. A number of the machine is an ℕ
-- whose wrap-around is written out. A C string is the list of its bytes before the terminator. A
-- pointer is its address; memory that the page tables live in is a function from the address of a
-- word to its value, and the framebuffer one from the address of a pixel to its colour. Ports,
-- Services, Files, Llama and Machine are interfaces: the machine behind the ports, the drivers that
-- the handlers call, the file operations, llama.cpp, and the parts that the life loop reads, are a
-- type of states with operations; `signed_overflow` of Services is what the compiled code leaves of
-- a number that overflows `int64_t`, which C leaves undefined. Of Files nothing is assumed: the
-- file operations of the program are `fs_files` of Kernel/Drivers/Devices, which fail. What the
-- source relies on is a record of laws: HasMasks of the interrupt controllers, HasConfig of the PCI
-- bridge, IsUart of the serial port, and IsBatched of the tokenizer. The contents of an
-- uninitialised array are a parameter. `none` is a fault: a division by 0, or an access past the
-- end of an array.
--
-- Loops are recursion on the rounds that are left, which their bounds give. The scan of an output
-- takes fuel: one more than the length of the output is enough, since every round moves on. The two
-- loops of the square root take 16 rounds, since `bit` is a power of 4 up to 2 ^ 30. The digits of
-- a number take 64 rounds, more than any number of 64 bits has; each of them divides by 2 at least.
-- The wait for the serial port takes a number of polls, which has to exceed the time that the port
-- stays busy. The loop of `consciousness_run` has no end; its model runs the first n rounds.
--
-- Logging is left out: what the kernel prints by `serial_printf` changes no state that is modelled,
-- and the arguments of `record_result` are not read by the source. Not modelled are the UEFI loader
-- bootloader/bootloader.c, whose work is calls of firmware, the assembly of
-- kernel/arch/asm/entry.asm, and the build scripts.
pub mod Prelude
pub mod Kernel
pub mod Consciousness
