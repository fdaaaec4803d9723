-- ===== src/Lib.antt =====
-- A model of the core of the System/28 kernel (C++ and C, under kernel/), with its theorems.
--
-- The kernel boots through the Limine protocol, takes the bootloader's memory map, builds a list of
-- free pages from it (kernel/src/mm/pmm.cpp), builds the page tables that it runs on
-- (kernel/src/hal/vmm.cpp), and puts a first-fit heap on top of the pages (kernel/src/mm/heap.cpp).
-- The memory and string functions (kernel/src/mm/mem.c, kernel/src/libs/string.c) serve all of them.
-- It then reads the firmware's tables (kernel/src/hal/acpi.cpp), starts the other cores
-- (kernel/src/hal/cpu/smp/smp.cpp), sets up the interrupt controllers
-- (kernel/src/hal/cpu/interrupt/apic.cpp), and reads the first module of the bootloader as a ramdisk
-- (kernel/src/obj/mod.cpp, kernel/src/obj/tar.cpp). Log lines go to a terminal and to the serial port
-- (kernel/src/terminal/terminal.cpp, kernel/src/hal/debug/serial.cpp).
--
-- Files:
--   Base, Base/*      names and lemmas that the others share: tests, lists, words, integers.
--   Memory            bytes, and little-endian words of 4 and 8 bytes.
--   Mem, Strings      kernel/src/mm/mem.c and kernel/src/libs/string.c; Strings/Laws has the theorems.
--   Machine           the memory together with the globals of the allocators and of the paging code,
--                     and HHDMVirtToPhys and HHDMPhysToVirt.
--   Blocks            what a list of nodes in memory stands for: a list of disjoint blocks.
--   Pmm, Pmm/*        InsertNode, RemovePage, InitializePMM, AllocatePage, FreePage. Pmm/Invariant has
--                     the free list's invariant, Pmm/Pages the two operations against the blocks,
--                     Pmm/Stack the abstract view as a stack of pages, Pmm/Init the start-up.
--   Vmm, Vmm/*        GetNextLevel, MemoryMap, InitPaging, LoadKernelCR3. Vmm/Entry is about the bits of
--                     an entry, Vmm/Tree about the tables as a tree, Vmm/Written and Vmm/Rewrite
--                     about changing one entry of the tree, Vmm/Descend about GetNextLevel (with Vmm/NewTable), Vmm/Translate is the
--                     processor's walk, Vmm/Walk is about the steps of MemoryMap and Vmm/Map about
--                     its calls, Vmm/Region, Vmm/Range and Vmm/Boot about the loops of InitPaging,
--                     Vmm/Fresh about the empty page map that it starts from.
--   Heap, Heap/*      ExpandHeap, FindSuitableNode, InitializeHeap, Allocate, Free, Reallocate.
--                     Heap/Lists has the invariant, Heap/Carve and Heap/Serve are about a block that is handed out,
--                     Heap/FirstFit about the search, Heap/Grow is about ExpandHeap,
--                     Heap/Exhausted about a heap without a block that fits, Heap/Resize about Reallocate,
--                     Heap/Overrun about blocks with less than a header to spare, Heap/New has new and delete of
--                     kernel/src/libs/kernel.cpp and the destructors, Heap/Reuse is about them, and
--                     Heap/DoubleFree about the destructor of TarObject.
--   Idt, Idt/Laws     the gates and the keyboard handler of kernel/src/hal/cpu/interrupt/idt.cpp.
--   Acpi, Acpi/*      kernel/src/hal/acpi.cpp: checksum, mapping and search of the tables, the timer
--                     (Acpi/Laws, Acpi/Timer), PerformACPIReboot (Acpi/Reboot), and the lines that InitializeACPI logs
--                     (Acpi/Profile).
--   Apic, Apic/*      kernel/src/hal/cpu/interrupt/apic.cpp: redirection entries and overrides (Apic/Laws),
--                     the search of the MADT (Apic/Madt), the local APIC (Apic/Local), InitializeMADT and
--                     InitializeIOAPIC (Apic/Setup, and Apic/Keyboard for what they leave).
--   Tar, Tar/*        kernel/src/obj/tar.cpp: the ramdisk's headers (Tar/Archive), octal numbers and
--                     look-up (Tar/Laws).
--   Terminal, Terminal/*  kernel/src/terminal/terminal.cpp: itoa (Terminal/Itoa, with its loops in
--                     Terminal/Digits and Terminal/Reversal and its string in Terminal/Ends), hexToString
--                     (Terminal/Laws), what the two write (Terminal/Buffers, Terminal/ItoaBuffer,
--                     Terminal/Numerals), PutChar, Print, Log (Terminal/Log; Terminal/Printing for its
--                     steps, Terminal/Rendering for a whole line).
--   Panic, Panic/*    Panic and PanicFromException of kernel/src/libs/kernel.cpp, with the exception handlers of
--                     idt.cpp; Panic/Report has the texts that they print.
--   Vector, Vector/*  the class Vector of kernel/include/libs/kernel.hpp; Vector/Growth is about one that only
--                     push_back has filled.
--   Serial, Serial/Laws  kernel/src/hal/debug/serial.cpp.
--   Gdt, Gdt/Laws     the descriptors of kernel/src/hal/cpu/gdt.cpp.
--   Modules, Modules/Laws  HandleModuleObjects of kernel/src/obj/mod.cpp.
--   Spinlock, Spinlock/*  kernel/src/hal/spinlock.c as steps of any number of cores: mutual exclusion
--                     (Spinlock/Exclusion), and a lock that its own holder waits for (Spinlock/Deadlock).
--   Smp, Smp/*        kernel/src/hal/cpu/smp/smp.cpp: the start of the other cores as steps, the waiting
--                     loop (Smp/Barrier), and a lost count (Smp/LostUpdate); SetupAllCPUs as a whole
--                     (Smp/Setup), what it leaves (Smp/Ready, with Smp/Apart), and its panics (Smp/Faults).
--   Start, Start/*    the memory part of _start in kernel/src/early/start.cpp: the page map that the
--                     processor is given (Start/Boot), and what it translates (Start/Mapped).
--   Cpu               kernel/src/hal/cpu.cpp, the loading of the tables, and CPUStartPayload of smp.cpp.
--   Bootloader        kernel/src/early/bootloader_data.cpp, and how the responses are read.
--   Kernel            _start, but for CPU::Initialize, the terminal and the serial port.
--   Examples, Examples/*  the theorems at concrete inputs.
--
-- An address is a number, memory is a function from addresses to bytes, and everything that the
-- kernel touches here is seen through the higher-half direct map, whose offset is the parameter
-- `hhdm`: the theorems take it to be a page boundary above 0 from which 2 ^ 52 bytes fit below 2 ^ 64.
-- Outside Spinlock, Smp and Panic, which has the locks on the way of a report, a function that takes a
-- spinlock is one step of the machine. Where AllocatePage faults, the machine records it. Addresses and
-- sizes wrap around at 2 ^ 64 where the code computes them. What a device or the processor's port
-- instructions do is a parameter (Apic, Serial), and so is what the heap answers to a vector, within
-- the largest object that its blocks hold (Vector, Tar, Modules).
--
-- Fuel: FindSuitableNode uses one unit for each block that it looks at, strlen and strcpy one for each
-- character, and their theorems say how much is enough. InitPaging's loops are counted, since each
-- round is one page.
-- MemoryMapACPITable uses one unit of fuel for each page, PMTMRSleep one for each reading of the timer,
-- FindAllInterruptControllers one for each structure, the walk over the ramdisk one for each header,
-- Log one for each character or directive of the format, and BlockUntilEmpty one for each reading.
--
-- Not modelled: the flanterm terminal library, the assembly files, the single privileged instructions,
-- the set-up of flanterm, and calls of Log outside the panics.
pub mod Base
pub mod Memory
pub mod Mem
pub mod Strings
pub mod Machine
pub mod Blocks
pub mod Pmm
pub mod Vmm
pub mod Heap
pub mod Idt
pub mod Acpi
pub mod Apic
pub mod Tar
pub mod Terminal
pub mod Vector
pub mod Serial
pub mod Gdt
pub mod Modules
pub mod Spinlock
pub mod Smp
pub mod Panic
pub mod Start
pub mod Cpu
pub mod Bootloader
pub mod Kernel
pub mod Examples
