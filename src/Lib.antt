-- ===== src/Lib.antt =====
-- The kernel of ownOS: a model of its memory management, its timers, its scheduler, the making
-- of its processes, its kernel calls, its messages, its reading of files and loading of
-- programs, its output of text and its routines on bytes, with the theorems that make them
-- correct.
--
-- The program. kernel/PFAllocator.cpp hands out page frames, from a list of free ranges and a
-- list of used ones; kernel/VarMem.cpp maps pages to such frames. kernel/Timer.cpp keeps a
-- sorted list of timers, and kernel/timerHandler.cpp acts on those that have run out: a timer of
-- kind `TaskSwitch` asks for a switch, one of kind `Wakeup` wakes a task. kernel/Process.cpp
-- keeps the run queues of four levels, and kernel/task.cpp chooses the process that runs, gives
-- it a new quantum, and puts processes to sleep. kernel/FileSystem.cpp reads spans of a file by
-- blocks, which kernel/Ext2.cpp finds on the disk. kernel/Descriptor.cpp writes the segment and
-- gate descriptors. kernel/kmalloc.cpp keeps the kernel's heap in a chunk of the page frame
-- allocator. kernel/Ipc.cpp passes messages between processes, through the queues of
-- include/os/KType.hpp, and puts them to sleep and wakes them by kernel/task.cpp. kernel/irq.cpp
-- takes the kernel calls: `exec`, which kernel/elf_loader.cpp serves, `send` and `recv`, and
-- `fork`, with which kernel/task.cpp copies the running process. At the start
-- kernel/mbi_read.cpp hands the free memory to the page frame allocator, and `init_tasks` makes
-- the first two processes. kernel/string.cpp has the routines on bytes, and kernel/tk_printf.cpp
-- writes text to the screen.
--
-- The files.
-- Prelude: the names that all modules share; words, integers, lists and Boolean tests.
-- PfAllocator: kernel/PFAllocator.cpp and include/os/PFAllocator.h. `get_seg`, `add_chunk`,
-- `used_chunk` are in PfAllocator.antt, `alloc_chunk`, `free_chunk`, `remove_chunk` in
-- PfAllocator/Alloc.antt. The segments are an array and the lists chains of indices, since the
-- code shares segments between lists. Chain, State and Pages say what the chains hold; Insert
-- says what the walks of `addChunk` and `usedChunk` do to lists of ranges.
-- Timer: kernel/Timer.cpp and kernel/timerHandler.cpp; `timer_handler` takes `wakeup` as a
-- parameter.
-- Descriptor: `set_segdesc` and `set_gatedesc`; Decode is the processor's reading of the fields.
-- Descriptor/Tables.antt: `initIDT`, `initGDT`, `lidt` and `lgdt`; Gates says what the tables
-- hold.
-- VarMem: the entries, `enableSpace`, `mapping_pmem`, `copyKernelDir` and `vir2phy` of
-- kernel/VarMem.cpp; the allocator of frames is a parameter. Mapping and Kernel say what is
-- mapped afterwards, Enable that `enableSpace` returns. VarMem/Paging.antt is `initPaging`: Loops
-- and Straight are about the straight mapping, Screen about that of the screen, Wraps about both.
-- Process: `enque`, `deque` and `getProc` of kernel/Process.cpp and include/os/Process.h.
-- Task: `schedule`, `sleep` and `wakeup` (`wake_up`) of kernel/task.cpp over Process and Timer.
-- What `schedule` does to the processor is a list of effects.
-- Fork: `fork`, `clone_mm`, `copy_process`, `setup_stack`, `after_exec` and `ret_from_fork` of
-- kernel/task.cpp, over Process, Task and VarMem. The state is a `World`: the kernel's state,
-- the regions and the stack of every process, the memory, and the frames of the allocator, which
-- is a parameter. Space is about the copy of the regions, Pages about that of a page, Rooms and
-- Table about the table of processes, Child and Birth about what `fork` makes. Fork/Init.antt
-- has the constructors and `makeSysProc` of kernel/Process.cpp, `init_tasks` of kernel/task.cpp
-- and `setFrame2TSS` of kernel/Tss.cpp; Make and Ready say what they make.
-- Elf: kernel/elf_loader.cpp and kernel/exec.cpp. Ident says which files are loaded, Load what
-- loading does to the world and which parts of the file it reads.
-- Irq: `kernelCall` of kernel/irq.cpp, over Fork, Elf and Ipc; Calls is about `fork`, Exec about
-- `exec`.
-- Boot: kernel/mbi_read.cpp over PfAllocator; Map is about the memory map.
-- File: `File::read` (`read`) and `File::read_block` of kernel/FileSystem.cpp, and in
-- File/Path.antt `fopen`. What fills a block, and the inode for a path, are parameters.
-- Kmalloc: kernel/kmalloc.cpp and include/os/kmalloc.h. The headers are words of memory, with
-- the mark of a block in use in the pointer to it, as in the code. Blocks is the heap as a list
-- of blocks, Spec the allocation on such a list, Alloc and Free compare the code with it; Exact
-- is the block that is taken whole.
-- Que: the classes Lessor and Que of include/os/KType.hpp, with rooms, pointers and leases.
-- Links and Rooms are the two halves of the invariant, Order and Take compare the code with a
-- list, Full is the queue at its bounds.
-- Ipc: kernel/Ipc.cpp, and `wait_interrupt` and `notify` of kernel/task.cpp, over Que, Process
-- and Task.
-- Strings: kernel/string.cpp; Copy, Compare, Number, Digits and Hex are about its routines.
-- Console: kernel/tk_printf.cpp; Screen is about the cursor, Itoa about numbers, Printf about
-- formats.
-- Ext2: `read_block_pos` of kernel/Ext2.cpp; Tree is its description by trees of a depth.
-- Ext2/Directory.antt: `get_inode`, `get_inode_path` (`walk_path`) and the search of a
-- directory. What is on the disk is a parameter.
--
-- Words and numbers. A word is a native number, and its operations wrap around where the code's
-- do. The clocks of a timer are integers without a bound: a timer never has more than 2^31 of
-- them. The addresses of the routines on bytes and of the queues' rooms do not wrap around.
--
-- Fuel. The walks of the allocator along a chain run on fuel, one more than the number of
-- segments; the theorems on `alloc_chunk` and `free_chunk` say that the calls return or panic,
-- so it is enough for chains without a repeated segment. The walks of `kmalloc` and `kfree` run
-- on fuel, and as much as there are blocks is enough, which the theorems on them state; a heap
-- that has no end to its walk gets no answer from any fuel. The loop of `clone_mm` over the
-- pages of a region runs on fuel for every page of 32 bits of addresses and one, which is enough
-- for a region that ends below the last page; the walk over the memory map needs more fuel than
-- there are entries. The other loops run over lists, or over a fixed number of levels or rooms.
--
-- Not modelled. The assembly, the drivers of the disk, the order of the start-up code and the
-- user programs; the super block, the strings and vectors of
-- include/os/Utilclass.hpp, and the handlers of exceptions, which print and loop. The bytes that
-- a loaded program brings into the memory are left out, and so are the addresses that the routines on
-- bytes return, but for that of `memmove`. The flag of the interrupts, which
-- `kmalloc` and `kfree` clear and restore, and what is printed are left out. `kmalloc` stands
-- behind the lists of timers; it panics rather than return nothing. `kfree` leaves the link of a
-- freed timer as it is until the walk has read it.
pub mod Prelude
pub mod PfAllocator
pub mod Timer
pub mod Descriptor
pub mod Process
pub mod Task
pub mod File
pub mod Ext2
pub mod VarMem
pub mod Strings
pub mod Console
pub mod Kmalloc
pub mod Que
pub mod Ipc
pub mod Fork
pub mod Elf
pub mod Irq
pub mod Boot
