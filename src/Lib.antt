-- ===== src/Lib.antt =====
-- Verification of the OBOS kernel (src/oboskrnl) and of its drivers (src/drivers).
--
-- The parts and how they meet. Programs and drivers reach files, input devices and drives through
-- handles; a handle refers to a node of the virtual file system and is a member of the list of
-- handles that the node carries. Threads are members of two lists, one for the scheduler and one
-- for their process, and thread handles move them between these. Both kinds of nodes come from the
-- slab allocator, which keeps its objects in the same kind of list. The keyboard driver turns scan
-- codes into the keys that a file handle on an input device reads.
--
-- Prelude: Boolean tests on numbers, lists, 64-bit and 32-bit words, shared by everything.
-- Outcome: how a call ends: it returns, it accesses memory that it may not, or it does not return
--   within the fuel or the events that it is given.
-- Links: the intrusive doubly linked list that the kernel writes out wherever it keeps one, with its
--   well-formedness (Chain), adding at the end (Append), removal (Remove), and the move of a node
--   from one list to another (Transfer): FreeListNode in src/oboskrnl/allocators/slab.cpp, HandleList
--   in src/oboskrnl/vfs/vfsNode.h. Pointers are numbers, 0 is nullptr, and a store maps an address to
--   its fields.
-- CString: strCountToChar and strcmp (src/oboskrnl/x86_64-utils/memory_manipulation.asm and
--   src/oboskrnl/boot/x86_64/kmain_arch.cpp), getMountId and strContains
--   (src/oboskrnl/vfs/fileManip/fileHandle.cpp), dividePathToTokens
--   (src/oboskrnl/vfs/mount/mount.cpp) and pathStrcmp
--   (src/oboskrnl/vfs/fileManip/directoryIterator.cpp).
-- Slab: ImplSlabAllocate, ImplSlabFree, SlabHasObject, ExpandFreeList and SlabInitialize
--   (src/oboskrnl/allocators/slab.cpp). The sizes of the objects and the addresses of the blocks that
--   the virtual memory manager returns are parameters; the clearing of a freed object is not part of
--   this model.
-- Pmm: src/oboskrnl/arch/x86_64/memory_manager/physical/allocatePhys.cpp, the list of free memory
--   and its allocation. The lock and the interrupt flag are Booleans; a call that waits for the lock
--   does not return.
-- Vfs: the nodes and the searches (SearchForNode, GetUserInputDevice, mount points), FileHandle for
--   src/oboskrnl/vfs/fileManip/fileHandle.cpp (Open, Read, Write, SeekTo, Close, Eof, GetFileSize),
--   and Drives with DriveHandle for src/oboskrnl/vfs/devManip/driveHandle.cpp (OpenDrive,
--   ReadSectors, WriteSectors, the queries, Close). File system and storage drivers are loaded code:
--   their functions are parameters. The last error is a field of the state.
-- Threads: src/oboskrnl/multitasking/thread.h with its lists, and Handle for ThreadHandle and
--   ExitThreadImpl (src/oboskrnl/multitasking/threadAPI/thrHandle.cpp). Bits of a status are Booleans;
--   calls of the scheduler, stacks, processes and deletions are written to a log. A deleted thread is
--   cleared, as the slab allocator does it. What SlabHasObject answers in ExitThreadImpl is an
--   argument, of which Slab shows what it is.
-- Keyboard: src/drivers/x86_64/ps2Keyboard, the table of scan codes, sendCommand and
--   keyboardInterrupt. What the ports give is a list in the state; the keys written, the bytes sent
--   and the ends of interrupt are a log.
-- BootConfig: src/oboskrnl/boot/cfg.cpp. Values is about the conversion of values with Numbers, Lexing
--   about the lexer's end, Printing, Parsing and Settings about reading back what is written line by line. The branch of
--   ProcessDataToken for arrays is left out, and a message that overruns its buffer is a fault.
-- Devices: src/oboskrnl/driverInterface/register.cpp, with Ids about the numbers of drives.
-- Vector: src/oboskrnl/utils/vector.h, with Laws about the lists that vectors hold.
-- Vfs.Iterators: DirectoryIterator and DriveIterator (src/oboskrnl/vfs/fileManip/directoryIterator.cpp,
--   src/oboskrnl/vfs/devManip/driveIterator.cpp).
-- Initrd: the archive of the initial RAM disk (src/drivers/generic/initrd), with its cache.
-- Vfs.Mounting: src/oboskrnl/vfs/mount/mount.cpp, with Paths and Files about the tree of a mount point's
--   entries, and Table for the mount points and their ids.
-- Partitions: the partition managers, src/drivers/x86_64/mbr/main.cpp (Mbr, with Active about its
--   active entries) and src/drivers/generic/gpt/main.cpp (Gpt, with Numbered, Verified and Ends about it), over
--   the handles of drives; Crc is the checksum of GPT, with Register, Bitwise and Pieces about it.
-- FileIterators: the iterators that the drivers for the initial RAM disk and for FAT keep.
-- Fat: the FAT driver, src/drivers/generic/fat, with Directory for the entries of a directory and their
--   names, and Reading for the reads from the clusters of a file.
-- Hashmap: utils::Hashmap (src/oboskrnl/utils/hashmap.h); Finding, Refinement, Placing and Removing
--   relate it to functions from keys to values. HandleTable: the handles of a process over it
--   (src/oboskrnl/arch/x86_64/syscall/handle.cpp).
-- Mutex: locks::Mutex (src/oboskrnl/multitasking/locks/mutex.cpp) as turns of threads, callers of
--   Unlock, the destructor and the timer in any order (Alone, Expired).
-- Scheduler: src/oboskrnl/multitasking/scheduler.cpp, with schedule in Switch; Runnable is about the
--   search in one list, Rounds about the choice of a list, Search about the passes over the lists and
--   Running about schedule. Locks of the lists are left out; what block callbacks answer is a
--   parameter.
-- Tests: the theorems at concrete inputs, and runs of the operations that these rest on.
--
-- Fuel: a search along links takes fuel for each node and the end. The searches of the slab
-- allocator and of the physical memory manager are shown to return with fuel for the length of the
-- list and one more, SearchForNode with fuel for two steps at each node and the end; the search of
-- the scheduler with fuel for eight passes, the choice of a list with fuel for one call of itself;
-- the lexer of the configuration returns within two rounds for each character and two more, and
-- the cache of the archive with a round for each entry and the end; the theorems on Open,
-- OpenDrive and OpenThread start from a call that has returned. The waits of Read and sendCommand
-- consume what arrives; a wait that outlasts it does not return.
--
-- Interleavings: interrupts and other processors are modelled where the code waits for them (Read,
-- sendCommand, Mutex); the handles' operations are otherwise taken one at a time.
--
-- Not modelled: the page tables and the virtual memory manager, processes, signals, the system
-- calls beside the handles', the ELF loader, the driver loader and the PCI scan, and the drivers
-- for ACPI and SATA, and the walk of the FAT driver over the directories of a partition, which are
-- further parts of the program; assembler entry code, the console and the logger, which are input
-- and output; the copies of stb_sprintf and liballoc, which are other projects.
pub mod Prelude
pub mod Links
pub mod Outcome
pub mod CString
pub mod Slab
pub mod Pmm
pub mod Vfs
pub mod Threads
pub mod Keyboard
pub mod Hashmap
pub mod HandleTable
pub mod Mutex
pub mod Scheduler
pub mod BootConfig
pub mod Devices
pub mod Vector
pub mod Initrd
pub mod Partitions
pub mod FileIterators
pub mod Fat
pub mod Tests
