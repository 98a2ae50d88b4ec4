-- ===== src/Tests.antt =====
-- Tests and the theorems at concrete inputs, by component.
mod Links
mod Slab
mod Partitions
mod Mounting
mod Fat
mod Pmm
mod CString
mod Files
mod Drives
mod Threads
mod Keyboard
mod Handles
mod Mutexes
mod Scheduling
mod Config
mod Initrd
mod Iterators
mod Vectors
mod Registration
