-- ===== src/Lib.antt =====
-- The verification of vm-memory, a library for the physical memory of a virtual machine that runs
-- in another process.
--
-- Parts, and the file that models each (source paths from the repository's root):
--   Base: shared names, u64 arithmetic (Word), outcomes of calls (Results), byte lists (Lists).
--   Address: src/address.rs, `Address` of `GuestAddress` and `MemoryRegionAddress`.
--   RemoteMem: src/remote_mem.rs, `process_read`, `process_write`, `process_load`, `process_store`.
--   CopySlice: src/volatile_memory.rs, the copy between slices of this process's memory.
--   Volatile: src/volatile_memory.rs, `VolatileSlice`, `VolatileRef`, `VolatileArrayRef`;
--     `Volatile.Streams` its reads and writes from and to streams, `Volatile.ByteCopy` the copies for
--     types of one byte.
--   Endian: src/endian.rs, `Le16` to `LeSize` and `Be16` to `BeSize`.
--   AtomicTypes: src/atomic_integer.rs, `AtomicInteger`, and the types of src/bytes.rs that implement
--     `ByteValued` and `AtomicAccess`.
--   ByteValued: src/bytes.rs, `ByteValued`, and `write_obj` and `read_obj` of `Bytes`.
--   Region, Memory: src/guest_memory.rs, the traits `GuestMemoryRegion` and `GuestMemory` with their
--     provided methods, `try_access` and `check_range` among them, over any implementation of the
--     required methods; `Memory.Access.IsGuestMemory` is what an implementation owes. `Region.Host`
--     and `Memory.Host` have the methods that lead to memory of this process, `Memory.Regions` those
--     that go through all regions.
--   Bytes, GuestBytes: `Bytes<GuestAddress>` for a `GuestMemory`, over any regions.
--   MmapUnix: src/mmap_unix.rs, `MmapRegion`, and `check_file_offset` of src/mmap.rs.
--   MmapWindows: src/mmap_windows.rs, `MmapRegion` of Windows.
--   Mmap: src/mmap.rs, `GuestRegionMmap` and `GuestMemoryMmap`; `Mmap.Layout` is its invariant,
--     `Mmap.Ranges` its construction from ranges, `Mmap.History` any sequence of its changes.
--   RegionBytes: src/mmap.rs, `Bytes<MemoryRegionAddress>` for `GuestRegionMmap`.
--   GuestMmap: the three put together, the bytes of a guest in the memory of its process
--     (`GuestMmap.Within`: accesses inside one region), its objects, and the streams in and out of it
--     (`GuestMmap.Fill`, `GuestMmap.Copy`, `GuestMmap.Streams`), and its atomic accesses.
--   AtomicMemory: src/atomic.rs, `GuestMemoryAtomic` with its guards, as a system of threads; in
--     `AtomicMemory.History` the threads change the map one after another.
--   AtomicMmap: a `GuestMemoryMmap` behind a `GuestMemoryAtomic`.
--   Text: the `Display` of the errors of all these files.
-- The modules below a part prove its theorems; those named Tests hold concrete inputs.
--
-- State: the memory of the processes is an abstract state that the system calls read and change;
-- a function that changes it returns the new one. A buffer that is filled comes back as a second
-- result. A value of type `T` is the list of its bytes. `Ok`, `Err` and a panic are constructors of
-- `Outcome`, and so is `stuck`, which stands for a loop that has used up its fuel.
--
-- Threads: a state of the system has the shared object and of each thread where it stands and what it
-- holds. One move of one thread is a function into `Option`, which gives `none` where the thread
-- cannot make it now; any sequence of moves of any threads is an interleaving. A thread that locks the
-- mutex while another holds it waits, one that locks it while it holds it itself is blocked for good or
-- panics, and a guard may be leaked, which keeps the mutex locked.
--
-- Numbers: u64 and usize (64 bits) are natural numbers, and `+` and `-` of the source wrap modulo
-- 2 ^ 64, as in a release build; an explicit check, `assert!` or `unwrap` is a panic.
--
-- Fuel: `try_access` has one round more than bytes are asked for. A round that goes on has made
-- progress, so that this is enough for a callback that takes no more than it is offered
-- (`Memory.Access.try_access_lem`). The loops that repeat an interrupted read or write have their
-- number of attempts as an argument.
--
-- Not modelled: the warning that the drop of a Windows mapping prints, the iterator over the regions
-- (it is the list of them), and the benchmarks.
--
-- Parameters: the system calls (`RemoteMem.ProcessVm`, with the documented behaviour in
-- `RemoteMem.IsProcessVm`), the operating system's mappings (`MmapUnix.Os`), the Windows API
-- (`MmapWindows.WinOs`), the cell of the `arc_swap` crate (`AtomicMemory.ArcSwap`), readers and writers
-- (`Bytes.Reader`, `Bytes.Writer`, `Volatile.Streams.ExactReader`), the atomic types of the standard
-- library (`AtomicTypes.StdAtomic`), and how numbers and errors of the system are printed
-- (`Text.Format`). `binary_search_by_key`,
-- `sort_by_key`, `align_to` and `swap_bytes` of the standard library are written out by what they give,
-- the search for a sorted slice, and the sort as a stable one.
pub mod Base
pub mod RemoteMem
pub mod Address
pub mod CopySlice
pub mod Volatile
pub mod Region
pub mod Memory
pub mod MmapUnix
pub mod MmapWindows
pub mod Mmap
pub mod Bytes
pub mod GuestBytes
pub mod RegionBytes
pub mod AtomicMemory
pub mod Endian
pub mod ByteValued
pub mod AtomicMmap
pub mod GuestMmap
pub mod AtomicTypes
pub mod Text
