-- ===== src/Lib.antt =====
-- CoolFrost, a 64-bit x86 kernel: the parts of the kernel that keep their own state, modelled
-- function by function, with the theorems that make them correct.
--
-- The parts, and how they interact. The kernel heap (libc/heap.c) hands out slots of blocks of
-- memory by a bitmap of byte ids; kmalloc and kfree (libc/mem.c) stand on it, and keep the
-- heap's pointer in the word below each pointer they return. The scheduler (cpu/sched.c) takes
-- the kernel stack of each task from kmalloc, builds the first interrupt frame on it, keeps the
-- tasks in four rings, one for each priority, and switches tasks at the end of an interrupt. A
-- system call (cpu/syscall.c) checks the pointers it gets from a task by is_user_range
-- (cpu/paging.c), which walks the page tables of the address space that is loaded (cpu/vmm.c).
-- Interrupt handlers put input events in the queue of ui/event.c; the virtual file system keeps its
-- descriptors in the tasks; libc/ringbuf.h is the ring for streams of bytes.
--
-- The files. A component is a file with the definitions; the files below it hold its
-- proofs, named for what they prove, and its tests.
--   Prelude: names of the library, Boolean tests, lists indexed by a native number, words of
--     8, 32 and 64 bits with their wrap-around.
--   Heap: libc/heap.h and libc/heap.c. `Block` is KHEAPBLOCKBM with its bitmap, `Heap` is KHEAPBM;
--     `Heap.init`, `new_block`, `add_block`, `get_nid`, `alloc` and `Heap.free` are the k_heapBM
--     functions. Heap/Bitmap: runs of ids. Heap/Scan: the search. Heap/Take and Heap/Free: what
--     taking and freeing do to one block. Heap/Alloc, Heap/Blocks, Heap/Contract: the list of
--     blocks. Heap/Fresh: a new block.
--   Kmem: kmalloc and kfree of libc/mem.c. Kmem/Laws: what they promise.
--   Sched: cpu/sched.h and cpu/sched.c, a state `Sched` for the static variables, one function
--     for each function of the file. Sched/Types: the data. Sched/Rings, Sched/Listed: a queue as
--     a ring and what it lists. Sched/Inv: the invariant. Sched/Pick, Sched/Irq, Sched/Choice: the
--     interrupt's end. Sched/Submit: submission, with its proofs below it. Sched/Ops: every
--     operation as a step relation.
--   Ringbuf: libc/ringbuf.h. Ringbuf/Contents, Ringbuf/Pop: one byte in or out, as operations on
--     the list of bytes held. Ringbuf/Bulk: many bytes.
--   Event: ui/event.c. Event/Pushes: the queue as a bounded list. Event/Mouse: what a report of the
--     mouse adds.
--   Paging: in_range and is_user_range of cpu/paging.c, vmm_range_mapped of cpu/vmm.c. Paging/Walk:
--     the walk through the tables. Paging/Ranges: the checks.
--   Utf8: libc/utf8.h and the decoding of libc/utf8.c. Utf8/Bits: masks as arithmetic. Utf8/Decode,
--     Utf8/Encode, Utf8/RoundTrip: code points to bytes and back.
--   Vfs: fs/vfs.c, from paths to nodes. Vfs/Types: the data, and the drivers as a record of functions.
--     Vfs/Longest: the mount of a path. Vfs/Walk, Vfs/Parent: the walk along a path. Vfs/Files: open
--     files, with Vfs/Files/Table on the tables of descriptors. Vfs/Mounts: mounting, with
--     Vfs/Mounts/Slots and Vfs/Mounts/Unmount.
--   Vmm: the rest of cpu/vmm.c, address spaces over kmalloc. Vmm/Owned: the pages they own.
--   Syscall: cpu/syscall.c, a function for each case of syscall_dispatch: Syscall/Files, Syscall/Sbrk
--     and Syscall/Screen, put together in Syscall/Dispatch. The files named Confined say what memory
--     a call writes, those named Refusal what it does with a bad pointer; Syscall/Sbrk/Break follows
--     the end of a heap, and Syscall/Sbrk/Pages the pages mapped up to it.
--   Str: libc/string.c, on arrays with their zero byte. Str/Compare: strcmp. Str/Numbers:
--     str_to_uint64 and str_to_int64, with Str/Numbers/Numerals and Str/Numbers/Exact on the numerals
--     they read.
--   Links: libc/list.h. Links/Ring: the ring of pointers. Links/Ring/Unlink: taking a node out.
--     Links/Ring/Order: any operations in any order.
--   Sort: libc/sort.c. Sort/Permuted: what sorting does to an array in any case.
--     Sort/Insertion, Sort/Partition, Sort/Quicksort: it is sorted. Sort/Search: binary search.
--   Arp: net/arp.c without arp_resolve. Arp/Cache: the cache as a map.
--   Ctype: libc/ctype.c, for characters that are not negative. Ctype/Laws: the classes and cases.
--
-- Words and memory. A size_t, a pointer or a register is a number, and each addition or
-- subtraction that the code leaves to wrap is written with its modulus. Memory that the code
-- reads back (the word below a pointer, the first frame of a task) is a function from addresses to
-- 64-bit words; the kernel's fixed addresses are a record `Layout`.
--
-- User memory is a function from addresses to bytes, apart from the words in which the kernel keeps
-- its page tables: a copy to a range that is_user_range accepts is taken to leave those alone. The
-- drawing functions of gfx/gfx.c and the printing of drivers/screen.c are a record `Display` of
-- functions on a state of their own, and the drivers below fs/vfs.c a record `Drivers`. The bytes of
-- padding in a struct that is copied to a program are an argument.
--
-- Loops. A loop with a bound in the code is recursion on the steps left. The search of k_heapBMAlloc
-- is recursion on fuel, and one round more than there are slots is enough; k_heapBMGetNID takes
-- three rounds at most; the loop of vmm_range_mapped takes at most as many as the window has pages;
-- all are proved.
--
-- Not modelled: device drivers, the file systems below fs/vfs.c, the network but for ARP, the
-- windows, and the user programs, which are mostly port and memory-mapped input and output; the
-- assembly of boot/ and cpu/, which the operations of the scheduler meet only through the stack
-- pointer they are given and return.
-- Interrupts are masked in each operation that is a step here, so a step is atomic; a second
-- processor runs no task in this version of the kernel.
pub mod Prelude
pub mod Heap
pub mod Kmem
pub mod Sched
pub mod Ringbuf
pub mod Event
pub mod Paging
pub mod Utf8
pub mod Ctype
pub mod Vfs
pub mod Str
pub mod Links
pub mod Sort
pub mod Arp
pub mod Vmm
pub mod Syscall
