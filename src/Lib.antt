-- ===== src/Lib.antt =====
-- A model of the kernel of MOS on RISC-V (the directories kern and include), of its file system server
-- (fs), of lib and of parts of the user library (user/lib), and what holds of them.
--
-- The kernel is one address space of 32-bit words. The model follows its layers:
--
--   Mmu        include/mmu.h and include/types.h: the constants and the macros on addresses and page
--              table entries, with `% 2 ^ 32` where the C code wraps around.
--   Pmap       kern/pmap.c and include/pmap.h: the state Mem holds the words of memory, the reference
--              count of each struct Page, the free list and the fences that were executed. page_alloc,
--              page_free, page_decref, pgdir_walk, page_lookup, page_insert, page_remove, tlb_flush
--              and va2pa keep their names; Pmap/Boot has the functions that run once, on the state Boot.
--              Pmap/Entries reads a page directory as a two-level table and says when it is well formed
--              (IsTable); the other children prove what the operations do to that table and to the free
--              list.
--   Disk       kern/disk_driver.c: the state Disk holds the descriptors, the two rings and the bitmap of
--              free descriptors of include/drivers/virtio_ring.h, with what the device writes.
--   Kernel     include/env.h, include/trap.h and the global variables of kern/env.c and kern/sched.c,
--              over Mem and Disk; the two intrusive lists are the sequences of their elements.
--   Env        kern/env.c: identifiers, env_init, env_setup_vm, env_alloc and env_free.
--   Sched      kern/sched.c with env_run and env_destroy of kern/env.c. Sched/Queue and Sched/Invariant say
--              when the two lists of environments are well formed (IsEnvs, IsOk).
--   Syscall    kern/syscall_all.c: each system call under its own name; messages and devices are in
--              Syscall/Message, syscall_table and do_syscall in Syscall/Dispatch.
--              Syscall/Safe, with Pmap/Safe and Disk/Safe, follows what the calls do to pointers and links.
--   Tlb        kern/tlbex.c: do_tlb_miss with passive_alloc, and do_tlb_mod.
--   Str        lib/string.c: each function under its own name.
--   Pipe       user/lib/pipe.c: pipe_read, pipe_write and _pipe_is_closed (`is_closed`), on the ring that the
--              two ends share.
--   Print      lib/print.c: print_char, print_str and print_num, with the buffer of the last as an array;
--              Print/Format has vprintfmt, and Print/Debug the buffer of user/lib/debugf.c behind it. The
--              sink is the list of the pieces that it was given. Print/Window, Rows and Number follow the
--              buffer, Field, Values and Items read a format back, Fine and Total show that it ends.
--   Elf        elf_load_seg of lib/elfloader.c, with its callback map_page as a parameter.
--   Bytes      memory by bytes, with 32-bit words of four.
--   Fs         the server of fs/fs.c and fs/ide.c: the state Server holds the bytes of its address space and
--              of the disk. Fs/Cache is the block cache, Fs/Blocks the bitmap and the start, Fs/File the
--              blocks of a file, Fs/Path directories and paths; Fs/Bitmap says when the file system is
--              mounted (IsMounted). A `struct File` is its address in the cache, and a C string given to the
--              server the list of its characters.
--   Serve      fs/serv.c: the state Service holds the table of open files, field by field, the file system
--              server's Server, the reference counts of its pages and the answers that were sent. open_alloc
--              and open_lookup are in Serve, the requests and the loop in Serve/Requests; the numbers of
--              entries stand for pointers to them. Serve/Table says when the table is well formed.
--   Fd         user/lib/fd.c: the state Space has the tables at vpd and vpt and each struct Fd in the frame
--              of its page. Fd has the numbers and addresses of descriptors, fd_alloc and fd_lookup;
--              Fd/Device has close, read, readn, write, seek and dup, on the devices of devtab. Fd/Keeps,
--              Share, Close and Undo follow one descriptor through the steps of dup.
--   Tests      runs on small states, for Env, Sched, Syscall, Tlb and Disk; those of Pmap are in
--              Pmap/Tests, those of Fs in Fs/Tests, those of Print, Serve and Fd in
--              their own Tests, and those of Str, Pipe and Elf in Tests/Library.
--
-- A procedure is a function from a state to a Run (Prelude/Proc): it returns a value, or an error of
-- include/error.h under the macro `try`, or enters user mode (`left`), or stops by a check in the code
-- (`panic`), or follows a pointer or list link that the C code never set up (`wild`).
--
-- In Fs the device carries out each request on a sector before the server goes on, a store leaves the page
-- dirty as the MMU does, an access to an address that is not mapped is `wild`, and what the kernel
-- answers to the server's requests for pages is the list `answers` of the state.
--
-- In Serve the fields of a request are read from its page at once, ipc_send is a record of the answer,
-- and clients may change the reference counts and any byte of memory between two messages; a void function
-- of fs.c returns to its caller in any case.
--
-- In Fd the devices are parameters, which give a result and a new state; a system call that maps a page
-- is answered by the list `answers`, and flags of the entry that the kernel adds are not looked at.
--
-- In Pipe what other environments do during syscall_yield is a parameter; between two yields the code is
-- taken to run without another environment at the ring, and only `is_closed` is modelled access by access,
-- on a history of the counts that it reads.
--
-- In Print an overflow of an int, the size of the buffer of print_num included, and an argument that is missing or has another type than the conversion
-- asks for, end in `undefined`; `endless` is a loop whose fuel was not enough. The answer of
-- syscall_print_cons is a parameter.
--
-- In Tlb the store of a trapframe to the user's exception stack through the MMU is the parameter `save`.
--
-- Fuel: memcpy and memset allow each of their loops as many rounds as there are bytes to write; the
-- other functions of Str, and those of Pipe, take their fuel as an argument; the loops of elf_load_seg
-- have two rounds more than whole pages; walk_path runs on one round more than the path has characters,
-- since each round takes one off, and so does vprintfmt; print_num has 32 rounds for its digits and as
-- many swaps as the width, debug_output one round more than there are characters, and readn as many
-- rounds as it is asked for bytes; page_init looks for the first free page in one round more than there
-- are pages, since page2kva stops at the last; free_chain runs on 33 rounds, since each round frees a
-- descriptor that was taken and there are 32 of them; the other loops of the code count to a bound and
-- recurse on what is left of it.
--
-- Parameters: Machine (Syscall) stands for what a call reads from user memory through the MMU and for
-- the console's input. The device is not modelled: what it writes are fields of Disk.
--
-- Not modelled: the rest of boot (riscv_kvm_map, mips_vm_init, virtio_disk_init), load_icode and
-- env_create, the table of handlers of kern/traps.c, the assembly, the backends of printk and fprintf,
-- the debugging code of pre_env_run and the checks of the labs, fstat and stat, the programs and the
-- rest of the library under user, and the tools.
pub mod Prelude
pub mod Bytes
pub mod Mmu
pub mod Pmap
pub mod Disk
pub mod Kernel
pub mod Env
pub mod Sched
pub mod Syscall
pub mod Tlb
pub mod Fs
pub mod Str
pub mod Pipe
pub mod Print
pub mod Serve
pub mod Fd
pub mod Elf
pub mod Tests
