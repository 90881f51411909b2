-- ===== src/Lib.antt =====
-- Verification of the kernel components of this repository.
--
-- The program is two bodies of C code. MimicOS is a teaching kernel: its physical page allocator
-- (MimicOS/src/kernel/mm/physical.c) hands out frames, its kernel heap (mm/mm.c) grows by such
-- frames and hands out blocks, its virtual file system (fs/vfs.c) keeps the registered file systems
-- and the mounted volumes and passes every call on a path or a handle to a driver, and its device
-- file system (fs/dfs.c) is one such driver, which passes handle calls on to the io_* functions. Its DMA
-- code (mm/dma.c) programs transfers. The
-- directory kernal holds studies of single mechanisms, of which the two-level page tables of
-- mem_management/mm/mmu.c and the device and bitmaps of a simulated disk, file_system/block.c, are
-- modelled. A second file system of the kernel, fs/fat.c, keeps files in clusters of a device that it
-- reaches through the virtual file system.
--
-- The files and what they model:
--   Base       numbers, bits, lists, the result type `Result` (done, fault for an access that the
--              hardware or the memory would not allow, spin for fuel that is used up), C's int
--   Physical   physical.c and physical.h: physical_isPageFree, physical_pageAllocAddress,
--              physical_pageAllocLimit, physical_pageAllocHigh, physical_pageAllocLow,
--              physical_pageAlloc and physical_pageFree as is_page_free, page_alloc_address, and so
--              on, and physical_init in Physical.Init; Bitmap, Search, Alloc, Free, Booting,
--              Clients and Serving hold the proofs
--   Paging     mm/paging.c and paging.h, each paging_xY as x_y, over the allocator of Physical; Mapping
--              and Creating hold the proofs
--   Heap       mm.c and mm.h, each mm_x as x: morecore, kmalloc, kfree and the rest;
--              Blocks reads the headers as a list, Coalesce, Glue and Freeing are about mm_kfree,
--              Allocating, Extending, Splitting, Keeping and Taking about mm_kmalloc
--   Vfs        vfs.h; Vfs.Mounting and Vfs.Files model vfs.c, each vfs_x as x (vfs_open is
--              open_file, vfs_list is list_dir); Chain, Appending, Unmounting and Access hold the
--              proofs
--   Dfs        dfs.h and io.h; Dfs.Ops models dfs.c, each dfs_x as x, and Dfs.Registering its
--              dfs_init with the call table; Devices and ListingDevices hold the proofs
--   Fat        fs/fat.c and fat.h, each fat_xY as x_y: Table (fat_setFATCluster to fat_rwCluster), Names,
--              Paths, Files (read_file for fat_read and so on), Mounting, Entries and Listing are the
--              code, and Registering is fat_init with the call table; Free, Encoding, Packing,
--              Splice, Reading, Writing, Sectors, Layout, Rounds, Transfer, Chains, Ending, Moving,
--              Naming, Directory and Outcomes hold the proofs, Samples a small volume for the runs
--   Startup    vfs_init of fs/vfs.c over the three file system components; Devices holds the proofs
--              about devices behind the virtual file system, Reading and Seeking those about files
--   Dma        mm/dma.c and dma.h under the source's names; Registers holds the proofs
--   Simdisk    kernal/file_system/block.c and simdisk.h under the source's names; Finding and Making
--              model find and my_mkfs of simdisk.c, Files my_open, my_creat and my_close of file.c, and
--              Layout the structures. Bitmaps, Words, Content, Device, RootInode, Blocks, Formatting,
--              Rereading, Texts, Lookup, Opening and Creating hold the proofs
--   Mmu        mmu.c under the source's names; Space, Mapping and Growing hold the proofs,
--              Program its main with the proof that it ends
--
-- State is passed explicitly. Addresses and words are natural numbers, with the wrap-around modulo
-- 2 ^ 32 written out where the code computes with them. A signed int that overflows is undefined in C:
-- in the loop of fat_rw and in the offsets of block.c it is a fault, and the number of blocks that
-- dev_open stores wraps into the negative numbers. A char is signed. Loops over linked lists run on fuel, and the
-- theorems ask for more fuel than the list has entries (twice as many for mm_kfree, which walks the
-- list twice); the search for a page computes its own fuel, a round for each page of the range, and
-- physical_init is given more fuel than the kernel and the bitmap have pages. The loop of fat_rw has
-- one round of fuel more than bytes are asked for. The two functions of paging.c that call each other
-- need one level of fuel where the table is there.
--
-- What lies outside the repository is a parameter: the mutex and kernel_panic are a log of calls,
-- paging_map and the page it is given are taken to succeed, mm_kmalloc as seen by the file systems,
-- the drivers, the io_* functions, memalign, the system calls of the simulated disk and of mmu.c, and the process
-- manager and scheduler that the page fault handler calls are arguments. The FAT file system's
-- device is a record of the vfs operations, and paging_mapQuick is taken to make a physical page
-- accessible. Spellings that do not compile are read as they are meant: mount->calltable.mount in
-- vfs_mount, the misspelt names of mm.c, fat.c and paging.c, and the
-- field name of struct inode, which simdisk.h has in a comment and the code writes.
--
-- Not modelled: my_read of file_system/file.c, which uses names that are not declared, and my_remove
-- and my_rename there, which are empty; the headers of parts whose code is not in the repository
-- (interrupts, processes, segmentation); the thread and vulnerability demonstrations, which have no
-- logic of the system.
pub mod Base
pub mod Paging
pub mod Physical
pub mod Vfs
pub mod Dfs
pub mod Mmu
pub mod Heap
pub mod Fat
pub mod Startup
pub mod Dma
pub mod Simdisk
