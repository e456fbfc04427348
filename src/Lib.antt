-- ===== src/Lib.antt =====
-- A model of the projects of this repository: the proxy server of p6, the process table of the
-- xv6 kernel of p4, the memory mappings of the xv6 kernel of p5, the file system of p7, the shell
-- of p3, the Unix utilities of p1 and the getlastcat call of p2, with the theorems about them.
--
-- Parts and files:
-- - Base: numbers, lists, options and integers that all parts share (Base/Int: the ℤ that stands
--   for int). CString: C strings as lists of bytes, strstr, strtok, atoi.
-- - Proxy: p6/starter-code. Proxy/Queue is safequeue.c: the linked list behind the dummy head is
--   a list of jobs (add_work, get_work, get_work_nonblocking). Proxy/Delay is extractDelayTime,
--   Proxy/Serve is serve_request and handle_get_job, with the sockets as outcomes of their calls.
--   Proxy/Options is the command line. Proxy/Server is serve_forever and worker over the shared
--   queue: a step is what a thread does between taking and releasing the mutex, or one read
--   outside it, and `Reach` are all interleavings of any number of listeners and workers. A
--   "/GetJob" on an empty queue unlocks a mutex that its thread does not hold (stray_unlock): what
--   follows is undefined, and a step may then lead to any state.
-- - Sched: p4/xv6-public. Sched/Table is struct proc, ptable, allocproc, kill, wakeup1;
--   Sched/Life is fork, exit, wait, sleep, yield; Sched/Scheduler is one pass of scheduler;
--   Sched/Calls is nice, getschedstate and sys_sleep; Sched/System is any sequence of these. A
--   process is named by its slot, a held ptable.lock makes each operation one step. copyuvm is
--   the parameter that says whether the copy is made.
-- - Mmap: p5/xv6-public/sys_mmap.c, trap.c and vm.c. Mmap is the table vmas and total_vmas of
--   struct proc, and ummap with setup_mmap_arr, check_mmap_possible and find_mmap_addr;
--   Mmap/Pages the pages of an address space (mappages, do_map); Mmap/Unmap is umunmap and
--   clear_maps, Mmap/Fault pgft_handler, Mmap/Fork copy_maps and do_map_helper, Mmap/Calls
--   sys_mmap and sys_munmap, Mmap/Process allocproc, fork and exit of proc.c around them,
--   Mmap/Process/Wait its wait. The proofs are in Mmap/Layout, Slots, Place, Search and Mapped
--   (ummap), in the children of Unmap and Fault, and in the children of Frames and Process (where
--   each page frame is). A Laid table has its entries behind the last mapping zeroed, as before any
--   munmap. The user pages that copyuvm maps are not among the pages (ptes), so a mapping laid
--   over user memory is not followed. What lies outside the table, the success of filewrite and
--   copyuvm are parameters; the contents of pages are left out, addresses and lengths are not
--   negative.
-- - Wfs: p7. Wfs/Log is the log of mount.wfs.c as a list of entries and number_to_inode; Wfs/Path
--   is path_to_inode over directory bytes; Wfs/Ops is the FUSE operations, the mount and
--   mkfs.wfs.c. The proofs are in Wfs/Live (the last live entry of a number), Wfs/Invariant,
--   Wfs/Refine (the map from numbers to live entries), Wfs/Lookup and Wfs/Listed (the bytes of a
--   directory), Wfs/Names (paths as strtok splits them), Wfs/Tree (the tree of directories that a
--   log holds), Wfs/Grow, Wfs/Made and Wfs/Found (the calls on such a tree), Wfs/ReadBack and
--   Wfs/Remount. dirname, basename, the clock and the memory behind a buffer are parameters, and
--   the disk is taken to have room.
-- - Wsh: p3/wsh.c. Wsh/Jobs is ids, job_arr and curr_fg_id with what works on them, Wsh/Line the
--   words of a line (main) and the split of pipe_dealer, Wsh/Pipes the descriptors and processes
--   of pipe_dealer, with proofs in its children, Wsh/Command is exec_cmds, Wsh/Session the loop
--   of main, with the proof in Session/Safe. The proofs about the table are in Wsh/Jobs/Invariant
--   and Wsh/Jobs/Least. What waitpid, fork, pipe and chdir answer are parameters.
-- - Unix: p1/tests. Unix/Convert is convert_line of wgroff.c, Unix/Convert/Passes what it comes
--   to as passes over the line; the proofs are in Convert/Loops, Escapes, Squeezed and Result.
--   Unix/Groff is main of wgroff.c: Groff/Document has the format line by line, Groff/Title the
--   title and the footer, Groff/Page a whole run. Unix/Wman is wman.c, Unix/Apropos wapropos.c
--   with the proof in Apropos/Found. The files, stat, fopen and regexec are parameters.
-- - LastCat: p2/xv6/initial-xv6/src. The record that exec (exec.c) keeps of runs of cat, and
--   sys_getlastcat (sysproc.c); LastCat/Answers is about both. namei and the rest of exec are
--   parameters.
--
-- Bounds: int values that stay small are ℕ or ℤ; where the code compares as unsigned the
-- wrap-around is written out. The loops are structural recursion over the table or a number of
-- rounds that the loop's own bound gives. convert_line has fuel for its replacements; a line has
-- fewer slashes than MAX_LINE_LENGTH, and each replacement takes one away, so that much fuel is
-- enough.
--
-- Not modelled: the base xv6 kernel (virtual memory, file system, drivers), user programs, the
-- HTTP library of proxyserver.h, and printing.
pub mod Base
pub mod CString
pub mod Proxy
pub mod Sched
pub mod Mmap
pub mod Wfs
pub mod Wsh
pub mod LastCat
pub mod Unix
