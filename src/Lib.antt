-- ===== src/Lib.antt =====
-- Four programs of the I/O stress tests, in
-- testcases/stress_test/io_integration_test/io_integration_test.sh.data/ltp: fsx.c, the file system
-- exerciser, fsstress.c, the file system stress program, aio-stress.c, the benchmark of
-- asynchronous I/O, and iogen.c, which draws the requests that doio.c carries out. They share no
-- code and no state.
--
-- fsx.c draws operations on one file, makes each of them both on the file through the kernel and on
-- its own picture of the file (`good_buf`, `file_size`), and exits with a number as soon as what
-- the kernel gives back differs from the picture.
--
-- Parts and files:
-- - Base: numbers, Boolean tests, C's unsigned arithmetic (Base/Tests), buffers with `memset`,
--   `memcpy` and `memcmp` (Base/Buffer), and runs that may exit (Base/Exit): `Outcome` is `ok`,
--   `failed` with the number of `report_failure` or `exit` and the state at that time, or
--   `out_of_fuel`. Base/Maybe and Base/Chain: chains of optional results and what is known of them.
--   Base/Lists: lists by index.
-- - Fsx/File: what the manual pages say that each call makes of a file, as functions on a size and
--   a map from offsets to bytes. Fsx/File/Congruence: these respect equality of contents.
-- - Fsx/Kernel: the system calls as a record that everything takes as a parameter, and `IsCorrect`,
--   which says that they do what Fsx/File says, and do not fail where the manual pages give no
--   reason to: ranges that a clone, a deduplication or a copy takes do not overlap, only the page
--   that the file ends in is zero behind its end, and a read or write of more than `most` bytes may
--   be a short one. `most` is `maxfilelen` in a run, and any number where `main` reads the existing
--   file. With `O_DIRECT` the file system is one without alignment restrictions.
--   Fsx/Kernel/Reference is a kernel for which this holds, with reads that are short behind a
--   number of bytes.
-- - Fsx/State: the enums, `struct log_entry`, the globals that the command line sets (`Config`),
--   the globals that a run changes (`Fsx`), `log4` and `log5`.
-- - Fsx/Model: what the operations do to `good_buf`, `file_size` and `biggest`, cut out of the
--   operations, and Fsx/Model/Refines: they are the functions of Fsx/File.
-- - Fsx/Check: `check_buffers`, `check_size`, `check_eofpage`, `check_contents` and `doflush`.
-- - Fsx/Transfer: `doread`, `domapread`, `dowrite`, `domapwrite`, `dotruncate`.
-- - Fsx/Range: `do_punch_hole`, `do_zero_range`, `do_collapse_range`, `do_insert_range`,
--   `do_preallocate`.
-- - Fsx/Duplicate: `do_clone_range`, `do_dedupe_range`, `do_copy_range`.
-- - Fsx/Choose: the part of `test` that draws an operation. Fsx/Choose/Destination is about its
--   searches, Fsx/Choose/Fit says when arguments fit an operation, and Fsx/Choose/Drawn is about
--   the ranges that come out.
-- - Fsx/Step: `writefileimage`, `docloseopen`, `dofsync`, the rest of `test`, and the loop of
--   `main`.
-- - Fsx/Settings: the options, and the variables that they set, with the globals of a run that come
--   out. Fsx/Options: `getnum` and the switch of `main`, with `strtol` and the clock as parameters;
--   Fsx/Options/Accepted is about them.
-- - Fsx/SetUp: `check_trunc_hack` and the probes for calls that the file system lacks, and
--   Fsx/Boot: the rest of `main` between the open file and the run.
-- - Fsx/Replay: the file of operations that `logdump` saves, and `read_op`; Fsx/Replay/RoundTrip is
--   about the two together, and Fsx/Replay/Ring about the ring that is saved. A line is the list of
--   its words, and printing and reading of numbers are parameters.
-- - Fsx/Rerun: `test` and the loop of `main` with a replay file; Fsx/Rerun/Recorded is about it.
-- - Fsx/Live: the invariant `Live` (the file is what the picture says, and no larger than
--   `maxfilelen`), and that each operation keeps it and reports nothing on a correct file system,
--   up to `test` and the loop in Fsx/Live/Run.
-- - Fsx/Tests: the theorems at concrete inputs, on the reference kernel.
--
-- fsstress.c makes files and directories at random, and keeps lists of them by their type, with the
-- identifier of the parent directory in each entry and a cache of the slots of directories.
--
-- - Fsstress/Files: `flist` and `dcache` with `add_to_flist`, `del_from_flist`, the functions on
--   the cache, and `dirid_to_fent`. Fsstress/Files/WellFormed is the invariant of the two, and
--   Fsstress/Files/Cached is about the search with the cache.
-- - Fsstress/Tree: `fent_to_name`, `fents_ancestor_check`, `fix_parent`, `namerandpad`,
--   `get_fname`. Fsstress/Tree/Ranked is about the walks up the tree, Fsstress/Tree/Chosen about
--   the draw of a file, Fsstress/Tree/Padding about the length of names.
-- - Fsstress/Operations: `generate_fname`, `creat_f`, `mkdir_f`, `mknod_f`, `symlink_f`, `link_f`,
--   `unlink_f`, `rmdir_f`. Fsstress/Operations/Kept says what a tree is (`IsTree`), and Made,
--   Removed and Reached beside it are about the operations and their sequences.
-- - Fsstress/Rename: `do_renameat2` in its four modes, with Moved, Ended and Exchange about it.
-- - Fsstress/Table: `ops` with the frequencies, and the draw of an operation; Fsstress/Table/Drawn
--   is about it.
-- - Fsstress/Tests: the theorems at small trees.
--
-- aio-stress.c works on parts of files with operations of many ios each, stage by stage.
--
-- - AioStress: `struct io_oper`, `create_oper`, `random_byte_offset`, the offsets of `build_iocb`
--   and `build_oper`, `update_iou_counters` and `restart_oper`. AioStress/Offsets is about the
--   offsets, AioStress/Stages about the stages, and AioStress/Tests runs both on an operation.
-- - AioStress/Ring: the rings of operations with `oper_list_add` and `oper_list_del`, as pointers
--   in a store. AioStress/Ring/Linked is about paths of pointers, AioStress/Ring/Kept says what
--   sequence a ring stands for, and AioStress/Ring/Apart is about several rings in one store.
-- - AioStress/Active: a round of `run_active_list`. AioStress/Active/Walked is about its first
--   loop, AioStress/Active/Settled about its second, with Built, Moved and Walking beside them
--   about their bodies, and AioStress/Active/Round about the whole. AioStress/Active/Restart is the
--   part of `worker` that restarts operations, with Restarted below it about that;
--   AioStress/Active/Tests runs it on two operations.
-- - AioStress/Pool: the io units with `setup_ious`, `find_iou` and the list of free units;
--   AioStress/Pool/Free is about the list, AioStress/Pool/Found about the search, and
--   AioStress/Pool/Tests is two units.
--
-- iogen.c chooses a call, flags and a file for each request, and a place in the file next to,
-- before or at random around that of the last one.
--
-- - Iogen: `struct file_info`, `struct io_req`, the calls and flags, and the arithmetic of offsets
--   and lengths. Iogen/Form: `form_iorequest` and the loop of `main`.
-- - Iogen/Within: what `random_range` promises (`IsRandomRange`), what a file is to be for a
--   request (`IsReady`) and a request in a file (`IsWithin`). Iogen/Placing is about the modes,
--   Iogen/Progress about the requests that are not refused, Iogen/Requests and Iogen/Total about
--   the loop.
-- - Iogen/Maps: `struct strmap` with its tables and searches, and the words of `-s` and `-f`;
--   Iogen/Words is about these. Iogen/Files: `get_file_info` and the files of `parse_cmdline`;
--   Iogen/Admitted is about them, and Iogen/Generate about all parts together.
-- - Iogen/Tests: the theorems with a `random_range` that takes the least multiple.
--
-- How the code is read: `unsigned` is a number modulo 2 ^ 32 and `unsigned long` one modulo 2 ^ 64.
-- `x & ~(size - 1)` and `x & (size - 1)` are written with the remainder, which is the same for the
-- powers of two that page and block sizes are. Buffers are maps from indices to bytes. `random` is
-- a stream `Config.random` with the number of draws in the state, and the kernel is deterministic.
-- `IsSetUp` is what the command line and `main` see to, for a run without `-L`, and `IsDrawable`
-- what `random` promises, with limits below 2 ^ 31. A state is `Ready` for `test` when `file_size`
-- is at most `maxfilelen`, the simulated operations are over, and the file is the expected one
-- unless `test` is to write its image first; runs that start with simulated operations have no
-- theorem.
--
-- In fsstress.c an array is a map from indices, -1 is `none`, identifiers do not reach 2 ^ 31,
-- frequencies are not negative (`atoi` would take a sign), and numbers drawn by `random` are
-- arguments that are not negative. Whether the kernel does what an operation asks is an argument
-- too, and so is `v`, whether the operation prints. A path is the list of its parts, each with its
-- type, identifier and padding. `Run` is `done`, `crashed` for a read through NULL, or `cut_off`
-- where the fuel of a walk up the tree ends. `rank` in a theorem is any numbering of the
-- directories that falls on the way up; there is one as long as no directory is below itself.
--
-- In aio-stress.c offsets do not reach 2 ^ 63, `page` is `page_size_mask + 1`, and every io has two
-- numbers of the stream `rand`, which only random ios use. An operation is its address, and `sizes`
-- is what `fstat` tells of its file, which does not change during a round. In a round there is
-- always a unit and the kernel takes all ios. `find_iou` gets the units of the events for each call
-- of `read_some_events`, and a test of `busy` is one for two values.
--
-- In iogen.c no number is negative or reaches 2 ^ 31. A file in a request is its place in
-- `File_List`, and `random_range` gets the number of its call, eight for a request, with `none` for
-- an error. Where the mode `random` gets none for the length, the code goes on with -1, and the
-- model ends (`bad_length`). Options are as parsed: `strtok` and `str_to_bytes` come before. A word
-- of `-s` is a string, and the first of the words that is in no table ends the parse (`none`).
--
-- Fuel: `fuel_for` counts the turns of the first loop of `run_active_list`, which goes through the
-- rest of the ring at most before it builds one. The second loop has one unit more than there are
-- built ios, and each built operation has one. A walk up the tree has fuel for its levels and two
-- more, which is enough in a forest of that depth. The loop that reads the existing file has one
-- unit more than the file has bytes, which is enough where each read gets a byte. `copy_loop` has
-- one unit more than the bytes and the tries that it can use up, which is enough where each call
-- copies a byte or fails; the searches for a destination take their fuel as an argument, because
-- nothing in the code bounds them.
--
-- Not modelled of fsx.c: the opening of the test file, of the logs and of the good file; what is
-- printed, and the tests that choose only whether to print; the saving of the logs, but for the
-- file of operations, and of the good file; allocation failures; the variants for AIO and for XFS
-- preallocation, and the empty variants of the operations on systems without the calls; signals. Of
-- the dm-log marks only the calls and the exits are there. Not modelled of fsstress.c: the
-- operations that change the contents, the attributes or the size of a file and leave the lists
-- alone, the splitting of names that are too long for the kernel, the processes, and the tree
-- behind a rename of a directory, where only the lists and the cache are followed. Not modelled of
-- aio-stress.c: the results and latencies of ios, the memory of their buffers, submissions that the
-- kernel takes in part, `worker` but for the restarts, the threads, latencies and options. Not
-- modelled of iogen.c: the options but for the words of `-s` and `-f`, the messages, the output
-- pipe, `create_file`, the completion strategies of asynchronous calls and the strided calls, which
-- no entry of `Syscall_Map` names. The other programs beside the four are not modelled.
pub mod AioStress
pub mod Base
pub mod Fsstress
pub mod Fsx
pub mod Iogen
