-- ===== src/Lib.antt =====
-- The real-time backup driver of this repository, a Linux kernel module that watches files and leaves
-- an io log of every change to them.
--
-- Parts and files. A user-space program sends netlink packets (rtbnetlink.c: Netlink) that add and
-- delete backup sets and monitored paths (monitorset.c: MonitorSet, its requests in
-- MonitorSet/Requests). Both are kept in search trees (rb.c: Rb, the sets in Rb/Sets and the paths in
-- Rb/Files) and saved to /etc/rtb.cnf (SaveConfig and LoadConfig of monitorset.c over fileop.c:
-- ConfigFile). The hooks of the VFS (hookvfs.c: Hooks) work out the path (getpath.c: Paths), look up
-- the entry that watches it, take sequence numbers (GetMonitorFileSeqNoByMonitorFileEntry of
-- monitorset.c: MonitorSet/Sequence), run the original call and queue an io log (createiolog.c:
-- IoLog), which the write thread (iowritethread.c: IoLog/WriteThread) writes to disk. The records of
-- fruk.h and usrlink.h are in Entries, LogFile, Driver and MonitorSet/Requests, and strncmp is in
-- Text. The module's start, stop and reboot hook (module.c: Module) use all of these, once the
-- kernel's functions have been found (symbols.c and kernfunc.c: Symbols) and their starts have been
-- overwritten by jumps (hijacks.c: Hijack, for the table of hookvfs.c in Hijack/Syscalls; the hooks of
-- no table are in Hooks/Unlogged). System puts the parts together as steps in any order, each of which
-- runs to its end; Examples runs the theorems on a small driver.
--
-- Outside the kernel, Java programs hand their requests to the bridge (communicate/rtcommunicate.c:
-- Bridge), which sends them as packets and hands notices back (communicate/communicate.c:
-- Bridge/Client and Bridge/Session; Bridge/Message is the driver's view of a packet, Bridge/Layout
-- that of the two programs). test/RestoreIolog.c replays io logs (Restore), and test/AnalysisIolog.c
-- prints them (Analysis).
--
-- State. Driver is FILEREPL_DATA with what the driver reaches: the two trees, their counts, the queue,
-- the configuration file as blocks at offsets, the logs on disk and the notices sent. Operations are
-- functions M A from a Driver to an Outcome: a value with the next Driver, wild for an access through
-- a pointer that leads nowhere valid, or unfinished. The names are those of the source in this
-- spelling: AddMonitorSet is add_monitor_set, rtb_vfs_link is itself.
--
-- A string of a request that has no room in the field that it is copied to is wild in
-- ConfigAddMonitorSet and ConfigDelMonitorItem, since what is behind the field would be written over.
--
-- Memory of the bridge is blocks of bytes: an access outside of its block is wild, also one that only
-- runs from one field into the next where the model has no bytes for them. Client and Tool are the
-- states of the bridge and of the replay tool.
--
-- Parameters. Kernel holds rb_insert_color and rb_erase with what linux/rbtree.h promises of them,
-- what rb_next reads in a node that has been erased and freed, of which nothing is promised, and the
-- status that the address of a local buffer is cut to. The outcomes of allocations and of file
-- operations are the lists allocs and io of Driver; an original call, d_path and path_lookup are
-- arguments of the hooks. The replay tool's file system is the record FileSystem, and the log
-- directory a function from paths, one for each round of the tool; what a new block of the bridge's
-- memory holds is a function of its size; kallsyms_on_each_symbol is an argument of Symbols, and the
-- decoder of instructions one of Hijack, whose memory is a function from addresses to bytes.
--
-- Fuel and bounds. The loop that erases has fuel n * (n + 1) + n + 1 for a tree of n entries, enough
-- since each round erases an entry or goes to a successor. The loop over a queue takes as many rounds
-- as the queue is long, and the replay tool's one more than there are logs to read. The copying of a
-- function has a round for each of its bytes. Counts, offsets and item counts wrap at 2 ^ 32, sequence
-- numbers and times at 2 ^ 64; the numbers of the two log tools are the 32 bits of an int. Strings are
-- their bytes before the NUL; buffers are taken to hold the paths that getpath.c writes to them.
--
-- Not modelled: locks and waiting, debug output, the permissions of pages (hijacks.c), the search of
-- symbols in files for old kernels (symbols.c), the copy of Linux's instruction decoder (arch), the
-- JNI references of the bridge and its test program (communicate/main.c).
pub mod Base
pub mod Bridge
pub mod Text
pub mod Entries
pub mod Rb
pub mod LogFile
pub mod Driver
pub mod ConfigFile
pub mod MonitorSet
pub mod IoLog
pub mod Paths
pub mod Hooks
pub mod Netlink
pub mod Restore
pub mod Analysis
pub mod Symbols
pub mod Hijack
pub mod Module
pub mod System
pub mod Examples
