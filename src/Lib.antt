-- ===== src/Lib.antt =====
-- sandboxer runs MicroVM sandboxes: sandbox-ctl starts Cloud Hypervisor, connects the guest's stdio,
-- serves its block devices and its memory faults, and keeps its memory within a budget. This
-- library models the parts of the Go code that decide something and that need no kernel to be read.
--
-- The parts, and where their code is:
--   Prelude    shared names, Boolean tests, lists, bytes and integers over the native numbers.
--   Mux        pkg/mux and internal/wireio: several byte streams, control frames and a graceful
--              close over one connection between host and guest.
--     Wire       WriteAll over an io.Writer that is a record of operations; io.ReadFull.
--     Frame      WriteFrame and ReadFrame, the payload encodings.
--     Stream     one stream: deliver, Read, Write's credit, CloseWrite, Reset.
--     Flow       two ends of a stream and all that is between them, as a step relation.
--     Session    writeFrame and its barrier, dispatch, the read loop, InitMuxClose; Session/Data
--                has the calls that write to streams. Session/Trace interleaves the goroutines: Close
--                and the read loop retire a session without the writer's lock, so a frame may be on
--                its way to the wire meanwhile.
--   Resctl     pkg/resctl (and internal/chmemory): how much memory the guest keeps.
--     Memory     the integer formulas of memory.go: Budget, balloon target, memory.high.
--     ChMemory   the capacity in Cloud Hypervisor's configuration.
--     Balloon    BalloonController: its state, the checks on vm.info, and in Balloon/Apply the
--                exchanges with Cloud Hypervisor.
--   Uffd       pkg/uffd: the tables behind the page-fault handler.
--     State      PageStateMap, one byte per page.
--     AddressMap which process maps which part of the memfd where.
--     Install    what fault.go and dirty.go do while they hold installMu: urgent copies and zeroes,
--                and tails; Install/Calls and Install/Moves say what they call and change.
--     Capture    CaptureMemoryLayout.
--     Fault      how far a fault may populate pages around its own.
--     Tail       the plan of a tail, and the parts of a buffered one.
--     Release    REMOVE and UNMAP of handler.go; Release/History puts all of these in any order.
--   Sparse     the extents of a sparse image and the append that joins neighbours.
--   Snapshot   pkg/snapshot/merge.go: a delta over its base as one sparse stream.
--     Holes      holeRun and holeIntersection.
--     Merge      mergedReadSeeker.
--   Vhost      pkg/vhost: the block backend that serves the guest's disks.
--     Blk        the request header and the configuration space.
--     Memory     the memory table: SET_MEM_TABLE, the binding to the memfd, translation.
--     Chain      the walk of a chain of descriptors.
--     Request    reads, writes and discards, and processChain over them.
--     Queue      the avail and used rings, and processQueue.
--   Usage      pkg/usage: resource accounting.
--     Number     128-bit integers; Accumulate has windows, gauges and counters.
--
-- How the model stands to the code. A method that holds a lock throughout is one function on the
-- state, named like the method in snake case; a method that leaves its lock is several. A wait is a
-- result of its own (blocked, await_ack), after which the caller calls again; interleavings are the
-- sequences of the step relations. A channel that is only ever closed is a flag. Errors are
-- values, one constructor for each that the code or its callers tell apart; their texts are left
-- out. Machine integers are native numbers with the wrap written out; a Go int that the peer or
-- the caller chooses is kept as its 64-bit pattern. The connection, the HTTP client, the clock, the
-- userfaultfd ioctls, the dirty set, the layers of a snapshot and the disk are parameters: records
-- of operations on a world of the parameter's own.
--
-- Fuel. write_all takes a turn for each byte, since a turn takes one byte at least. read_loop takes
-- a turn for each byte that the connection delivers and one more, since a frame has four bytes.
-- write_data takes a turn for each byte. invalidate takes three turns for each interval: an
-- interval leaves two pieces at most, which are not cut again. sweep_loop takes a turn for each
-- byte of the range and one more, since a turn takes a byte at least; fill_loop and the read_loop
-- of Vhost likewise for each byte that is wanted. sort_search takes a turn for each index, since
-- its interval shrinks; hole_intersection one for each byte of the image; page_loop
-- one for each byte of the hole. walk_chain takes a turn
-- for each descriptor of the ring and one more, since it counts them. process_queue takes 2 ^ 16
-- turns, since its indices have 16 bits.
--
-- Not modelled: everything that is system calls, processes, files or JSON (cmd, pkg/sandbox,
-- pkg/runtime, pkg/restore, pkg/stdio, the rest of pkg/snapshot and others); the C patches under
-- native-deps; the memory controller's loop, the dispatch of a fault, the vhost-user server
-- and the diff stores, which use the modelled parts; the sampling and the records of the
-- usage accounting.
pub mod Prelude
pub mod Mux
pub mod Resctl
pub mod Snapshot
pub mod Sparse
pub mod Uffd
pub mod Usage
pub mod Vhost
