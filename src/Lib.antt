-- ===== src/Lib.antt =====
-- Verification of dis-kverbs, an InfiniBand verbs driver that carries work requests over Dolphin's
-- SCI message queues.
--
-- An application creates a protection domain, completion queues and memory regions, posts work
-- requests to work queues, and polls completions. Posting maps the segments of a request to the
-- physical pages of their regions; a worker thread sends or receives the entry and posts a
-- completion.
--
-- Files and code:
-- - Verbs: the limits and structures of src/driver/dis_verbs.h, and the arithmetic of its words. Verbs/Cast
--   has the accessors from the kernel's structures to the driver's.
-- - Circ, Cq: struct dis_cq and its operations: dis_create_cq, dis_poll_cq, dis_req_notify_cq and
--   dis_destroy_cq of src/driver/dis_verbs.c, dis_wq_post_sqe_cqe and dis_wq_post_rqe_cqe of
--   src/driver/dis_qp.c. Cq/Queue is the specification, a FIFO of bounded length.
-- - Pd, Mr: struct dis_pd and struct dis_mr: dis_alloc_pd, dis_dealloc_pd, dis_get_dma_mr,
--   dis_reg_user_mr and dis_dereg_mr of src/driver/dis_verbs.c. Mr/Lookup is the use of a key by
--   posting. What a registration acquires and releases is a list of events.
-- - Post: dis_qp_post_one_sqe and dis_qp_post_one_rqe of src/driver/dis_qp.c, which share every line
--   but the opcode: post_one takes it as an argument. Post/Spec is the specification: the physical
--   address of each byte of a segment. Post/Interleave has both beside the worker's rounds over the
--   queue, access by access, and Post/Interleave/Twice two threads that post.
-- - Worker: dis_wq_consume_one_rqe, dis_wq_consume_one_sqe and dis_wq_consume_all of
--   src/driver/dis_qp.c. Worker/Drain is the specification, a run over the list of entries.
-- - Thread: dis_wq_thread, dis_wq_init and dis_wq_exit of src/driver/dis_qp.c as a step relation on the
--   work queue, the place where the thread stands, and what the others do: post, notify, poll
--   its completion queue, stop it. Thread/Shared adds the workers of other queues that report to
--   the same completion queue.
-- - Qp: struct dis_qp: dis_create_qp, dis_destroy_qp, dis_modify_qp, dis_post_send, dis_post_recv and
--   dis_query_qp of src/driver/dis_verbs.c, dis_qp_init, dis_qp_notify and dis_qp_exit of
--   src/driver/dis_qp.c.
-- - Srq: struct dis_srq and the shared receive queue's operations of src/driver/dis_verbs.c.
-- - SciIf: src/driver/dis_sci_if.c, with what SCILib answers as arguments. SciIf/Collide has what the
--   workers of two domains' pairs ask it for.
-- - Calls: the verbs of src/driver/dis_verbs.c on the objects of one domain, and the runs of the workers,
--   one after the other: the composition of Pd, Mr, Cq, Qp and Worker. Calls/Total says which calls
--   return.
-- - Transfer: the way of a list of requests through Qp, Worker and Cq, on one node and
--   on two (Transfer/Nodes), a slot that is used again, and user memory from
--   its registration to a posted entry (Transfer/Registered).
-- - Cq/Interleave: dis_poll_cq and the two functions that post to the queue, access by access, while
--   they run at the same time; Cq/Interleave/Twice has two threads that poll.
-- - Device: the queries of src/driver/dis_verbs.c for the device and its port.
-- - Driver: src/driver/dis_driver.c, src/bus/dis_bus.c and src/device/dis_device.c: what they register,
--   and which device is bound to the driver.
-- - Events: acquisitions and releases in order, and what they leave held.
-- - Kernel: CIRC_CNT, CIRC_SPACE and roundup_pow_of_two of the Linux kernel as records of functions
--   and laws, with functions that meet the laws in Kernel/Concrete.
-- - Memory: memory of the allocator as a list of objects, freed ones included.
-- - Common: names of the library and lemmas on lists, masks and circular buffers.
--
-- Conventions. Pointers are numbers, 0 for NULL. A size or index of w bits is a natural number with
-- the wrap-around written out; indices of circular buffers are in range by the invariant IsRing, whose
-- sizes are powers of two of at most 2^31. `struct circ_buf` is the list of its slots with the two
-- indices. Results of verbs are `done` for 0 and `fail n` for -n. Undefined behaviour (a read through
-- NULL or a freed object, an access out of an array) is `none`. PAGE_SIZE is 4096.
--
-- A step of Thread is one access of the worker to what it shares, the library's answer included: an
-- entry takes three, the last of which stores the tail. Posting a completion is one step, since it
-- holds the lock of its queue. Posting a request is one step, since it publishes its entry by storing
-- the head; Post/Interleave takes it apart. A wait ends when its condition holds, or when a fatal
-- signal is pending.
--
-- Calls has a worker's run between two other calls, and, when a pair is destroyed, one last run of each
-- of its workers, which ends where the thread is told to stop.
--
-- Fuel: the loop over the bytes of a segment has the fuel `suc sge_len`; each round takes a byte at
-- least, so the fuel is enough. A worker's run has a round for each slot of the queue, and the loops
-- over attempts go over the list of replies, which ends when the thread is told to stop. All other
-- loops are structural.
--
-- Not modelled: memory orders weaker than the order of the steps; messages of pr_devel; what stands in
-- embedded ib_ structures, locks and wait queues; the build with DIS_USE_DMA, which
-- src/driver/Makefile leaves out; and the table of operations and the mask of user commands in
-- src/driver/dis_driver.c, data that only the kernel reads.
pub mod Common
pub mod Kernel
pub mod Verbs
pub mod Circ
pub mod Cq
pub mod Memory
pub mod Events
pub mod Pd
pub mod Mr
pub mod Post
pub mod SciIf
pub mod Worker
pub mod Qp
pub mod Srq
pub mod Thread
pub mod Transfer
pub mod Calls
pub mod Device
pub mod Driver
