-- ===== src/Lib.antt =====
-- psw-afdx: a daemon that receives avionics datagrams (AFDX-like, over UDP), keeps the last known
-- state of the aircraft, and serves it to local applications, once or periodically.
--
-- The network thread (src/network_thread.c) stores datagrams in a circular queue (src/queue.c); the
-- elaboration thread (src/elaboration_thread.c) takes them out and writes the variable `intdata`
-- (include/internal_data.h); the application manager (src/application_manager.c) answers queries from
-- it; periodic queries (src/registration.c) are tasks of the scheduler thread (src/scheduler.c).
--
-- Base           shared names, Boolean tests, lists over the native numbers, signed integers
-- Protocol       include/network_protocol.h and include/application_protocol.h
-- IntData        include/internal_data.h, and the initial `intdata` of src/afdx.c
-- Queue          src/queue.c: one function for each C function, on a record of its static variables;
--                Queue.Fifo reads the array between the two pointers as a list
-- Elaboration    src/elaboration_thread.c: the switch on a packet (`elaborate`); Elaboration.Stores has its
--                assignments one by one
-- Pipeline       the loops of src/network_thread.c and src/elaboration_thread.c as a step relation over
--                the queue: one step for a critical section, a system call or an access to the condition
--                variable, in any order; Pipeline.Invariant has the invariant, Pipeline.Ranges is about
--                the values in the queue and in `intdata`, Pipeline.Lag about missed wake-ups
-- Serve          `serve_query` of src/application_manager.c; Serve.Values has the table of the data,
--                Serve.Feed goes from a datagram to a reply, Serve.Atomic is about a query in the middle
--                of the assignments for a packet
-- Sched          src/scheduler.c: one command for each C function, on a memory of nodes and the two
--                static pointers; Sched.Links relates them to lists, Sched.Order says what the queue
--                promises, and the others prove it operation by operation
-- Registration   src/registration.c: one function for each C function, on the list of the applications
--                and the state of a scheduler; `Scheduler` is what it uses of src/scheduler.c
-- Manager        the loop of src/application_manager.c: one round of `select`, `accept`, the messages of the
--                clients and their end, over the registrations
-- Daemon         src/registration.c over src/scheduler.c: Daemon.Link fills the interface `Scheduler`,
--                Daemon.Threads has the threads in the steps in which they interleave: the thread of the
--                scheduler with its call outside the mutex (`thread_step`), `accept`, visits to descriptors
--                and removals of the application manager, and packets of the elaboration thread. Daemon.Steps
--                lets whole rounds and calls follow each other, Daemon.Calls is about a whole round of the
--                scheduler, Daemon.Race about one call
-- Network        what `recvfrom` makes of a node of the queue; a step of Pipeline
-- Generator      src/UDP_generator.c: the packets as bytes, and the loop that sends them;
--                Generator.Received takes them through src/network_thread.c to `intdata`
-- Client         src/app1.c to src/app4.c: their messages, what they print, their exit status; Client.Answers
--                and Client.Sessions run them against the application manager
-- Wire           the messages of include/application_protocol.h as bytes, and what `read` makes of `packet_msg`
--                in src/application_manager.c: Wire.Whole has whole messages and replies, Wire.Short a
--                part of a message
-- Startup        `main` and `init_all` of src/afdx.c with the functions of the other files that they call;
--                Startup.Plan is the list of the system calls, Startup.Prepared what each call needs,
--                Startup.Started says when `main` gets to its endless loop and what it has done then,
--                Startup.Daemonize is `daemonize`, which `main` does not call
-- Afdx           the four threads together: Afdx.Parts takes a run of them apart, Afdx.Reports says what the
--                datagrams report of a datum, Afdx.Answers goes from the datagrams to the client
--
-- A datagram is a list of bytes, since its payload is a union; numbers are little-endian. A C access
-- out of bounds or through a bad pointer is `none`, and where it is a step of a thread, no thread has a
-- step after it. Values that are only moved keep their range as an
-- invariant; times are numbers that are not negative, as the clock and the callers give them, and
-- below the range of `time_t`. The mutexes make each function of src/queue.c and each list operation
-- of src/scheduler.c one step.
--
-- The loop of `insert_node` and the inner loop of `scheduler_run` have no bound in C and take a number
-- of rounds here. More rounds than there are nodes are enough for the first, and more than there are
-- due tasks for the second, if every interval is positive.
--
-- The layout of the messages in Wire is that of a machine that aligns members to their sizes and gives an
-- enumeration four bytes.
--
-- The clients leave SIGPIPE as it is, so a write to a closed connection ends them. Descriptors are below
-- FD_SETSIZE.
--
-- Not modelled: log output, and src/simplog.c, a library of another project; writes of a part of a
-- message. A wake-up of the elaboration thread without a signal has a step of its own in Pipeline,
-- which the results leave out.
-- A message is what `read` leaves in the buffer. While an action of the scheduler runs, its mutex is
-- free: in Sched no other thread changes the queue in that time, and in Daemon.Threads the others do.
-- An assignment to a member of `intdata` is one step in Serve.Atomic; in Pipeline and Afdx the
-- assignments for a packet are one. In Daemon.Threads, a visit to a descriptor is one step: the steps inside it, between two semaphores or mutexes of
-- one operation of src/registration.c, are not told apart.
pub mod Base
pub mod Protocol
pub mod IntData
pub mod Queue
pub mod Elaboration
pub mod Serve
pub mod Sched
pub mod Pipeline
pub mod Registration
pub mod Manager
pub mod Daemon
pub mod Network
pub mod Generator
pub mod Client
pub mod Wire
pub mod Startup
pub mod Afdx
