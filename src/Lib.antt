-- ===== src/Lib.antt =====
-- Verification of aegir's network port layer, with the C beside it, and of the kernel's memory,
-- capabilities, notifications and scheduler.
--
-- aegir is an operating system for RISC-V, written mostly in Ada. Its C has two large parts, and they
-- meet in the server netserv. A program's GNAT.Sockets calls reach the C library entry points of
-- userspace/gnat-rts/gnat_user/aegir_gsocket.c, which keep a table of file descriptors, an errno and
-- the results of the netdb calls, and turn each call into requests to netserv through the bridge
-- `aknet_sock_*` (userspace/rts/aegir/aegir_user-sockets.adb). netserv in turn drives lwIP through
-- userspace/lwip/port/aknet_glue.c, which also loops packets to the machine's own address back through
-- a queue, and keeps a list of the listening pcbs. Beside them stand the C library's nanosleep, lwIP's
-- clock, and the shim over FreeType. Under all of them is the Ada kernel: its page frames are handed
-- out by src/kernel/kernel-physical_memory.adb, and every right of a process is an entry of its table
-- in src/kernel/kernel-capabilities.adb, whose pages are such frames; its threads run as
-- src/kernel/kernel-scheduler.adb has it, and wait for each other's signals in
-- src/kernel/kernel-notifications.adb.
--
-- Prelude: names shared by all files, lists over the native numbers, C's int as ℤ, and `loop`, the
-- rules for a loop that returns from its body, on fuel.
--
-- Gsocket: aegir_gsocket.c.
--   Consts, Errno   the #defines
--   Types           struct ak_sock, ak_hostent, ak_servent, sockaddr_in; the file-scope state as the
--                   record State; the record Bridge of what the file calls; ak_sw16 and the other
--                   address helpers; ak_ensure_net, ak_sleep_slice, ak_sticky_errno
--   Table           ak_get, ak_alloc
--   Calls           socket, close, bind, connect, listen, getsockname, getpeername, shutdown
--   Stream, Send    accept, ak_recv, recv, recvfrom; ak_send, sendto
--   Options         setsockopt, getsockopt, ioctl, and the calls that only fail
--   Signal          the signalling pairs of a selector
--   FdSet, Ready    the fd_set helpers; ak_ready, select, poll
--   Dotted          ak_parse_dotted, inet_pton, inet_ntop
--   Netdb           the hosts and services calls and the accessors of their results
--   Addrinfo        getaddrinfo, freeaddrinfo, getnameinfo
--   Toy, Tests      a concrete network; runs and instances
--
-- Glue: aknet_glue.c.
--   Types           the file-scope state as the record Glue; the record Lwip of what the file calls
--   Hairpin         linkoutput, output, hairpin_drain, rx
--   Listen          the list of listening pcbs; the accept and receive callbacks; listen, attach,
--                   kick, close
--   Datagram        the UDP and raw ICMP calls and callbacks
--   Services        addresses, ARP, DNS, DHCP, timeouts
--   Tcp             the other TCP calls
--   Toy, Tests      concrete stacks; runs and instances
--
-- Nanosleep: userspace/gnat-rts/gnat_user/aegir_nanosleep.c, and sys_now of
-- userspace/lwip/port/sys_arch.c. FaceShim: userspace/freetype/port/ftaegir.c. Each has its Tests.
--
-- Kernel: src/kernel.
--   PhysicalMemory  kernel-physical_memory.adb: the package's variables as the record Pmm, with the
--                   memory where the links of the free list lie
--   Rights          kernel-capabilities.adb: rights and their masks
--   Capabilities    kernel-capabilities.adb: Cap_Table and its operations over PhysicalMemory; the
--                   record Store is the memory, in which the first word of a frame is the object of
--                   its first entry
--   Notifications   kernel-notifications.adb: the slab of notification objects, their references,
--                   signals, waiters, bindings and clean-up; the start of Handle_IPC_Recv of
--                   src/arch/riscv64/arch-traps.adb. What the package calls of the rest of the kernel
--                   is the record Threads
--   Tasks           kernel-tasks.ads: the states of a thread, and the fields of its control block that
--                   the scheduler keeps
--   Scheduler       kernel-scheduler.adb: the package's variables, the control blocks and the threads
--                   that the harts run as the record Sched; the queues of ready and of sleeping threads
--                   and their links. Its Calls are what the kernel calls
--   Tests, CapTests, NotificationTests, SchedulerTests   instances and runs
--
-- State and operations. A C function is a function of the state, named as in the source (the prefix
-- `__gnat_` is left out, but for gnat_socket_close, gnat_socket_ioctl and gnat_gethostbyaddr, which
-- keep a part of it), that returns its result, what it stored through its pointers, and the new state.
-- A pointer into the descriptor table is an index, NULL is `none`. What the source calls and does not
-- define (the bridge, the clock, malloc, lwIP, netserv's callbacks) is an operation of the records
-- Bridge and Lwip, over an abstract state `W`; the theorems hold for every such record, with what they
-- need of it as a named hypothesis: IsClock (sleeping reaches its deadline, polling does not turn the
-- clock back), IsStream (an accepted send appends its bytes, one to be tried again later appends none),
-- IsIssuer and IsAcceptor (which handles are open), IsInput (ip4_input touches the hairpin queue only by
-- aknet_output, and does not answer itself for ever), IsNetif (byte order is undone by its inverse, the
-- interface keeps its addresses), IsTimebase (the counter shows the time, a yield takes a bounded
-- time), IsLibrary (blocks and faces are counted), IsTasks (a thread's binding is what it was set to).
-- The concrete networks, stacks and libraries of the Tests satisfy them. An Ada procedure returns its
-- out parameters and the new state; a variable of the package is a field of a record. The scheduler is
-- entered with the kernel lock held, so the calls of all harts are one sequence; the hart that calls is
-- a field of its state.
--
-- Integers are natural numbers with the wrap-around of their C type written out; a file descriptor and
-- other ints are ℤ. A byte is a number below 256, a C string the list of its bytes before the NUL.
--
-- Fuel. `select`, `poll`, `accept`, the receiving and sending loops and the hairpin drain take a number
-- of rounds, and yield `none` when it runs out. For select and poll with a timeout, one round more than
-- the timeout has 5 ms slices is enough, for a nonblocking stream send one more than the buffer has
-- bytes, for the drain the packets waiting and lwIP's budget, for nanosleep one more than the ticks
-- asked for, for the scan over reserved ranges one more than there are ranges, for the free list one
-- more than it has frames, for the walk to a notification the number of its frames, for a walk over
-- the queue of ready threads or of sleepers one more than it has threads, for Check_Sleepers as many
-- rounds. A blocking accept, receive or send waits for its peer, as long as that takes. The other loops
-- run over fixed tables or over their argument.
--
-- The theorems on the scheduler take both queues to be well linked, and a thread to be marked as queued
-- exactly if it is in the queue. `retire` is what src/kernel/kernel-processes.adb does with a dying thread,
-- which may stay linked without its mark; from there to the next Pop, which takes the dead out, the
-- other theorems do not apply.
--
-- Not modelled. aknet_netif_init and aknet_setup of aknet_glue.c, which fill lwIP's structures once, at
-- start-up. The rest of the kernel (src/kernel), the machine layer (src/arch/riscv64, src/board), the
-- servers and the applications under userspace, all in Ada. That the physical map reaches every frame
-- is taken for granted. lwIP and FreeType are submodules, the GNAT run-time library is vendored.
pub mod Prelude
pub mod FaceShim
pub mod Glue
pub mod Gsocket
pub mod Kernel
pub mod Nanosleep
