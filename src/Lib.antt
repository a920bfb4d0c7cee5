-- ===== src/Lib.antt =====
-- Verification library of the profiler, a sampling tool that turns perf events into call stacks
-- with function names and stores them in SQLite.
--
-- The program: the event loop (src/core/main_loop.c) consumes the ring buffer of each CPU
-- (src/perf/perf.c), parses each sample (src/core/handler.c), copies it to a buffer of the memory pool
-- (src/utils/mempool.c) and pushes it to a bounded queue (src/utils/concurrent_queue.c). The
-- symbolizer thread pops it, finds the process (src/core/process.c), the mapped area of each address
-- (src/elf/vma.c), the ELF symbol or the kernel symbol (src/elf, src/core/kernel_symbol.c), and gives
-- the stack to the database writer (src/utils/database.c), which collects batches and has a thread
-- that stores them.
--
-- The files, in the order of the flow; an operation has the name of its C function:
--   PerfRing: perf_event_consume_ring_buffer on the bytes of the ring. The loop takes the size of the
--   buffer as fuel; the records that the kernel wrote are fewer, so it is enough. A callback is the
--   list of the records it was given.
--   PerfSetup: perf_event_init_with_config and perf_event_cleanup_manager (src/perf/perf.c), as the list
--   of their system calls, whose results are arguments.
--   Sample: parse_sample_data on the bytes of a record.
--   Mempool: the pool of sample buffers. A chunk is its address; malloc is an argument, free a result.
--   Queue: the bounded queue. The mutex makes the code between two waits atomic, so an operation is
--   one attempt that waits or returns; the threads of an execution are the order of their attempts
--   (Queue/Threads).
--   Hash, Processes: the hash table of processes. What the kernel says of a pid is an argument.
--   Vma: the memory map of a process from the bytes of /proc/<pid>/maps, the search for an area, the
--   address in the file. fgets and the conversions of sscanf are written out on bytes (CString); the
--   loop over the file takes the length of the file as fuel, and each line takes a byte or more. The
--   file as the kernel prints it is in Print and File.
--   ElfSymbols: the functions of an ELF file and the lookup of an address; what libelf reads is an
--   argument.
--   ElfFiles: the cache of ELF files (src/elf/elf.c): the build id from the notes of a file, and the
--   hash table by build id with its counts. What libelf reads and which allocations succeed are
--   arguments. The walk over the notes takes the number of their bytes as fuel, and each note takes
--   12 or more; clear_bucket takes the length of the chain, of which each turn removes a file. The
--   calls that open, close, allocate and free are lists (Resources, Uses).
--   KernelSymbols: the table from /proc/kallsyms and the lookup of a kernel address.
--   Display: the text for display that symbolize_sample builds, as writes to a buffer of its size.
--   Symbolize: the frames of a sample (symbolize_sample), on the models of the process table, the
--   areas, the ELF files and the kernel symbols; /proc and the files may answer differently at each
--   frame.
--   Pipeline: the two ends of the queue of samples: dispatch_sample_event (src/core/main_loop.c) and a
--   turn of symbolizer_thread_func; both at work on one queue and one pool (Flow, Chunks, Order); a turn of
--   main_loop (Loop).
--   DbWriter: the database writer (src/utils/database.c): the producer (db_writer_push_stack, flush,
--   stop), a turn of the writer thread (Thread) on a batch (Session, Rows, Commit), and the
--   executions in which both take turns (Steps, Reliable, Drain). SQLite is the list of the calls, with
--   their results as arguments. A turn that gives a part of a chunk of the pool to free has no
--   successor.
--   BlockCache: the cache of the blocks of a file (src/utils/elf_cache.c). The file is its bytes;
--   cache_read takes the size of the request as fuel and copies a byte or more at each turn;
--   cache_prefetch takes the size of the file and one more, and is below it at each turn that goes on.
--   Its manager of whole files (Manager) has the places of the entries for their addresses.
--   QueryTool: the client (config/query_tool.c): its hash table and the query of the files of past
--   hours, whose loop takes the number of hours up to the end as fuel; the request to the server
--   (Request) and its arguments (Arguments). SQLite, libcurl and cJSON are arguments.
--   HttpServer: the answer to a request (src/utils/http_server.c), and the server with the client
--   (Client). libmicrohttpd, cJSON and SQLite are arguments; what SQLite is to answer to a query is in
--   Request.
--   Startup: the stages of main up to main_loop (main.c) and initialize_system (src/core/system.c): what
--   is started, and what is stopped again where a stage fails; whether a part can be started is an
--   argument.
--   Config: the options of the command line (config/config.c).
--   Tree: the searches and insertions that the program writes out on its red-black trees. The
--   library's rebalancing (include/rbtree.h, src/utils/rbtree.c, a copy of the Linux kernel's) is a
--   parameter that keeps the order of the nodes.
--   Prelude: shared names, lists by native numbers, predicates on lists.
--
-- Numbers of the program are natural numbers, with `% 2 ^ 64` or `% 2 ^ 32` where the C type wraps
-- around; a pid is its 32 bits. int counters (sizes of collections, numbers of records) are taken not
-- to overflow. Trees and hash chains are values: no two of them share a node in the program.
--
-- Not modelled: what main does behind main_loop, which never returns, and the directory that it makes for
-- the log of the histogram; http_server_stop, which stops the daemon and frees the context; what is
-- given to free, except in the pool, the caches of files and the set-up of the perf events; the
-- rebalancing of include/rbtree.h, a parameter.
pub mod Prelude
pub mod Config
pub mod CString
pub mod Display
pub mod Tree
pub mod ElfSymbols
pub mod KernelSymbols
pub mod Queue
pub mod Hash
pub mod HttpServer
pub mod Mempool
pub mod PerfRing
pub mod PerfSetup
pub mod Sample
pub mod Startup
pub mod Processes
pub mod Vma
pub mod BlockCache
pub mod DbWriter
pub mod ElfFiles
pub mod Symbolize
pub mod Pipeline
pub mod QueryTool
