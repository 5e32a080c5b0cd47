-- ===== src/Lib.antt =====
-- MemoryTool: a scanner of the memory of a running process, with pointer chains, a table of addresses
-- and background jobs. The development models the program's core, in src/ of the repository.
--
-- The parts and how they interact:
--   Prelude      what all modules share: tests on numbers, lists, 64-bit words, integers.
--   Numerals     the texts of whole numbers as the C and C++ libraries write and read them.
--   Types        src/types.h: the value types, their names, and their comparison (value_compare).
--                Types.Text: parse_value and value_to_string.
--   Memory       src/memory.h, memory.cpp: regions and region_at. What the kernel does is a parameter:
--                `Reader` is Memory::read.
--   Chunk        src/chunk.h: for_each_window, the walk over the readable regions by blocks that
--                overlap. Its callback is a function on a state; all scans are callbacks of it.
--   Pattern      src/pattern.h, pattern.cpp: byte patterns with wildcards; scan_pattern runs the walk.
--   Scanner      src/scanner.h, scanner.cpp: first_scan and first_scan_dynamic run the walk; Scanner.Next
--                has next_scan and next_scan_dynamic, which share the loop of Scanner.Rescan.
--   Pointer      src/pointer.h, pointer.cpp: regions for the pointer scanner and the frontier of chains
--                (extend_chains). Pointer.HashSet and Pointer.Scan: pointer_scan.
--                Pointer.Resolver: src/pointer_resolver.h, pointer_resolver.cpp, which
--                turns a chain into a persistent reference and follows it again.
--   Table        src/address_table.h, address_table.cpp: the entries, and the quoting of descriptions.
--                Table.File is the text that save writes, and Table.Load what load reads of it.
--   Session      src/session.h, session.cpp: the target process with the scanner and the table.
--   Web          src/web/jobs.h, jobs.cpp: Web.Job is one job, Web.Job.Race its methods interleaved at
--                their atomic operations, and Web.Registry the registry of jobs. Web.Runner:
--                src/web/job_runner.h, job_runner.cpp, the slot for one worker thread and the
--                worker's way through a job, interleaved with threads that ask for its
--                cancellation. Web.Json: src/web/json.h, json.cpp, values
--                with the writer (Web.Json.Writer) and the parser (Web.Json.Parser, on the readers of
--                Web.Json.Text and Web.Json.Number). Web.Http: src/web/http.h, http.cpp, the request
--                parser, and in Web.Http.Security responses and the check of host and token.
--                Web.Api: src/web/api.h, api.cpp, the start of a job and the requests to attach, with
--                the dispatch of a request (handle) in Web.Api.Routes: a route is the handler called.
--   Application  src/application.h, application.cpp: parse_addr and parse_pointer_scan_args, the
--                arguments of a pointer scan; Application.Write is write_value_at, the checked write of
--                a value, Application.Write.Entry writes through an entry of the table, and
--                Application.Entries reads the entries. Application.Scans has attach and the scans
--                of values and patterns, and Application.Pointers the way of a chain from the scan
--                over the table back to an address; Application.Changes has the other operations on the
--                table. They run on a Machine.
--   Tests        runs on concrete inputs.
--
-- State is passed explicitly: a method takes the object's record and returns the new one. A 64-bit
-- word is a number below 2 ^ 64, and its operations wrap (u64, sub64). A flag of cancellation is a
-- function from the number of loads before to the value that is loaded. The calls of a progress
-- callback are kept in a list.
--
-- Loops on fuel: the walk over a region has one round more than the region has bytes, and each round
-- moves on by a byte at least; the loop over one block has one more round than the block has bytes;
-- the refining scans have a round for each candidate, and each round leaves one behind.
--
-- The probes of the hash set look at each slot once at most, and its capacity, which doubles, is
-- reached within as many rounds as twice the values.
--
-- The JSON parser has three units of fuel for each byte and three more, since each call but a few
-- consumes a byte; the header loop has one round more than the head has bytes before its end; loading
-- has one line more than the file has bytes, and the splitting of a line one word more. A 64-bit
-- number has 20 decimal and 16 hexadecimal digits at most.
--
-- Parameters: the reads of memory and, for write_value_at, its writes (Access), the order of
-- floating-point numbers (Floats) and their texts (FloatTexts, and Doubles for JSON: strtod, printf,
-- the conversions), std::sort, the opening of a process, its memory map
-- (parse_maps), and what a job's task returns. Application.Machine gathers the machine's in a record.
--
-- Not modelled: the commands and the web API's other handlers, which combine these parts and print;
-- terminals, sockets, the operating system's threads, files being opened and closed, and /proc, which
-- are input and output only.
pub mod Prelude
pub mod Types
pub mod Memory
pub mod Application
pub mod Chunk
pub mod Pattern
pub mod Numerals
pub mod Web
pub mod Scanner
pub mod Pointer
pub mod Table
pub mod Tests
pub mod Session
