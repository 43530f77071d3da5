-- ===== src/Lib.antt =====
-- libmigdb: a library that runs gdb as a child process and speaks its machine interface (MI).
--
-- The program. The application sends commands; gdb answers with lines of text, then a prompt.
-- `mi_getline` (src/connect.c) collects a line from the pipe, `mi_parse_gdb_output` (src/parse.c)
-- parses it into an `mi_output` with a tree of `mi_results`, `mi_get_response` hands it to the
-- application's callbacks or chains it to the records of the response, and `mi_get_response_blk`
-- waits until the prompt closes the response and returns the chain.
--
-- The files.
--   Base        names of the standard library, Boolean tests, lists and text.
--   World       `mi_error`, `mi_error_from_gdb` and the allocator (src/alloc.c); the effects of C code
--               as a small monad. World/Ensures and World/After state what holds after every run.
--   Tree        `mi_results` and `mi_output` (src/mi_gdb.h).
--   Parse       src/parse.c, lines 41 to 496. Parse/Cstring: `EndOfStr`, `mi_get_cstring_r`.
--               Parse/Values: `mi_get_var_name` to `mi_get_result`. Parse/Records:
--               `mi_get_results_alone` to `mi_parse_gdb_output`. Parse/Print is gdb's side, a
--               part of its grammar written as a printer; it models no code of the library.
--   Connect     src/connect.c, lines 144 to 339. Connect/Handle: `mi_h`. Connect/Getline:
--               `mi_getline`. Connect/Response: `mi_get_response`, `mi_retire_response`.
--               Connect/Wait: `mi_get_response_blk`. Connect/Callbacks: lines 468 to 566, the
--               callbacks, the time-out, and the version of MI.
--   Enums       enumerations of src/mi_gdb.h with their names (src/parse.c, src/error.c).
--   Query       src/parse.c, lines 498 to 643 and 1374 to 1397: what is looked up in a response.
--   Extract     src/parse.c, lines 645 to 767, 769 to 815 and 930 to 1937: the structures that are
--               filled from a tree. Its children are named for what they fill: Frames, Breakpoints,
--               Variables, Children, Stop, Threads, Memory, Assembly and Registers.
--   Command     `mi_send` (src/connect.c) and the commands, a child for each source: Breakpoint
--               (src/breakpoint.c), Control (src/prg_control.c), Variables (src/var_obj.c), Data
--               (src/data_man.c), Stack (src/stack_man.c), Misc (src/misc.c), Threads (src/thread.c),
--               Target (src/target_man.c).
--   Globals     src/connect.c, lines 590 to 714 and 867 to 900: the globals that name files.
--   Launch      `mi_connect_local` and `mi_free_h` (src/connect.c), on the answers of the operating
--               system.
--   Release     the `mi_free_` functions of src/alloc.c on structures of numbered blocks.
--   Debugger    the class `MIDebugger` (src/mi_gdb.h, src/cpp_int.cc), an object with a state that
--               says what can be called. Debugger/Target: from connecting to selecting a target and
--               back, the destructor, `GetErrorNumberSt`. Debugger/Running: running, polling, killing.
--               Debugger/Walk: stepping. Debugger/Points: breakpoints. Debugger/Inspect,
--               Debugger/Registers, Debugger/Wrappers and Debugger/Callbacks: the other methods.
--               Debugger/Requests: a method with its arguments as a value. Debugger/Steps states the
--               transitions as a relation, and its children prove them method by method;
--               Debugger/Steps/Documented sets them against the documentation. Debugger/Death is
--               about the destructor when gdb has died.
--   Tests       the definitions at concrete input.
-- In each part a child module holds the proofs, and is named for what they prove: Laws, RoundTrip,
-- Fuel, Bounds, Overrun, Lines, Deliver, Dialogue, Names, Answers, Stops, Fields, Changes, Shapes,
-- Sent, Polling, Death, Failure, Steps, Documented, Values, Once. An `mi_res_` or `gmi_` function takes what the
-- surroundings answer while it waits; one that waits several times, and a method of the class, takes
-- `Surroundings`, the answers to each wait.
--
-- How the code is read. A function of the source is a definition of the same name, from the `World`
-- before the call to the value returned with the `World` after it, or to `fault`, which stands for
-- undefined behaviour: a read behind the NUL of a string or through a null pointer, a write outside
-- the line buffer. A null or zero result that stands for failure is `none`. A C string is the list of
-- the bytes before its NUL, and a `const char *` is what remains of it, or `past` its NUL.
-- Fields that the code changes in place are fields of the `Handle` that the definition returns.
--
-- The surroundings. The allocator is outside the program: `refusals` says which of the coming
-- allocations fail, and all behaviours of it are covered. `Plenty` says that none fails. `read` takes
-- its bytes from `pipe`. What `select`, `waitpid` and the time-out callback answer is a list of
-- `Wait`s. `Libc` stands for `atoi`, `strtoul`, `strtol` and the conversions of `printf`, of
-- which nothing is supposed. The callbacks are assumed to leave the handle alone; what they hear is `events`.
--
-- Fuel. The parser calls itself on what a call leaves of the string, so it runs on fuel: 3n + 5 for a
-- string of n bytes. Each result or value takes at most three nested calls (value, tuple or list,
-- element) before a byte is used up, and the five more are for the calls on the empty string. The
-- loop of `mi_get_response_blk` ends with the list of the answers that it gets, and the loop of the
-- destructor with the list of what arrives from gdb: the source has no bound there, and `out_of_fuel`
-- says that the loop is not over. World/After speaks of the runs that return.
--
-- Not modelled. Where the library releases memory, so leaks are no part of the files but Release,
-- and a use after release only where the class keeps its handle; the widths of `int` and `char` where
-- they are not written out, as lengths here are those of lines in memory; of gdb's grammar, what
-- Parse/Print does not write (tokens, other async classes, other escapes); the `__APPLE__` branch; the terminals, which are
-- system calls; `mi_get_async_frame`. The class takes what `mi_connect_local` returns and the globals
-- that it reads (`Settings`) as arguments.
pub mod Base
pub mod World
pub mod Tree
pub mod Parse
pub mod Connect
pub mod Enums
pub mod Query
pub mod Extract
pub mod Command
pub mod Globals
pub mod Launch
pub mod Release
pub mod Debugger
mod Tests
