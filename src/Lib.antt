-- ===== src/Lib.antt =====
-- cplr, the C piler: a tool that piles up pieces of C on the command line or in an interactive
-- session, makes one program of them, and compiles and runs it with libtcc.
--
-- The files and what they model (paths from the root of the repository):
--
--   Base.antt        shared names; Base/Outcome.antt the result of C code (done, crash, exits,
--                    aborts, out_of_fuel); Base/Text.antt and Base/Decimal.antt texts,
--                    <ctype.h>, %d
--   Tcc.antt         libtcc as a parameter: a type of states and the functions that are called;
--                    tcc_run may return, or end the process in any way, or never end
--   State.antt       source/cplr.h and source/cplr_state.c: Enums, Context (struct cplr,
--                    cplr_new, cplr_empty), Clone (cplr_clone), Chain (cplr_chain, cplr_free,
--                    and cplr_find_syms of source/cplr_symbols.c), with Laws and Symbols;
--                    Struct (struct cplr in memory: what cplr_free, cplr_clone and cplr_chain
--                    do to its blocks), with Frame, Free, Copy, Refines, Parts, Chain, Walks,
--                    Extend, Grow (a text more in a pile), Steps (a session on pilers in memory) and
--                    Layers
--   Package.antt     source/cplr_package.c: Scan (cplr_pkgconfig_add), with Options, RoundTrip,
--                    Totality and Separate; Query (source/cpkg.c and cplr_pkgconfig_prepare)
--                    and Retrieve
--   Generate.antt    source/cplr_generate.c: Emit (cplr_emit), Sections (cplr_generate_section
--                    and cplr_generate_code), Phase (cplr_generate), Dump (cplr_generate_dump),
--                    Labeled (cplr_generate_labeled, which nothing calls), Program (the text
--                    that the piles stand for), with Printed, Lines, Items, Section, Whole,
--                    Correct and Shown
--   Cext.antt        the library below: Strings (source/cext_string.c), Types and Value
--                    (include/cext/value.h and source/cext_value.c), Memory (what frees in
--                    source/cext_memory.c), Allocate (what allocates there, and
--                    source/cext_abort.c), List (include/cext/list.h and source/cext_list.c).
--                    Value has Laws, Strings and Uses (setters in any order); List has Shape
--                    (what a list of strings is in memory), Append, Piles, Clear, Patch, Clone
--                    and Walk (the loops over a list)
--   Host.antt        system, popen, getenv, fork and waitpid as a parameter
--   Phases.antt      Prepare (source/cplr_prepare.c), Compile (source/cplr_compile.c), Execute
--                    (source/cplr_execute.c) and Run (source/cplr_run.c), with Prepares, Calls,
--                    Errors (cplr_tcc_error, with Lines and Reports), Symbols, Waits, Steps,
--                    Ends (code that runs a
--                    program may end as that does), Sound (what each phase keeps) and Sequence
--   Optparse.antt    source/cplr_optparse.c: Options (cplr_optparse) and Help (what help,
--                    herald and version print), with Piles
--   Defaults.antt    source/cplr_defaults.c
--   Command.antt     source/cplr_command.c: Line (cplr_command) and Print (what the commands
--                    print), with Prefixes and Keeps
--   Session.antt     source/cplr_interact.c (Interact) and source/cplr_main.c (Main), with
--                    Chains (the pilers of a session), Grown, Frees, Total, Listing (what
--                    commands print along a chain) and Whole
--   Tests.antt       runs on concrete data, and the theorems at concrete inputs
--
-- A piler (struct cplr) is the record Cplr over the type of compiler states. A pile is the list
-- of its strings, oldest first; what such a list is in memory, with its nodes and the ownership
-- of the strings, is modelled under Cext, and State.Struct ties the two together: there a piler
-- is a block with list heads in it, at 24 bytes each from 144 on. Flags are Booleans. What
-- libtcc reports in a phase is noted in the piler's flag at the end of the phase. Pilers
-- that are chained live in a store, a function from addresses; 0 is NULL. A C string is the
-- list of its bytes before the NUL. Natural numbers stand for the int values, none of which is
-- negative where the model has them. A value's number is its bits, for the widths of a 64-bit
-- machine.
--
-- The parts meet as in the program: main fills a piler from the options and the defaults, runs
-- it (preparation, generation, compilation, execution) and hands it to the interactor, which
-- takes commands line by line, chains a new piler behind one that is loaded, and frees the
-- chain.
--
-- Loops over strings and chains run on fuel. cplr_pkgconfig_add gives its loop one round more
-- than the text has characters, since a round passes at least one; cplr_find_syms takes its
-- fuel as an argument, and one more than the length of the chain is enough. The loop that frees
-- a session's pilers takes its fuel as an argument, and more than the number of lines is
-- enough, since a line adds one piler at most; the loops of cmd_list and cmd_stat need more
-- than the number of pilers, l_clear and l_clone more than the number of nodes (in memory a
-- piler is cleared and cloned with more than the nodes of any of its piles, and in a session
-- the steps besides), cplr_tcc_error more than the bytes of a message, and the loop of
-- cplr_generate_dump more than the number of bytes, since a round writes one at least. The loop
-- over waitpid runs over the list of what waitpid returns, and a session over the list of its
-- lines.
--
-- Not modelled: what is printed to stderr, but for the commands, the help, the messages of
-- libtcc and the report of cplr_generate, the history of readline, what a program that runs
-- does to memory, allocation that fails (the program aborts, or for strdup uses NULL) outside
-- Cext.Allocate, what else than strings and piles tcc_delete and the streams of a piler hold in
-- memory, wide characters, and options of INT_MAX bytes or more. cplr_generate_dump is
-- modelled by itself: a run takes it that the filter of the dump can be started and takes every
-- byte.
pub mod Base
pub mod State
pub mod Tcc
pub mod Host
pub mod Phases
pub mod Cext
pub mod Defaults
pub mod Command
pub mod Session
pub mod Optparse
pub mod Package
pub mod Generate
pub mod Tests
