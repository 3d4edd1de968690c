-- ===== src/Lib.antt =====
-- A verification development for runw, an OCI runtime that runs WebAssembly containers.
--
-- The program creates, starts, signals, shows and deletes containers. What it knows of a container
-- stands in <root>/<id>/state.json, which every command loads; with the state it loads the bundle's
-- configuration, an OCI config.json.
--
-- Parts and files:
--   Common      numbers, Boolean tests, texts as lists of bytes, lists
--   Json        the interface of the JSON parser (simdjson) and its error codes; Json.Tree has a
--               parser's values as a data type, for examples
--   Loader      the shape of the loops of src/bundle.cpp: a step changes the object under
--               construction and says whether to go on; `Keeps`, `Adds` and `Does` are rules on such
--               steps
--   Bundle      include/bundle.h and Bundle::load of src/bundle.cpp. Process, Root, Linux and Load have
--               the loops, named load_* after the object or the entry that they read; Loops and
--               Preserved walk through them for a predicate that is `Stable`, which Range, Unwritten,
--               Mounts and Namespaces apply. Collected is about what a load collects, by the rules of
--               Entries, and Keys about the switches on keys
--   State       include/state.h and src/state.cpp: Print and Load are State::print and State::load,
--               Escape is jsonEscape, Status is parseStatus. Decimal and Document have a reader of JSON
--               objects, written for the specification, and Denotes says when a parser agrees with
--               it. Reference makes a parser of it
--   Signal      parseNumeric and parseSignal of src/runw.cpp, with the table for Linux
--   FilePath    std::filesystem::path's operator/, as far as it is used
--   Disk        the file system: a node for each path. TempFile is getTempFilename, AtomicFile is
--               atomicCreateAndWriteFile, atomicUpdateFile and readAll of src/runw.cpp. Atomicity and
--               WholeFile are about any system, Succeeds about one that refuses nothing, and Siblings
--               is about directories with different names
--   Command     doDelete, doKill, doStart and doState of src/runw.cpp, as functions from a world (the
--               disk and what was done to the outside) to an exit code and a world. Create is doCreate
--               with the child and the daemon that it forks; Created and Ready are about it, Started
--               about the start that follows. Engine is the set-up of the engine in doRunInternal, Main
--               is main after its option parser, and Program is about the whole program
--   Container   the container's process, the second part of doRunInternal in src/runw.cpp. Namespaces has
--               its loops on namespaces, Run the rest, Lifecycle the changes of the state. Left walks
--               through Run for a predicate on the recorded states, which Recorded and Loads apply, and
--               Finishes is about a run that nothing stands in the way of
--   SdBus       include/sdbus.h and src/sdbus.cpp: each wrapper is a function on a `Session`, which
--               counts the references to messages and buses. Dialogue has `expected` and its bind, Leads
--               rules for a state before and after it
--   CGroup      src/cgroup.cpp: UnitName has the names of the systemd units in CGroup::enter, JobStatus
--               is JobStatusChecker, Enter is CGroup::enter, Finalize is checkMode and
--               CGroup::finalize. Script, Typed and References are about Enter, Search and Entry about
--               Finalize
--   Examples    the theorems at concrete inputs
--
-- Conventions. A text is a list of bytes. A C++ function that can fail returns whether it succeeded
-- together with what it has changed until then. Integers of the configuration are those of get_int64
-- and get_uint64 of the parser, and are compared with the bounds of the members' types as the source
-- does; the pid and the exit code of a state are cut to 32 bits. An overflow of the int in
-- parseNumeric is `none`. The operating system is a record of decisions, `Os`: it says which files it
-- opens, reads, renames or removes, and which files of its cache the engine clears, and a theorem
-- holds for all of them unless it says otherwise. A path is a text, and two texts are two paths:
-- links and the names . and .. are not followed.
--
-- Loops. The loops over arrays and objects are recursions on the lists. The loop of getTempFilename runs
-- on the list of suffixes that the random engine draws, and is `none` when all were drawn.
--
-- Processes. `create` forks a child, the child a daemon, the daemon the container's process. The
-- parent waits for the child, and then for what comes through the pipe, so all that happens to the
-- files up to there is one sequence. The container's process goes on alone: run_container starts on
-- the disk that do_create leaves. What the engine and the kernel answer are the fields of `Launch`
-- and `Run`; one of them is a value that the container's process sends before the daemon's
-- reply.
--
-- Systemd. sd-bus is a parameter, `Library`: a function from the calls so far to the answer to the last
-- one. While JobStatusChecker waits, the bus goes through a list of rounds, a field of `Run`; where the
-- list ends first, the outcome is `none`. Nothing is assumed of either.
--
-- The JSON parser is a parameter. `IsLawful` says that the look-up of a key gives the first entry with
-- it, that a look-up in a value is that in its object, and that integers are in the range of their 64-bit
-- types. `ReadsJson` says that the parser accepts a JSON object of plain strings, integers and Booleans,
-- and gives its members in order. Reference shows a parser for which both hold.
--
-- Not modelled: the files of the engine's cache, the flags that unshare is called with (its result is
-- not used), what a bundle with no args leads to (its set-up is `none`), what the container's process
-- writes while `create` still waits, and what it does after doRunInternal has returned (it writes the
-- value to the pipe, whose reader may be gone, and does not exit with it), a signal of systemd that
-- cannot be read (its callback returns -1), the bytes that readAll of src/cgroup.cpp reads (a
-- parameter of `finalize`), the option parser and the usage text in main, logging beyond the opening
-- of the log, the compilation for Solaris, macOS and Windows, and the WebAssembly engine.
pub mod Common
pub mod Json
pub mod Loader
pub mod FilePath
pub mod Bundle
pub mod State
pub mod Signal
pub mod SdBus
pub mod CGroup
pub mod Disk
pub mod Command
pub mod Container
mod Examples
