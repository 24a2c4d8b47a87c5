-- ===== src/Lib.antt =====
-- Bmboot runs programs without an operating system on cores 1 to 3 of a ZynqMP, under the control of a
-- manager on the Linux core. On each such core (an executor) a monitor runs at EL3; it checks the
-- payload that the manager has put in memory, enters it at EL1, serves its monitor calls, and kills it
-- when the manager sends an inter-processor interrupt. The two sides talk through a block of shared
-- memory, which this library models as a value that both sides' operations change.
--
-- Parts, and the files that model them:
--   Types (Enums, Names): the enumerations of include/bmboot.hpp and the texts of
--     src/utility/to_string.cpp.
--   Ipc: the shared block of src/bmboot_internal.hpp, as a record per direction. Fields with an
--     enumeration's type are integers, as they lie in memory.
--   Stdout (Contents, Refine, Interleaving): the circular output buffer in the block: `writeToStdout`
--     of src/executor/monitor/smc_handlers.cpp (`write_to_stdout`) and `Domain::getchar` of
--     src/manager/domain.cpp (`getchar`). Interleaving splits both at their stores, as steps.
--   Crc (Table, Xor, Reference): src/utility/crc32.c, beside the polynomial division it stands for.
--   Bus, Zynqmp: the register map and channel tables of src/platform/zynqmp/zynqmp.hpp and
--     src/executor/gicv2.hpp. What the hardware does with a load or a store is a parameter (`Bus`);
--     `Distributor` lists what the GICv2 specification says of the registers that the code uses.
--   Gic (Enable, Configure, Teardown): src/platform/zynqmp/executor/monitor/interrupt_controller.cpp
--     and the inline operations of src/executor/gicv2.hpp.
--   Monitor (Validate, Setup, Loop): `main` and `validatePayload` of src/executor/monitor/monitor.cpp
--     and `setupInterrupts`. `main_round` is one round of the endless loop. Entering a payload is a
--     value of `Control`, since `enterEL1Payload` does not return.
--   Monitor.Identity: src/executor/executor.cpp.
--   Monitor.Vectors (Kill, Crash): the exceptions to EL3 of
--     src/platform/zynqmp/executor/monitor/vectors_el3.cpp. The restart at `_boot` is `start_main`.
--   Smc (Laws, Configure): `handleSmc` of src/executor/monitor/smc_handlers.cpp; its `reportCrash` is
--     in Monitor. None stands for undefined behaviour.
--   Manager (Memory, State, Start, Boot, Load with Elsewhere, Open, Elf, Crash):
--     src/manager/domain.cpp and src/platform/zynqmp/manager/zynqmp_manager.cpp. `Host` holds the
--     operating system's answers and `elapse`, which is what the rest of the machine does while the
--     manager sleeps or between two of its loads; the block is a field of `World` and no part of its
--     `memory`. Outside Protocol, Load.Elsewhere and Lifecycle nothing is assumed of `elapse`.
--   Manager.Domain (Promises): the abstract class of include/bmboot/domain.hpp, as the interface through
--     which the tools load payloads, and the class `Domain` that fills it.
--   Manager.Mapping: the class of src/utility/mmap.hpp.
--   Manager.Protocol (Mismatch): the manager's start of a payload together with the monitor's loop.
--     There `elapse` is assumed to do a round of `main_round` while the manager sleeps.
--   Manager.Console (Text, Steps, Prints, Drains, Threads): `runConsole` and the threads of
--     src/manager/domain_helpers.cpp. A round is one turn of the loop; that the console is interrupted
--     is the end of the list of rounds.
--   Manager.Coredump (Image, Layout, Returns, Whole, Dump): src/manager/coredump_linux.cpp, and
--     `dumpCore` of src/manager/domain.cpp. The C library's files are a parameter (`Stdio`, with
--     `Appends`), and so are the bytes of the ELF structures (`Structs`, with `Sized`).
--   Tools (Load, Bmctl, Console): src/tools/bmctl.cpp and src/tools/console.cpp, with
--     `loadPayloadFromFileOrThrow` and `throwOnError` of src/manager/domain_helpers.cpp: what they do
--     to a domain, and how they exit.
--   Sys: the system registers of a core, a parameter (`SysBus`) with what the architecture says of those
--     that just hold what is stored (`PlainRegisters`).
--   Payload (Runtime, Vectors, Sleep, Syscalls): the side of an executor that is linked to a payload:
--     src/executor/payload/payload_runtime.cpp and syscalls.cpp,
--     src/platform/zynqmp/executor/payload/vectors_el1.cpp and src/platform/zynqmp/executor/sleep.cpp.
--     `Core` adds its variables to the monitor's `Executor`, on which a monitor call runs `handle_smc`.
--     The payload's own functions are a parameter, and so is the timer that `usleep` reads.
--   Lifecycle (Round, Frames, Unspoiled, Invariant, Entry, Drives, Start, Terminate, Rings, Kill,
--     Load): a core and the manager together. A step is a round of `main_round`, an exception to EL3,
--     what a payload does, or a store of the manager; a theorem there is about any sequence of steps.
--     `Drives` is what the manager's functions are then run against: a world whose core takes such
--     steps whenever time passes. `Rings` adds what the device's inter-processor interrupts do.
--   Base: tests into Bool, lists over the native numbers, integers, binary digits.
--   Tests: concrete machines and runs.
--
-- Numbers: sequence numbers wrap at 2 ^ 32. Buffer positions are reduced by the buffer's size, which
-- divides 2 ^ 64. The count of headers in a core dump wraps at 2 ^ 16, and `size_t` not at all.
-- Interrupt ids are natural numbers, and a negative `int` id is written out in Smc and in Payload. The polling loops have their bounds from the source (50 and 100 rounds). `usleep` takes
-- fuel: one load for each that the timer may take for a tick, and one more, as its theorem says.
--
-- Not modelled: what the tools print, the scheduling of threads and other I/O; the file
-- /etc/bmboot.conf, which the C++ library reads (its number is a field of `Host`); caches and
-- barriers, which change no state of the model; start-up assembly, which is no C++; src/tools/bmtest.cpp,
-- demos and tests, which exercise the rest on a board. The ELF library is a git submodule and a
-- parameter of Manager.Elf.
pub mod Base
pub mod Types
pub mod Ipc
pub mod Stdout
pub mod Crc
pub mod Bus
pub mod Zynqmp
pub mod Gic
pub mod Monitor
pub mod Smc
pub mod Manager
pub mod Sys
pub mod Payload
pub mod Tools
pub mod Lifecycle
mod Tests
