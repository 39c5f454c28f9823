-- ===== src/Lib.antt =====
-- Athrill's target for the RH850/F1x: models of its C code, and theorems about them.
--
-- The program emulates a microcontroller. A core (src/cpu) decodes an instruction (src/cpu/cpu_dec)
-- into one of the operand formats of op_format.h, and calls the function of the operation
-- (src/cpu/cpu_exec) through a table; the function reads and writes the registers and the program
-- status word of the core, and leaves the program counter at the next instruction. Memory and
-- devices (src/device) lie behind a bus; of the devices, the CAN controller
-- (src/device/peripheral/rh850f1k/can) keeps its messages in FIFOs and queues.
--
-- The files:
--   Base            tests, C arrays as lists, integers over the native numbers, the bits of a number
--   Dec/Format, Dec/CodeId   the operands of the formats, src/cpu/cpu_dec/op_format.h, and the
--                   operation codes, op_codeid.h; Dec/CodeFormat the format that a code's name tells
--   Dec/Types       what the parser's functions share: op_parse.h and op_parse_private.h
--   Dec/Decode      op_dec.c, the decoders of the formats; Decode/Rebuild reads them backwards
--   Dec/Parse       op_parse.c; its children Base0 to Base2 and Extend0 to Extend2 are the functions
--                   of op_parse_private.c, in their order, and Table its two tables. Parse/Agree and
--                   Parse/Format are about the formats, Parse/Index about the choice of an entry,
--                   Parse/Assemble about assembled instructions
--   Cpu/State       CpuRegisterType of src/cpu/target_cpu.h
--   Cpu/Psw         the status word: the CPU_SET_, CPU_CLR_, CPU_ISSET_ macros of
--                   src/cpu/cpu_common/cpu_ops.h and the op_chk_and_set_ functions of
--                   src/cpu/cpu_exec/op_exec_arithm.c; Psw/Flags reads a status word as a record of
--                   flags, Psw/Laws and Psw/Checks say what the macros and functions do to it
--   Cpu/Ops         the op_ functions of src/cpu/cpu_common/cpu_ops.h; Ops/Extend the extensions
--   Cpu/Cond        op_exec_cond, op_exec_bcond of src/cpu/cpu_exec/op_exec_branch.c, setf_chk_cond of
--                   op_exec_arithm.c; Cpu/Compare relates them to CMP, Compare/Jump the branches
--   Cpu/Branch      the jumps of op_exec_branch.c
--   Cpu/Arith       op_exec_arithm.c: Format1, Immediate, Conditional, Div, Mul
--   Cpu/Sat         op_exec_sat.c
--   Cpu/Logic, Cpu/Shift, Cpu/Swap   op_exec_logic.c
--   Cpu/Bit         the searches for a bit of src/cpu/cpu_exec/op_exec_bit.c
--   Cpu/Memory      over the interface Memory/Bus: Load and Load14 are op_exec_load.c, Store is
--                   op_exec_store.c, BitOps the operations on a bit of op_exec_bit.c, Special
--                   SWITCH and CAXI of op_exec_spec.c; LoadEffects, StoreEffects,
--                   RoundTrip and Special/Exchange say what they do
--   Cpu/Extra       op_exec_branch_rh850.c and op_exec_arithm_rh850.c; Extra/Loop is about LOOP
--   Cpu/Decoded     the operations on decoded operands
--   Can/Types       can_data.h, can_buffer.h
--   Can/Ring        the offsets of a ring buffer, and the messages that it holds
--   Can/Queue       the bounded queue beside which such a ring stands
--   Can/Fifo        the receive FIFO of can_fifo.c
--   Can/TxRxFifo    the FIFO for both directions of can_fifo.c; Receive and Transmit are its two uses
--   Can/TxQueue     the transmission queue of can_tx_queue.c
--   Can/History     the transmission history of can_tx_history.c
--   Can/Mode        the modes: Channel is can_mode_channel.c, Global can_mode_global.c, with the MCU
--                   resets of mapping/; Consistent, Diagram, System and Forced are about them
--   Cpu/Tests and the Tests in Cpu/Arith/Immediate, Cpu/Compare, Cpu/Logic, Cpu/Bit, and
--   Can/Tests, Can/History/Tests, Can/Mode/Tests, Dec/Parse/Tests, Cpu/Memory/Tests,
--   Cpu/Extra/Tests, Cpu/Decoded/Tests, Can/TxRxFifo/Tests   the theorems at concrete states
--
-- An operation of the core, `int op_exec_x(TargetCoreType *cpu)`, is a function from the decoded
-- operands and the registers to a status and the registers after it. The status is `ok` for 0,
-- `failed` for -1, and `fault` where the function makes a division or a shift that C leaves
-- undefined. A register is the pattern of its 32 bits; a sint32 or a sint64 value is an integer,
-- read from the pattern and cut to it by `signed32`, `word32` and their like. A sint32 addition
-- that overflows is taken to wrap, as the compiler does. Of the system registers there is only
-- the status word, as the operations modelled use no other. The swaps and the searches for a bit
-- do not test their register numbers, which the decoder cuts to five bits. Printing for the
-- debugger is left out. Where an operation reads an immediate word that follows it, the bus
-- function that fetches it is a parameter.
--
-- `int op_parse(code, decoded_code, optype)` is a function from the code words and the old operands
-- to the operation, `none` for -1, and the new operands. A function of the parser's tables is the
-- list of its `if` statements, each with its operation; the first whose test holds is the answer.
--
-- The functions of the bus belong to the emulator that this target is built into. They are an
-- interface, Cpu/Memory/Bus, over a type of states of what lies behind the bus: a read may change
-- this state and may fail, and so may a write. That a memory keeps what is written to it is a law,
-- stated apart, which only the round trips use.
--
-- The CAN operations take and return the one FIFO or queue that their number or channel selects;
-- they touch no other. A FIFO for both directions has in C a union of two arrays of messages;
-- here it has both, as a function uses the one of the mode, which none changes. The fields of the
-- nested C structs that they share keep their names.
--
-- An event of the CAN modes is a function of the mode and control and status bits of the controller
-- or of one channel; what it resets beside them is left out, and so is the hardware's detection of
-- an idle bus, as in the source.
--
-- Loops: op_sign_extend and op_zero_extend count up to bit 31, so the recursion gets that number of
-- rounds; the search of the transmission queue counts down from its length, and the search for a
-- bit makes 32 rounds. ROTL makes as many rounds as its count, BINS one for each bit it inserts.
--
-- Not modelled: the loads and stores of double words, the dispatch of operations, the floating point
-- operations, HALT and the system instructions of the RH850, the exceptions, the protection unit,
-- the interrupt controller, the timers, the serial line, the clock, the registers of the CAN
-- controller, its receive rules, its transmission and its interrupts, the bus drivers, and the
-- debugger.
pub mod Base
pub mod Can
pub mod Cpu
pub mod Dec
