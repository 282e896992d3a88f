-- ===== src/Lib.antt =====
-- Verification of the Rust code in sw/rust: the library warpshell, which drives a Xilinx U55N card
-- over the XDMA driver's device files, and the tool warpshell-cli.
--
-- The program's parts, from the bottom up. A channel (sw/rust/warpshell/src/xdma) is an open device file; it
-- reads and writes bytes at an offset. A core (sw/rust/warpshell/src/cores) is reached through the interfaces
-- `BasedCtrlOps` (registers) and `BasedDmaOps` (bulk data) of sw/rust/warpshell/src/lib.rs, which a channel
-- implements for every core with a base address. The shell (sw/rust/warpshell/src/shells) owns one channel of
-- each kind and all the cores, and programs the user image. The tool calls the shell.
--
-- - System: the calls to the operating system, and its answers as a parameter `Os`: an arbitrary
--   function of the log of all earlier calls. Devices and the driver are thus not restricted, but
--   deterministic; a theorem that needs more of them says so as a hypothesis.
-- - Outcome: `Result` with a third case for panics, and effects as functions on the log, the latest
--   call first. `?` is the bind of a do block, `map_err` the conversion of errors. Outcome/Costs counts
--   the calls and the sleep of an effect; the modules Xdma/Costs, Hbicap/Costs, Cms/Costs, Shell/Costs
--   and Cli/Costs bound them from the bottom up.
-- - Based: sw/rust/warpshell/src/lib.rs, the interfaces as records of operations and the polling functions.
--   Based/Poll and Based/Poll/Search are about polling, Based/Storage has laws of interfaces.
-- - DmaBuffer: `DmaBuffer` and `aligned_vec` of sw/rust/warpshell/src/lib.rs. The capacities of `Vec` are a
--   parameter with the documented promise of `with_capacity`. DmaBuffer/Filled is about filling them.
-- - Xdma: sw/rust/warpshell/src/xdma/mod.rs. Xdma/Transport is about the interface over the device files,
--   Xdma/Cells about the once-cells.
-- - AxiFirewall, DfxDecoupler, Hbicap, Cms: sw/rust/warpshell/src/cores/axi_firewall.rs, dfx_decoupler.rs,
--   hbicap.rs and cms.rs, one function per method. Hbicap/Packet has the configuration packets,
--   Cms/Reg the register map, Cms/CardInfo the parser of card information, with the items in
--   Cms/CardInfo/Item and their byte form, stated apart from the parser, in Cms/CardInfo/Codec;
--   Cms/CardInfo/Fits is about the range of what it returns.
--   Cms/CardInfo/Text has the texts of items and of card information, as lists of code points.
--   Cms/Startup, Mailbox, Rounds, Answered, Control and Live are about the operations of the core, Hbicap/Calls,
--   Abort, Bursts, Readback and Reset about those of HBICAP.
-- - Shell: sw/rust/warpshell/src/shells. Shell/Quiet, Program, Sequence and Idle are about programming,
--   Shell/Channels about the channels of several shells, Shell/Race about threads that make shells at the
--   same time, Shell/Map about addresses, Shell/Calm about panics. Shell/Segments has the address
--   segments of the block design hw/shells/xilinx_u55n/xdma_gen4x4/shell.bd. Shell/Phases
--   describes programming once more, as a machine whose first step makes the core idle, as the code
--   does, and whose other steps are writes of values to addresses; Shell/Phases/Run compares the code with it, Shell/Phases/Firewalls is about the registers of the
--   firewalls in each phase, Shell/Phases/Live about devices that answer in time. Shell has the shell as
--   the two channels that all its cores share; Shell/Cores has the structs of the cores, the traits as
--   records that are instance arguments, and `new` on structs, which Shell/Cores/Wired compares with it and
--   with the segments of the block design.
-- - Derive: sw/rust/warpshell-derive/src/lib.rs, from tokens to tokens. The parser of syn is a parameter.
--   Derive/Read reads the `impl` of a getter, for a type with names as arguments; Derive/Generics and
--   Derive/Getter are about what the macros make.
-- - Examples: sw/rust/warpshell/examples. What the register example prints is its value. The lists of all
--   registers of a kind are parameters of Examples/U55nRegs; Examples/U55nRegs/Dump and Dumped are
--   about its calls.
-- - Cli: sw/rust/warpshell-cli/src/main.rs from the parsed arguments on. A line that it prints stands in the log
--   among the other calls. What amplify makes of a doc comment, the text of a duration and whether the
--   build checks for overflow are parameters, the record `Build`.
--   Cli/Power, Program, Traced, Digits, Calm, Panics, Live and Costs are about its commands, over all
--   the parts below.
-- - Tests: the test device, runs of the definitions, and the theorems at concrete inputs;
--   Tests/Repository has the unit tests of sw/rust/warpshell/src.
--
-- Numbers are natural numbers. The formula of the board power, where the readings of a device can make
-- `u32` arithmetic overflow, is modelled for builds with overflow checks and without; elsewhere `u32`
-- and `u64` are remainders where the bounds of an argument are not known. Durations are in
-- nanoseconds. A mutable buffer that is filled is returned.
--
-- Loops: the polling functions recurse on the number of tries. The loop of `CardInfo::try_from` has the
-- length of the input as fuel, of which each round uses at least two bytes; the loops of
-- `get_card_info` and `write_programming` have the number of bytes or words left, of which each round
-- takes at least one. The digits of a `u32` have fuel ten, as many as it can have.
--
-- Not modelled: the texts of errors and of the log; the parsing of arguments, which is clap's; failures
-- of `println!`; benchmarks, which time what the library does; and the hardware design of the
-- repository, except for the address segments of the cores.
pub mod Base
pub mod System
pub mod Outcome
pub mod Based
pub mod Xdma
pub mod AxiFirewall
pub mod DfxDecoupler
pub mod Hbicap
pub mod Cms
pub mod Shell
pub mod Derive
pub mod DmaBuffer
pub mod Cli
pub mod Examples
pub mod Tests
