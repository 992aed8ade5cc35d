-- ===== src/Lib.antt =====
-- Kirenenko finds inputs that drive a program into branches it has not taken. The program is
-- compiled with the taint runtime in llvm_mode/dfsan_rt/dfsan, which gives each byte of the input
-- a label, makes a label for each operation on labelled values, keeps the label of each byte of
-- memory in shadow memory, and, at a branch on a labelled condition, asks Z3 for an input that
-- goes the other way. This library models that runtime, and the pass of
-- llvm_mode/pass/TaintPass.cc that puts its calls into the program.
--
-- Paths below are relative to llvm_mode/dfsan_rt/dfsan, where they do not begin with llvm_mode.
-- - Prelude, Word, Run: shared names, casts to the widths of C, and how a call ends: normally, or
--   by Die(), a failed assert, or an exception that nobody catches, which are faults. An integer
--   of C is a natural number below the power of two of its width; the wrap-around is written out.
-- - Mapping: dfsan_platform.h, and shadow_for and app_for of dfsan.h. The runtime is modelled on
--   Linux/x86_64.
-- - Allocator: taint_allocator.cc, the bump allocator of the table's nodes.
-- - LabelInfo, Operators: dfsan_label_info, its equality and the class option of union_util.cc;
--   the operators of dfsan.h. The numbers of LLVM's instructions are an instance of Opcodes,
--   whose laws say that they fit their byte and lie between the runtime's own operators.
-- - UnionTable: union_hashtable.cc. A node holds the index of the entry that its pointer leads
--   to.
-- - Runtime, Labels: the globals of dfsan.cc; __taint_union, dfsan_create_label,
--   dfsan_check_label, dfsan_has_label, xxhash.
-- - Shadow: __taint_union_load, __taint_union_store and the interface that sets, adds, reads and
--   stores labels.
-- - Process, TaintFile: struct taint_file and its functions, InitializeTaintFile. The C library
--   is the parameter Libc: its calls are data, and what each answers and does to memory is a
--   function. What opening and mapping the input gives at the start is the record Startup.
-- - Custom: dfsan_custom.cc: the functions that stand in for those of the C library (read, pread,
--   fread, getline, fgets, getc and their kin, the stat family, memcmp, strcmp, strncmp, memcpy,
--   memmove, memset, the string copies, open, close, mmap); System has those that take labels off
--   what the system fills in, Convert those whose result has no label, Seek those that move the
--   offset of a file and hold it at its value (they call add_constraints of Branches, so their
--   state is a Program, which joins the process with a session), Cleared what the calls that fill
--   something in leave.
-- - Z3, Expressions: serialize and what it calls. Z3 is a parameter; an operation that throws
--   returns none. The entries of the label table cache expressions and sets on a heap, which
--   World adds to the runtime. Expressions/Plain is the description without caches and state that
--   serialize is compared with; Expressions/Meaning has the values of expressions as a parameter
--   (Semantics), whose laws are those of Z3's bit vectors.
-- - Branches: the branch filter, the dependencies between offsets, add_constraints, __solve_cond,
--   generate_input, __taint_trace_cond, __taint_trace_cmp. The solver and the files that are
--   written are parameters; a set is a list without order.
-- - Pass: llvm_mode/pass/TaintPass.cc. Combine has combineShadows, loadShadow, storeShadow and
--   visitCondition, Visit the visitors: functions from an instruction, and what the pass
--   remembers of its function (TaintFunction), to the code that they insert. Machine runs that
--   code beside the runtime; what the program itself computes and writes is the parameter
--   Application. Reference is the propagation without the constants that the pass knows, which
--   the inserted code is compared with. Means has blocks of integer arithmetic. Calls has
--   visitCallSite, the types and arguments of custom functions (whose bodies are in Custom), and
--   __dfsan_arg_tls. LLVM is not part of the repository: the model has the kinds of types, values
--   and instructions that the pass tells apart, with the sizes that LLVM documents for x86_64,
--   and an instruction is known by its number in the order of the visit.
--
-- The parts meet as in the code: the code of Pass calls Labels, Shadow and Branches, Custom and
-- Shadow call Labels, Labels calls UnionTable, which calls Allocator; Branches calls Expressions,
-- which reads the label table; Custom/Seek calls Branches; Custom and TaintFile share the
-- process, which has the runtime in it.
--
-- Loops are structural where their count is known. serialize has fuel for its depth: operands are
-- older labels, so more than the label's number is enough. The slow path of a load has fuel for
-- its rounds: as many as bytes that are left, since each label covers a byte or more. The
-- collection of offsets has fuel for its rounds: as many as given offsets and offsets of the
-- file.
--
-- A failed assert is a fault, as in a build without NDEBUG; with NDEBUG, as in the Release build
-- of the repository, the code goes on there. A run that ends without a fault is the same in both
-- builds.
--
-- Concurrent calls are not modelled: the atomics are read and written in one step.
--
-- Not modelled: the copy of compiler-rt around the runtime (sanitizer_common, interception,
-- builtins), which the code only calls; reports and debug output; of dfsan_custom.cc, what
-- formats text, mbrtowc, the callbacks (write, pthread_create, dl_iterate_phdr) and dlopen; of
-- TaintPass.cc, phi nodes and loops, the building of wrappers and trampolines, the recording of
-- contexts and -taint-args-abi; the other passes in llvm_mode/pass; the compiler wrapper;
-- pin_mode, which needs libdft; external_lib. Hooks of comparisons are weak symbols that nothing
-- defines. The reserve of memory maps and flags at the start of dfsan_init is glue.
pub mod Prelude
pub mod Word
pub mod Run
pub mod Operators
pub mod Mapping
pub mod Allocator
pub mod LabelInfo
pub mod UnionTable
pub mod Runtime
pub mod Labels
pub mod Shadow
pub mod Process
pub mod TaintFile
pub mod Custom
pub mod Z3
pub mod Expressions
pub mod Branches
pub mod Pass
mod Tests
