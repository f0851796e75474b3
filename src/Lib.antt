-- ===== src/Lib.antt =====
-- The host side of the go-perl XS SDK, xs/sdk/include/perl.h and perliol.h.
--
-- go-perl embeds a perl interpreter in Go. Native XS modules are compiled against the SDK header,
-- which stands in for perl's own: an SV is a token, and each macro either reads and writes host
-- state or calls the interpreter through the vtable `goperl_api_t` that the loader injects. The
-- interpreter and the loader are no part of this code; a call's result is a parameter (`Guest`).
--
-- Bridge: the vtable's calls, the operation numbers (Bridge/Op) and the host state that holds
--   pending writes (`goperl_shared_t`, `goperl_frame_t`). The calls made are a log, oldest first.
-- Flush: `goperl_flush`, which writes the pending state to the guest, and the funnel
--   `goperl_do_op`, which runs it before each operation. Flush/Spec says what is pending.
-- Mirror: the macros that hand out a C lvalue for interpreter state: `SvIVX`, `AvARRAY`, `SvCUR`,
--   `PL_hints`, the variables and the hooks. A pointer is an index into the mirror's table; the
--   module's assignment through it is an operation of its own.
-- Save: the host save stack, which ENTER and LEAVE and the return of an XSUB unwind, over a memory
--   of 32-bit words; a croak of a full stack is `none`. Save/Activation is the protocol of
--   `dXSARGS`, `goperl_xs_leave` and `__goperl_xs_epilogue`, which is built on it, and
--   Save/Activation/Hooks the entries of pp and magic hooks, with the frame in that memory; a croak
--   writes its `failed` and `err`, whose text is a parameter of the hook's end.
-- Scratch: the tables of `save_destructor_x` and `SSNEW`; the call of a destructor is a value.
-- Intern: `goperl_intern`; a pointer is its bucket and the number of entries behind it.
-- Marks: the mark stack of a frame, with the pointer that a module may move; one frame at a time.
-- Calls: `goperl_do_call` for `call_sv` and `call_method`, `goperl_call_pv`, `goperl_eval_sv` and
--   `goperl_do_join`, on Marks and the funnel. Calls/Dispatch is `goperl_pp_dispatch`, the call of a
--   slot of `PL_ppaddr`.
-- Format: `goperl_vfmt` and its callers `form`, `croak` and `warn`, over byte lists. `snprintf`
--   and the text of an SV are a parameter (`Printf`); the loop runs on fuel, the length of the
--   format and one, and each round takes a byte of it.
-- PerlIo: the layers of xs/sdk/include/perliol.h. PerlIo/Tail is the node that stands for the guest
--   layer below, PerlIo/Methods the stock functions and the dispatchers, PerlIo/Define the
--   registration, PerlIo/Shadows the list of host shadows and PerlIo/Invoke the call of a hook by
--   the interpreter, which formats its croaks by Format. The author's functions are a parameter.
-- Optree: the host shadows of ops, at addresses of the host, and the write-back of the fields that a
--   module changed. Optree/Registry is `goperl_op_shadow` and the reading of an op; Optree/Build
--   the shadows of COPs and the constructors and operations on the tree.
-- Parser: the shadow of `PL_parser` around each operation of the lexer and the parser, on Optree.
--   Parser/Block has blocks and pads, Parser/Plugin the chains of keyword and infix plugins and
--   `__goperl_keyword_invoke`; the modules' plugins are a parameter. Its frame is outside the memory
--   that the host save stack restores, and the frame's `failed` and `err` are left out.
-- Threads: the table of current frames (`goperl_curframe_slot`), as steps of threads under any
--   schedule. The memory is sequentially consistent. The other parts have one thread, whose
--   current frame is a field of their state.
-- Contexts: the shadow of the stack infos (`goperl_si_materialize`, `goperl_si_cur`), on Optree.
--   The chain ends at depth 16, as in the code.
-- Entries: the shadows of hash entries and their keys (`goperl_he_shadow`, `goperl_he_hek` and the
--   `He` macros), with the arena that they are allocated in, and `goperl_hv_iternextsv`.
-- Magic: the slot behind `SvMAGIC`, which a module may assign, and the operations on magic.
-- Fetch: the ring of 16 slots behind `goperl_av_fetch`, `goperl_hv_fetch` and `goperl_hv_store`.
-- Sort: `goperl_sortsv`, with the module's comparison as a parameter.
-- Attributes: `apply_attrs_string`, with its words. Display: `goperl_pv_uni_display`.
-- Overload: `goperl_amagic_deref_call`, which follows overloaded dereferences, on fuel.
-- Utf8: the UTF-8 toolkit, over byte lists.
-- Text: `grok_number`, `ninstr`, `rninstr`, `my_strlcat`, over byte lists.
-- Prelude: Boolean tests, lists and lemmas that the others share.
--
-- Numbers are natural numbers, with the wrap-around of the C type written out where it can occur:
-- a token, an IV or a pointer is its bit pattern. A loop that the list's structure does not bound
-- runs on fuel, the length of its buffer, and gives an option: each round takes a byte at least,
-- so this is enough, and no result is `none` for want of it (outermost, where there are two). The
-- capacity of an array mirror is doubled at most 32 times, which covers each 32-bit length. The loop
-- of Overload has no bound in the code, so that its fuel is an argument of the theorem.
--
-- Not modelled: what the interpreter does, Perl code that re-enters a module during a call,
-- allocation failure, the generated opcode and keyword tables, and the Go packages around the SDK;
-- of the header, the wrappers that make a single call (values, stashes, globs), and the streams of
-- the host's stdio.
pub mod Attributes
pub mod Bridge
pub mod Calls
pub mod Contexts
pub mod Display
pub mod Entries
pub mod Fetch
pub mod Flush
pub mod Format
pub mod Intern
pub mod Magic
pub mod Marks
pub mod Mirror
pub mod Optree
pub mod Overload
pub mod Parser
pub mod PerlIo
pub mod Prelude
pub mod Save
pub mod Scratch
pub mod Sort
pub mod Text
pub mod Threads
pub mod Utf8
