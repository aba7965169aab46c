-- ===== src/Lib.antt =====
-- Verification library of the dynamic DXT loader: its commands and their parameters, the module
-- registry, the image loader and the error responses.
--
-- The loader is an XBDM plugin. XBDM hands it one line of text per command. The handlers of
-- src/dxtmain.c cut that line into keys and values with src/command_processor_util.c, receive an
-- image, let dll_loader/dll_loader.c relocate and resolve it, and look its imports up in the
-- table of src/module_registry.c. Everything that lives longer than a call is a block of the
-- debug heap, which src/xbdm.h declares (DmAllocatePoolWithTag, DmFreePool).
--
-- Files and code:
--   Pool     The heap as C sees it: blocks of one type each (strings, arrays of `char *`, list
--            nodes of the registry), found by address, in a state that each operation passes
--            on. A run is a value with a heap, or `fault`, which stands for every access that C
--            leaves undefined: outside a block, to a freed block, a free of no block, a read of
--            a slot that was never written. XBDM's allocator is the parameter `Allocator`: it may
--            answer NULL at any time, and otherwise a block that is not in use. Pool.Owned says
--            which blocks a component owns and that it has touched no others, and
--            Pool.Context speaks of one place among them.
--   Command  src/command_processor_util.h, and with its children src/command_processor_util.c:
--            Command.Scan     FirstNonSpace, KeyEnd, ValueEnd, one round of the parser's loop
--            Command.Storage  CPDelete, CommandParametersReserve, CommandParametersAppend
--            Command.Parse    CPParseCommandParameters; Parse.Text is what a text means, with
--                             no heap in it, Parse.Print a printer for it
--            Command.Query    CPHasKey, CPGetString
--            Command.Numbers  CPGetUInt32, CPGetInt32, and the C library's strtoul and strtol at
--                             base 0 and 32 bits
--            Command.Errors   CPPrintError, and the C library's strncpy
--            Command.Frame    the parser and the registry's lists
--            Command.Session  a parse, lookups and a delete together
--            Command.Tests    inputs of test/command_processor_util/test_main.cpp, and examples
--   Registry src/module_registry.c and .h: the lookups, counts and the enumeration;
--            Registry.Update    MRRegisterMethod, MRResetRegistry, PoolStrdup of src/util.c
--            Registry.Chains    which modules and exports the linked lists stand for
--            Registry.Lookup, Registry.Walk, Registry.Exhausted   theorems
--            Registry.Model     the registry as a list of modules, and a registration in it
--            Registry.Owns      the blocks that the lists own, through MRRegisterMethod and
--                               MRResetRegistry: Owns.Locate where the walks stop, Owns.Moves
--                               single steps, Owns.Outcomes and Owns.Append AppendExport, Owns.NewTable
--                               SetExportTableEntry, Owns.Register the rest
--                               of a registration, Owns.Session a registry through many calls
--            Registry.Tests, Registry.Owns.Tests   runs on small lists, and examples
--   Loader   dll_loader/dll_loader.c and .h, on byte arrays for the file and the image:
--            Loader.Types     the contexts, statuses, input and output of the header
--            Loader.Run       runs of the loader: true, false, `fault` or no fuel; its memory
--            Loader.Parse     DLLParseHeader, DLLLoadImage, DLLProcessSections, DLLFreeContext
--                             Parse.Advance, Parse.Inside and Parse.Sections are theorems
--            Loader.Imports   DLLResolveImports; Loader.Messages  its error texts
--            Loader.Relocate  DLLRelocate
--            Loader.Load      DLLParse, DLLLoad, DLLInvokeTLSCallbacks
--            Loader.Tests     a load of a small file, and examples
--   Handlers src/dxtmain.c, where the parts come together: a run passes on the heap, the blocks
--            of the image loader, the response's text, XBDM's CommandContext of src/xbdm.h and
--            the union `context_store`;
--            Handlers.Commands  ProcessCommand, HandleHello, SendMethodAddresses
--            Handlers.Transfer  HandleDynamicLoad, ReceiveImageData; Transfer.Chunks and
--                               Transfer.Upload are a transfer in chunks
--            Handlers.Complete  ReceiveImageDataComplete
--            Handlers.Exports   RegisterExport, DXTMain, and src/link_loaded_modules.c;
--                               Exports.Images and Exports.Found are what they leave registered
--            Handlers.Optional  HandleReserve, HandleInstall and HandleRegisterModuleExport, which
--                               a build without LEAN_BUILD has, and its ProcessCommand
--            Handlers.Commands.Tests, Handlers.Exports.Tests, Handlers.Optional.Tests
--                               runs on small inputs, and examples
--   Response src/response_util.c over a buffer with a size, where `none` is a write behind its end;
--            Response.Truncate  theorems, Response.Tests  examples
--
-- A `char *` into the input is the rest of the text in front of its terminator; `deref` of an
-- empty rest is the terminator. A scan that passes the terminator has no such rest, and is a
-- `fault` of the run. An `int32_t` that counts entries or slots is a natural number; the texts
-- are shorter than 2 ^ 28 characters, so that the capacity, which doubles, stays below 2 ^ 29 and
-- its size in bytes below 2 ^ 31. The error codes are integers. The loops over the text run on
-- fuel, one more than the length of the text in front of them: each round leaves a shorter rest.
-- The registry's walks along `next` run on fuel too, one more than the longest list being enough,
-- and so does a client's enumeration, one more than all exports. A run that lacks fuel is
-- `out_of_fuel`, not a value. The other loops are structural.
--
-- In the loader a pointer into the file is its distance from `raw_data` modulo 2 ^ 32, so that an
-- address in front of the file is a large offset, and ADVANCE_READ_PTR compares addresses; a
-- pointer into the image is its offset, which does not wrap. A pointer has 4 bytes; a block from
-- the allocator holds arbitrary bytes. The allocator answers the n-th request with any address; a
-- resolver answers a name with an address or with false, or does not come back; the TLS callbacks
-- are any functions of the loader's state. The loops over descriptors, thunks and relocation blocks
-- follow data of the image, and have no bound in the code: they run on fuel, of which a theorem
-- says how much is enough, or that none is.
--
-- A handler's run that faults, or leaves its response buffer or the member of `context_store` that
-- was written, is `undefined`; one that lacks fuel is `unfinished`. The received file is a block of
-- the heap. The loader's requests for memory, the TLS callbacks and the code at an entry point are
-- the parameter `Platform`; the memory that other modules stand in, the modules that
-- DmWalkLoadedModules answers with, and the result of DmRegisterCommandProcessor are parameters
-- too. XBDM's part of a transfer is to hand over chunks of any size until the handler returns
-- something else than XBOX_S_OK: Handlers.Transfer.Chunks.deliver for their sizes alone, and
-- Handlers.Transfer.Upload.transfer with their bytes, each chunk written at `ctx->buffer` within the
-- block that holds it before the handler is called.
--
-- Not modelled: the text that DbgPrint gets, and src/nxdk_dxt_dll_main.h, which starts the C
-- runtime. The bootstrap loaders are assembly, and the tests' headers are those of the nxdk.
pub mod Base
pub mod Pool
pub mod Command
pub mod Registry
pub mod Response
pub mod Loader
pub mod Handlers
