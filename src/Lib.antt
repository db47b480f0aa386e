-- ===== src/Lib.antt =====
-- papuga: the request automaton, its stack of events, serializations, schema descriptions, the allocator,
-- value variants, and the URI encoder.
--
-- papuga builds language bindings and runs requests that are described by automata. A schema is given
-- as a sequence of calls of the papuga_RequestAutomaton_* functions, which fill an AutomatonDescription:
-- method calls, structures, values and result descriptions, each bound to a selector expression. The
-- textwolf library matches a document against the expressions and reports events, which are packed
-- references to these definitions; they wait on event stacks, one for each type, and are taken from there
-- in the order of the types. Expressions of results and links are encoded for URIs.
--
-- Parts and files (paths from the repository's root):
--   ErrorCode         include/papuga/typedefs.h, the enumeration papuga_ErrorCode.
--   Uri               src/uriEncode.cpp: the tables of preserved characters, printCharEncoded, the encode
--                     loop, papuga_uri_encode_Html5 and papuga_uri_encode_Rfc3986. Uri/Encoded and
--                     Uri/Decode state what they do, against a percent decoder.
--   Stack             src/stack.c and include/papuga/stack.h: papuga_Stack_push, papuga_Stack_pop,
--                     papuga_Stack_top and papuga_Stack_top_n on a chain of nodes. Stack/Frames has the
--                     abstract view, a list of slots; Push, Pop, Top and TopN the operations against it.
--   Allocator         src/allocator.c: papuga_Allocator_alloc with the nodes of memory, the references of objects
--                     with a destructor, and copies of strings. Align, Growth and Refused are about alignments,
--                     the size of a new block, and sizes that are too big; Blocks has the memory that is served,
--                     and Served the call against it.
--   Encoding          src/encoding.c: the encodings of strings and their names.
--   Value             src/valueVariant.cpp: the conversions of value variants. Numerals has string_enc_tonumstr, with
--                     an automaton in Automaton and Language; Ascii string_toascii; Convert the conversions to numbers,
--                     Strings those to strings, Blob that to blobs. Decimals is about numbers as texts and back.
--   Serialization     src/serialization.c: chunks of nodes, the papuga_Serialization_push functions, the
--                     iterator with papuga_SerializationIter_skip, papuga_SerializationIter_skip_structure and
--                     papuga_SerializationIter_follow_tag, and papuga_Serialization_release_tail. Push, Walk,
--                     Structure and Release have the list of nodes as the abstract view of a chain of chunks.
--                     Flatten has papuga_Serialization_flatten, with the serializations that values point to
--                     as a function from addresses.
--   Schema            src/schemaDescription.cpp: the class TreeNode and the functions
--                     papuga_SchemaDescription_add_element, _add_relation, _add_dependency and _set_resolve. Scan
--                     has the scanning of expressions, Node the setters and the search for children, Conditions
--                     addConditionElements, Follow addFollow, Build addElement and addSubTree, Calls the C
--                     functions, Scopes assignScope, and Finish with Deep and References the passes of
--                     SchemaDescription::finish, whose tree Finish/Checked is about. Quoted is about conditions with a quoted value; Fuel,
--                     Positions, ConditionsEnd and Termination are about the ends of the loops.
--   SchemaSource      src/schema.cpp: parseNextLexeme with what it calls, expectComma, skipToEndBlock, errorLine
--                     and stringToBool. Blocks is about skipToEndBlock.
--   RequestParser     src/requestParser.c: papuga_guess_ContentType and papuga_guess_StringEncoding; Feeding is
--                     papuga_RequestParser_feed_request, on the elements that a parser gives, and Fed and
--                     Total are its proofs over Request/Context. Bounds is about
--                     the bytes that the guesses read.
--   Stack/Events      src/request.cpp: the class EventStack over that stack.
--   Request/Refs      src/request.cpp: AtmRef_*, ResRef_* and ObjectRef_*.
--   Request/Keys      src/request_utils.hpp: Scope; src/request.cpp: ScopeKey and MethodCallKey.
--   Request/Description  src/request.cpp: the class AutomatonDescription. State has its members and private
--                     helpers, Expression the texts, Calls and Structs the operations, Operations all of
--                     them as one type for the papuga_RequestAutomaton_* functions. Errors, Selectors,
--                     Groups, Grouping, Checks, Items and Mapped are the proofs.
--   Request/Context   src/request.cpp: the class AutomatonContext, its events of values, structures and method
--                     calls, each with the part of processEvent that it is. Events has the other events,
--                     processEvents and the operations of tags, attributes and values; Feed has the
--                     constructor, done and papuga_Request_feed_*. InRange, Collect, Prioritize and
--                     Suppressed are proofs, and
--                     Scopes, Dropped, Nesting, Runs, Drains, Tags and Documents are of the recorded scopes, and
--                     References, InBounds and Ready of the indices of events.
--   Request/ValueSink src/request.cpp: the class ValueSink over an interface of serializations; Balance is
--                     its proof, and Written fills the interface with Serialization.
--   Prelude           lists, integers, bytes and bit fields that the parts share.
--   Tests             evaluations, and the theorems at concrete inputs.
--
-- State and operations: an object is a record, an operation a function from it to the returned value
-- and the new object, and a failure is `false` with the error code set in the object, as in the
-- source. An exception of TreeNode is an error code beside the tree as it is left. Memory is explicit
-- where it matters: a slot of a stack is an address and an offset, the bytes of a buffer are a list,
-- and a write outside of it is the value `none`.
--
-- Bounds: addElement, which calls itself through addFollow, and the loops over conditions get more
-- rounds than the expression has bytes, and each round takes at least one. The loop that skips a
-- structure gets more rounds than there are nodes in front, and flattening gets fuel for which the
-- flat list is defined. For skipToEndBlock there is no bound, since it may not end. The
-- loop that doubles the size of a block gets 20 rounds, which is enough for up to 2^31 bytes; beyond, no number is. Sizes are taken
-- modulo 2^64 as `size_t` does, a stack node has a header of 24 bytes, and the inner loop of
-- papuga_Stack_top_n gets one round more than the bytes of the node, which is more than it can run. An
-- `int` that the code compares with 0 is a ℤ; a count that is only ever at least 0 is a ℕ. The numbers
-- of groups are small enough that adding 2^15 + 1 does not overflow. C strings are lists without a
-- null byte.
--
-- Parameters: what the memory of a chunk holds behind its fill size (`stale`), and the serialization
-- that an address holds (`store`); the value that a name is stored as; `malloc`, as the address it
-- gives; the allocator, as a function of its state, the size and the alignment; addExpression of the
-- automaton of textwolf, which gives a code that is 0 for success, and the automaton's push, which gives
-- events; the deep copy of a value, whether a string's copy has memory, and std::sort on method calls; the
-- scanner, the printing and the buffer of textwolf, floating point numbers, printf and scanf; the heap, as
-- functions of a state, with which regions of it are in use; and what the class ValueSink uses
-- of serializations, with what a push does to the number of open structures.
--
-- Not modelled: the destructors, which only free; `std::bad_alloc` thrown while a vector, a map or a
-- set grows; logging; the resolving of values, the
-- deep copy of values, blobs of numbers, papuga_ValueVariant_nextchar, the parsers and printers of documents, the printers of schema descriptions, the text of an
-- error's path, the parser of src/schema.cpp behind its lexer and its numbers, and the language
-- bindings.
pub mod Prelude
pub mod ErrorCode
pub mod Encoding
pub mod Value
pub mod Uri
pub mod Stack
pub mod Allocator
pub mod Serialization
pub mod Schema
pub mod SchemaSource
pub mod RequestParser
pub mod Request
mod Tests
