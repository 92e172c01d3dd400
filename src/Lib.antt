-- ===== src/Lib.antt =====
-- netlang, a small language for network programs, is implemented in Rust: a lexer and a parser make
-- an abstract syntax tree (src/ast), a semantic analyzer (src/semantic) refuses programs with static
-- errors, and a tree-walking interpreter (src/interpreter) runs the others on a host (src/runtime).
-- This library models all but the generated scanner, and proves what the parts promise.
--
-- Parts:
-- - Prelude: shared names, lists on native numbers, signed 64-bit arithmetic, maps of names.
-- - Source: positions and spans, src/source.rs; a text is the list of its bytes.
-- - Ast: expressions, statements and annotations, src/ast/{expression,statement,types}.rs. A list of
--   expressions or statements inside the syntax is a data type of its own. `Ast.Pretty` is the printed
--   form, src/ast/pretty.rs.
-- - Lexer: the kinds of tokens, src/lexer/token.rs, and the stream that src/lexer/ffi.rs makes of a
--   scanner. `Lexer.Stream.Tokens` is about any scanner.
-- - Parser: src/parser. `Parser.State` is its state and small methods, `Parser.Literal` the literals,
--   `Parser.Primary`, `Parser.Expression` and `Parser.Statement` the methods by level. `Parser.Reads` is
--   a program logic: what a method does to the position and where its errors are; its children apply it
--   to every method.
-- - Diagnostic: the rendering of an error at its source line, src/diagnostic.rs.
-- - Types: the registry of named types, src/types.rs. `Types.Names` is about resolving names, and
--   `Types.Cycle` about the search for cycles of required fields.
-- - Runtime: values, their display, the built-in functions and the interface of a host,
--   src/runtime/{value,builtin,mod}.rs. `Runtime.Transport` is the table of sockets with its operations,
--   src/runtime/transport.rs, and `Runtime.Http` the requests, src/runtime/http.rs.
-- - Semantic: the analyzer, src/semantic. `Semantic.Scope` holds symbols and scopes,
--   `Semantic.Analyzer` the state and small methods, `Semantic.Types` the checks of types,
--   `Semantic.Expression` and `Semantic.Statement` the checks by kind, `Semantic.Program` the
--   traversal and `analyze`.
-- - Interp: the interpreter, src/interpreter. `Interp.State` is its state and the monad of its methods,
--   `Interp.Port` the runtime that it holds (WorkerRuntime), `Interp.Types` the contracts on values,
--   `Interp.Operations` the operators, `Interp.Access` reading and writing inside values,
--   `Interp.Expression` the expressions, `Interp.Statement` and `Interp.Block` the statements,
--   `Interp.Call` the calls, `Interp.Parallel` the parallel loops and `Interp.Program` the function
--   execute_with_limits. `Interp.Keeps` is a program logic: what a method keeps of the state, and what
--   it costs in steps; its children apply it to every method.
-- - Command: the stages of a command, src/main.rs, up to the interpreter.
-- - Tests: a concrete platform, programs, and each theorem at a concrete input.
--
-- Conventions. Scopes, calls, loops and contexts stand in lists with the innermost first. In the
-- analyzer and the interpreter each format string of an error is a constructor that keeps its
-- arguments; elsewhere an error has its text. What no method changes stands in `Context` (`Input` in
-- the parser), the rest in `State` (`Cursor`); a method returns the state also after an error. An `Arc<()>` that is
-- compared by pointer is the number of its allocation. A failed index, `unwrap` or `unreachable!` is
-- the outcome `panicked`.
--
-- Parameters. A `Platform` holds what the code calls and does not implement: the operations on doubles
-- (given by their bits), Rust's formatting of numbers and texts and its UTF-8 conversions, the host's
-- operations and its `fork`. Nothing is assumed of them. A `Reader` holds what the parser calls of
-- Rust's library, an `Os` the calls of the operating system on sockets, a `Client` the HTTP client with
-- the URL parser. A `Bridge` is the scanner; the theorems on the end of `tokenize` assume of it that
-- a token takes some of its input, but for the EOF token and the errors.
--
-- Bounds and fuel. A call of a function runs its body with one level less, from the limit call_depth;
-- the check of the call stack's length refuses a call before the levels run out. A `while` loop has one
-- round more than there are steps left, since its condition spends a step. The search of the type
-- registry has three rounds more than there are required fields of named types. A method of the parser
-- that calls itself, directly or by others, has one level for each token that is left, and a loop one
-- round more, since each takes a token first. All these are proved to be enough. The waits of
-- `Runtime.Transport` take a number of rounds, and are out of fuel after them.
--
-- Shared state. All runtimes of the process take the numbers of their sockets from one counter, NEXT_ID.
-- An operation looks at it once, at the end, where it inserts a socket; what other runtimes take
-- stands between the operations, as the call `elsewhere` of `Runtime.Transport.Calls`.
--
-- Not modelled: the scanner (lexer/, generated by flex), the printing of a command's output and the
-- texts that Display gives a semantic or a runtime error. The workers of a parallel batch run one after
-- another: other interleavings of their steps, and a thread that cannot be started, are left out.
pub mod Prelude
pub mod Source
pub mod Ast
pub mod Lexer
pub mod Parser
pub mod Types
pub mod Diagnostic
pub mod Runtime
pub mod Semantic
pub mod Interp
pub mod Command
pub mod Tests
