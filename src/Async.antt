-- ===== src/Async.antt =====
-- Asynchronous handlers. The pages are classes whose methods await calls of the REST API, set
-- signals in between, and trap failures by `try`/`catch`/`finally`. A handler is a `Task`: a tree
-- of signal reads and writes, awaited calls and a result; `try_catch` and `try_finally` are the
-- statements. `par` is `Promise.all` over tasks: replies come in either order.
mod Syntax
mod Semantics
pub mod Pool
pub mod Sent
pub mod Parallel
pub use Syntax.*
unfoldable pub use Semantics.*
