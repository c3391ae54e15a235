-- ===== src/Runner.antt =====
-- The programs of cmd: the page's thread and the worker threads of unisockets_runner_web.
pub mod Main
pub mod Command
pub mod Worker
pub mod Examples
