-- ===== src/Process/Start/Threads.antt =====
-- The threads that PskInitializeProcessManager creates.
use mylysos.Process.Layout.{Layout}
use mylysos.Process.Layout.Every.{Every}
