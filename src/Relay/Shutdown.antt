-- ===== src/Relay/Shutdown.antt =====
-- The two waits of Shutdown in server/internal/relay/manager.go. Times count nanoseconds from its call.
-- Of several cases that are ready, Go's select may take any.
pub mod Waits
use playwright_distributed.Base.{Fault, ℕ, ◌+◌, ◌*◌, Bool, true, false, Option, none, some}
use playwright_distributed.Config.{second}

abbrev pub close_frame_timeout : ℕ
close_frame_timeout = 2 * second

abbrev pub terminal_query_timeout : ℕ
terminal_query_timeout = 5 * second

abbrev pub shutdown_cleanup_budget : ℕ
shutdown_cleanup_budget = 2 * close_frame_timeout + terminal_query_timeout

pub data Wait : Type 0 where
  all_done context_done grace_over : Wait

-- `ctx_err` is ctx.Err(). The result, and whether the live relays have been stopped.
unfoldable pub shutdown : Fault → Wait → Wait → Option Fault × Bool
shutdown ctx_err all_done later = (none, false)
shutdown ctx_err context_done later = (some ctx_err, false)
shutdown ctx_err grace_over context_done = (some ctx_err, true)
shutdown ctx_err grace_over later = (none, true)
