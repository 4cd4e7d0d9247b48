-- ===== src/Server/Serving.antt =====
-- serve of server/cmd/server/main.go, and the timeouts that run hands to it. The HTTP server is the
-- standard library's.
use playwright_distributed.Base.{Fault, ℕ, ◌+◌, ◌*◌, Bool, Option, none, some, if◌then◌else◌}
use playwright_distributed.Config.{second, Config}
use playwright_distributed.Relay.Shutdown.{shutdown_cleanup_budget}

abbrev pub shutdown_buffer : ℕ
shutdown_buffer = 5 * second

abbrev pub write_timeout : Config → ℕ
write_timeout c = c.queue_timeout + c.dial_timeout + shutdown_buffer

abbrev pub shutdown_timeout : Config → ℕ
shutdown_timeout c = c.shutdown_grace + c.dial_timeout + shutdown_cleanup_budget + shutdown_buffer

-- What serve waits for first: Serve returns, or the process is told to stop. `closed` is whether the
-- error of Serve is ErrServerClosed.
pub data ServeWait : Type 0 where
  serve_returns : Bool → ServeWait
  told_to_stop : Option Fault → Option Fault → Bool → ServeWait

pub data ServeError : Type 0 where
  listening serving : ServeError
  shutting_down : Option Fault → Option Fault → ServeError

abbrev pub serve_error : Bool → Option ServeError
serve_error closed = if closed then none else some serving

-- After the wait, with the errors of the HTTP server's Shutdown and of the manager's.
pub served : ServeWait → Option ServeError
served (serve_returns closed) = serve_error closed
served (told_to_stop none none closed) = serve_error closed
served (told_to_stop http_err relay_err closed) = some (shutting_down http_err relay_err)

unfoldable pub serve : Bool → ServeWait → Option ServeError
unfolding served
serve listens wait = if listens then served wait else some listening
