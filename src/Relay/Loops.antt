-- ===== src/Relay/Loops.antt =====
-- The loops of a relay's goroutines in server/internal/relay/manager.go, one round at a time: what
-- copyMessages, pingPeers and renewHeartbeat return, if the round ends them.
use mathlib.Core.Option
use playwright_distributed.Base.{
  no_rows, Result, ok, err, true, false, Option, none, some, List, [], ◌∷◌, Bytes, codes,
}
use playwright_distributed.Relay.Outcome.{
  close_going_away, PeerError, close_error, other_error, text, RelayEvent, error_event,
}
use playwright_distributed.Db.Models.{Session}

-- The errors of the calls of one round of copyMessages, in their order. A call after the first that
-- fails is not made. `copied` is the error of CopyBuffer; the last two are those of the deadline and
-- of the writer's Close, which are both called.
pub record CopyRound : Type 0 where
  pub read_deadline : Option PeerError
  pub next_reader : Option PeerError
  pub write_deadline : Option PeerError
  pub next_writer : Option PeerError
  pub copied : Option PeerError
  pub last_deadline : Option PeerError
  pub closed : Option PeerError

-- What errors.As finds in two joined errors: the first CloseError.
pub joined : PeerError → PeerError → PeerError
joined (close_error code reason) b = close_error code reason
joined other_error b = b

pub join_errors : Option PeerError → Option PeerError → Option PeerError
unfolding joined
join_errors none b = b
join_errors (some a) none = some a
join_errors (some a) (some b) = some (joined a b)

pub first_error : List (Option PeerError) → Option PeerError
first_error [] = none
first_error (none ∷ es) = first_error es
first_error (some e ∷ es) = some e

-- None is a message that has been passed on.
unfoldable pub copy_round : CopyRound → Option RelayEvent
unfolding join_errors first_error
copy_round r = Option.map error_event (
    first_error (
      r.read_deadline
      ∷ r.next_reader
      ∷ r.write_deadline
      ∷ r.next_writer
      ∷ r.copied
      ∷ join_errors r.last_deadline r.closed
      ∷ []))

-- A tick of pingPeers, with the errors of the two pings.
unfoldable pub ping_round : Option PeerError → Option PeerError → Option RelayEvent
unfolding join_errors
ping_round client_err worker_err = Option.map error_event (join_errors client_err worker_err)

abbrev pub going_away : Bytes → RelayEvent
going_away reason = record { code = close_going_away; reason = text reason; normal = true }

-- A tick of renewHeartbeat, with the result of the statement: any other error is only logged.
unfoldable pub renewal_round : Result Session → Option RelayEvent
renewal_round (ok s) = none
renewal_round (err no_rows) = some (going_away (codes "session terminated"))
renewal_round (err e) = none

-- What the last two loops return when the context is done: no code, no reason, not normal.
abbrev pub canceled_event : RelayEvent
canceled_event = record { code = 0; reason = text []; normal = false }
