-- ===== src/Relay/Run/Forwarded.antt =====
-- The events that a relay may act on carry a code that may be sent on.
use mathlib.Core.Option
use playwright_distributed.Relay.Run.{stop, duplicate_event}
use playwright_distributed.Base.{
  no_rows, Result, ok, err, ◌≡◌, refl, inl, inr, true, ◌||◌, Option, none, some, List, [], ◌∷◌, ltb,
  ◌==◌, Bool-cases, length, All, All-append, Bytes, codes,
}
-- A close code that may be sent on, 1005 included, and the outcome that it stands for.
use playwright_distributed.Relay.Loops.{going_away, renewal_round}
use playwright_distributed.Relay.Run.{stop, duplicate_event}
use playwright_distributed.Db.Models.{Session}
use playwright_distributed.Relay.Outcome.{
  close_no_status_received, is_valid_received_close_code, is_normal_close_code, PeerError,
  RelayEvent, error_event, error_event_code,
}

abbrev pub IsForwarded : RelayEvent → Type 0
IsForwarded e =
    (((e.code == close_no_status_received) || is_valid_received_close_code e.code) ≡ true)
    × (e.normal ≡ is_normal_close_code e.code)

pub going_away-IsForwarded : (reason : Bytes) → IsForwarded (going_away reason)
unfolding is_valid_received_close_code is_normal_close_code
going_away-IsForwarded reason = (refl, refl)

duplicate-IsForwarded : IsForwarded duplicate_event
unfolding is_valid_received_close_code is_normal_close_code
duplicate-IsForwarded = (refl, refl)

-- An event that is sent before the receive may be sent on.
abbrev pub Sends : Option RelayEvent → Type 0
Sends none = Unit
Sends (some e) = IsForwarded e

pub map-Sends : (o : Option PeerError) → Sends (Option.map error_event o)
map-Sends none = tt
map-Sends (some e) = error_event_code e

pub renewal-Sends : (result : Result Session) → Sends (renewal_round result)
unfolding renewal_round
renewal-Sends (ok s) = tt
renewal-Sends (err no_rows) = going_away-IsForwarded (codes "session terminated")
renewal-Sends (err e) = tt

pub stop-All :
    (e : RelayEvent) (events : List RelayEvent)
    → IsForwarded e
    → All IsForwarded events
    → All IsForwarded (stop e events)
unfolding stop
stop-All e events f all = elim (Bool-cases (ltb (length events) 4)) [
  | inl room ↦ rw room (All-append IsForwarded events (e ∷ []) all (f, tt))
  | inr full ↦ rw full all
]
