-- ===== src/Relay/Manager.antt =====
-- Shutdown accounting of server/internal/relay/manager.go: BeginAttach, Release, register, unregister
-- and the drain flag of Shutdown, each one critical section of the mutex; and the life of one
-- attachment through `attach` of server/internal/httpapi/relay.go and Run.
pub mod Accounting
pub mod Drain
pub mod Completion
use mathlib.Core.Option
use playwright_distributed.Base.{
  ℕ, zero, suc, ◌+◌, Bool, true, false, not, Option, none, some, List, [], ◌∷◌, ◌==◌, if◌then◌else◌,
  get_elem?, set, elem, delete,
}

-- `live` has the session ids of the map of stop functions; `wg` is the counter of the WaitGroup.
pub record Manager : Type 0 where
  pub draining : Bool
  pub live : List ℕ
  pub wg : ℕ

-- `consumed` is whether the sync.Once has run.
pub record AttachReservation : Type 0 where
  pub session_id : ℕ
  pub consumed : Bool

pub data RegisterResult : Type 0 where
  register_accepted register_draining register_duplicate : RegisterResult

abbrev pub new_manager : Manager
new_manager = record { draining = false; live = []; wg = 0 }

abbrev pub accepting : Manager → Bool
accepting m = not m.draining

-- None is ErrDraining.
unfoldable pub begin_attach : ℕ → Manager → Option (AttachReservation × Manager)
begin_attach session_id m =
    if m.draining
    then none
    else some (record { session_id = session_id; consumed = false }, record m { wg = m.wg + 1 })

-- None is the panic of a WaitGroup whose counter would fall below 0.
abbrev pub done : ℕ → Option ℕ
done zero = none
done (suc n) = some n

unfoldable pub release : AttachReservation → Manager → Option (AttachReservation × Manager)
release r m =
    if r.consumed
    then some (r, m)
    else Option.map (λ n. (record r { consumed = true }, record m { wg = n })) (done m.wg)

unfoldable pub register : AttachReservation → Manager → RegisterResult × AttachReservation × Manager
register r m =
    if m.draining
    then (register_draining, r, m)
    else if elem r.session_id m.live
    then (register_duplicate, r, m)
    else (
      register_accepted,
      record r { consumed = true },
      record m { live = r.session_id ∷ m.live },
    )

unfoldable pub unregister : ℕ → Manager → Option Manager
unregister session_id m =
    Option.map (λ n. record m { live = delete (λ id. id == session_id) m.live; wg = n }) (done m.wg)

abbrev pub drain : Manager → Manager
drain m = record m { draining = true }

-- Where a handler stands: it holds the reservation, or its relay is registered, or the deferred
-- Release is next, or it has returned.
pub data Stage : Type 0 where
  reserved relaying leaving left : Stage

pub record Attachment : Type 0 where
  pub reservation : AttachReservation
  pub stage : Stage

pub record State : Type 0 where
  pub manager : Manager
  pub attachments : List Attachment

-- What a handler does next: Run registers; an error before Run; the relay ends; Release.
pub data Act : Type 0 where
  runs gives_up ends releases : Act

pub after_register : RegisterResult → Stage
after_register register_accepted = relaying
after_register register_draining = leaving
after_register register_duplicate = leaving

-- An act that the stage does not allow changes nothing.
unfoldable pub advance : Act → Stage → AttachReservation → Manager → Option (Attachment × Manager)
unfolding after_register register unregister release
advance runs reserved r m =
    let (result, r', m') = register r m in
    some (record { reservation = r'; stage = after_register result }, m')
advance gives_up reserved r m = some (record { reservation = r; stage = leaving }, m)
advance ends relaying r m =
    Option.map (λ m'. (record { reservation = r; stage = leaving }, m')) (unregister r.session_id m)
advance releases leaving r m =
    Option.map (λ p. (record { reservation = p.0; stage = left }, p.1)) (release r m)
advance act stage r m = some (record { reservation = r; stage = stage }, m)

-- A request arrives, a handler acts, or Shutdown begins.
pub data Move : Type 0 where
  arrives : ℕ → Move
  acts : ℕ → Act → Move
  drains : Move

pub arrive : Option (AttachReservation × Manager) → State → State
arrive none s = s
arrive (some (r, m)) s = record {
  manager = m;
  attachments = record { reservation = r; stage = reserved } ∷ s.attachments;
}

pub put : ℕ → State → Option (Attachment × Manager) → Option State
put i s none = none
put i s (some (a, m)) = some (record { manager = m; attachments = set s.attachments i a })

unfoldable pub acted : ℕ → Act → State → Option Attachment → Option State
unfolding put advance
acted i act s none = some s
acted i act s (some a) = put i s (advance act a.stage a.reservation s.manager)

-- None is a panic.
unfoldable pub perform : Move → State → Option State
unfolding arrive begin_attach acted
perform (arrives session_id) s = some (arrive (begin_attach session_id s.manager) s)
perform (acts i act) s = acted i act s (get_elem? s.attachments i)
perform drains s = some (record s { manager = drain s.manager })

unfoldable pub run_moves : List Move → State → Option State
unfolding perform
run_moves [] s = some s
run_moves (move ∷ moves) s = elim (perform move s) [ none ↦ none | some s' ↦ run_moves moves s' ]
