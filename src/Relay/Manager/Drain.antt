-- ===== src/Relay/Manager/Drain.antt =====
-- What Shutdown may rely on when its wait for the relays ends.
use playwright_distributed.Base.{
  ℕ, zero, suc, ◌+◌, ◌≤◌, ◌≡◌, refl, subst, ◌⊎◌, inl, inr, true, false, Option, none, some, List,
  [], ◌∷◌, arith, ◌==◌, Bool-cases, Option-cases, get_elem?, set, count, All, count-set,
  bit-le-count, count_mono, All-get, All-set, zero_count,
}
use playwright_distributed.Relay.Manager.{
  Manager, AttachReservation, new_manager, begin_attach, done, release, register, unregister, Stage,
  reserved, relaying, leaving, Attachment, State, Act, runs, ends, releases, advance, Move, arrives,
  acts, drains, arrive, put, acted, perform, run_moves,
}
use playwright_distributed.Relay.Manager.Accounting.{
  is_waited, relays, fits, in_live, Known, Advanced, advance-Accounts,
}

pub record IsAccounted (s : State) : Type 0 where
  pub waited : s.manager.wg ≡ count is_waited s.attachments
  pub once : (id : ℕ) → in_live id s.manager ≤ 1
  pub registered : (id : ℕ) → in_live id s.manager ≡ count (relays id) s.attachments
  pub staged : All (λ a. fits a.stage a.reservation.consumed ≡ true) s.attachments

abbrev pub Next : Option State → Type 0
Next r = (s : State) × ((r ≡ some s) × IsAccounted s)

unfoldable pub initial : State
initial = record { manager = new_manager; attachments = [] }

initial-IsAccounted : IsAccounted initial
unfolding initial
initial-IsAccounted = record {
  waited = refl;
  once = λ id. omega arith;
  registered = λ id. refl;
  staged = tt;
}

pub known :
    (s : State) (i : ℕ) (a : Attachment)
    → IsAccounted s
    → get_elem? s.attachments i ≡ some a
    → Known a s.manager
known s i a h e = (
  All-get (λ a. fits a.stage a.reservation.consumed ≡ true) s.attachments i a e h.staged,
  (
    rw h.waited (bit-le-count is_waited s.attachments i a e),
    (h.once, λ id. rw (h.registered id) (bit-le-count (relays id) s.attachments i a e)),
  ),
)

put-Next :
    (s : State) (i : ℕ) (a : Attachment) (r : Option (Attachment × Manager))
    → IsAccounted s
    → get_elem? s.attachments i ≡ some a
    → Advanced a s.manager r
    → Next (put i s r)
unfolding put
put-Next s i a r h e ((a', m'), (q, (f, (w, (o, l))))) = rw q (
  record { manager = m'; attachments = set s.attachments i a' },
  (
    refl,
    record {
      waited = omega (arith, h.waited, w, count-set is_waited s.attachments i a a' e);
      once = o;
      registered =
          λ id. omega (arith, h.registered id, l id, count-set (relays id) s.attachments i a a' e);
      staged =
          All-set (λ a. fits a.stage a.reservation.consumed ≡ true) s.attachments i a' f h.staged;
    },
  ),
)

arrives-Next : (session_id : ℕ) (s : State) → IsAccounted s → Next (perform (arrives session_id) s)
unfolding perform arrive begin_attach
arrives-Next session_id s h = elim (Bool-cases s.manager.draining) [
  | inl e ↦ (s, (ground arith, h))
  | inr e ↦ (
    record {
      manager = record s.manager { wg = s.manager.wg + 1 };
      attachments =
          record {
            reservation = record { session_id = session_id; consumed = false };
            stage = reserved;
          }
          ∷ s.attachments;
    },
    (
      ground arith,
      record {
        waited = omega (arith, h.waited);
        once = h.once;
        registered = λ id. ground (arith, h.registered id);
        staged = (refl, h.staged);
      },
    ),
  )
]

pub perform-Next : (move : Move) (s : State) → IsAccounted s → Next (perform move s)
unfolding perform acted
perform-Next (arrives session_id) s h = arrives-Next session_id s h
perform-Next drains s h = (
  _,
  (refl, record { waited = h.waited; once = h.once; registered = h.registered; staged = h.staged }),
)
perform-Next (acts i act) s h = elim (Option-cases (get_elem? s.attachments i)) [
  | inl e ↦ (s, (ground arith, h))
  | inr (a, e) ↦
      let (t, (q, k)) =
        put-Next s i a (advance act a.stage a.reservation s.manager) h e
          (advance-Accounts s.manager act a.stage a.reservation (known s i a h e)) in
      (t, (ground arith, k))
]

run-Next : (moves : List Move) (s : State) → IsAccounted s → Next (run_moves moves s)
unfolding run_moves
run-Next [] s h = (s, (refl, h))
run-Next (move ∷ moves) s h =
    let (s', (e, h')) = perform-Next move s h in rw (run_moves, e) (run-Next moves s' h')

-- Whatever requests, handlers and Shutdown do, in whatever order, the WaitGroup never panics, and no
-- session has two registered relays.
pub run_moves_total :
    (moves : List Move)
    → (s : State) × ((run_moves moves initial ≡ some s)
        × ((id : ℕ) → count (relays id) s.attachments ≤ 1))
run_moves_total moves =
    let (s, (e, h)) = run-Next moves initial initial-IsAccounted in
    (s, (e, λ id. omega (arith, h.once id, h.registered id)))

pub reached : (moves : List Move) (s : State) → run_moves moves initial ≡ some s → IsAccounted s
reached moves s e =
    let (s', (e', h)) = run-Next moves initial initial-IsAccounted in
    let same : s' ≡ s = ground arith in subst IsAccounted same h

empty_live : (ids : List ℕ) → ((id : ℕ) → count (λ x. id == x) ids ≡ 0) → ids ≡ []
empty_live [] h = refl
empty_live (x ∷ xs) h = absurd (ground (arith, h x))

none_live :
    (s : State)
    → IsAccounted s
    → count is_waited s.attachments ≡ 0
    → (id : ℕ) → in_live id s.manager ≡ 0
none_live s h z id =
    let le = count_mono (relays id) is_waited s.attachments (λ a. ground arith) in
    omega (arith, le, h.registered id, z)

-- When the counter is 0, no handler holds a reservation or runs a registered relay, and the map of live
-- relays is empty.
quiet :
    (s : State)
    → IsAccounted s
    → s.manager.wg ≡ 0
    → All (λ a. is_waited a ≡ false) s.attachments × (s.manager.live ≡ [])
quiet s h z =
    let none_waits = zero_count is_waited s.attachments (omega (arith, h.waited)) in
    (none_waits, empty_live s.manager.live (none_live s h (omega (arith, h.waited))))

-- Once Shutdown has begun the counter only falls.
abbrev Falls : Manager → Manager → Type 0
Falls m m' = (m'.draining ≡ true) × (m'.wg ≤ m.wg)

done_falls : (n : ℕ) → (done n ≡ none) ⊎ ((k : ℕ) × ((done n ≡ some k) × (k ≤ n)))
done_falls zero = inl refl
done_falls (suc n) = inr (n, (refl, omega arith))

advance-Falls :
    (act : Act) (stage : Stage) (r : AttachReservation) (m : Manager) (a : Attachment)
    (m' : Manager)
    → m.draining ≡ true
    → advance act stage r m ≡ some (a, m')
    → Falls m m'
unfolding advance register release unregister
advance-Falls runs reserved r m a m' d e = ground arith
advance-Falls ends relaying r m a m' d e = elim (done_falls m.wg) [
  | inl z ↦ ground arith
  | inr (n, (k, le)) ↦ ground arith
]
advance-Falls releases leaving r m a m' d e = elim (done_falls m.wg) [
  | inl z ↦ ground arith
  | inr (n, (k, le)) ↦ ground arith
]
advance-Falls _ stage r m a m' d e = ground arith

put-Falls :
    (i : ℕ) (s : State) (r : Option (Attachment × Manager)) (s' : State)
    → ((a : Attachment) (m : Manager) → r ≡ some (a, m) → Falls s.manager m)
    → put i s r ≡ some s'
    → Falls s.manager s'.manager
unfolding put
put-Falls i s none s' h e = cc
put-Falls i s (some (a, m)) s' h e = ground (arith, h a m refl)

perform-Falls :
    (move : Move) (s s' : State)
    → s.manager.draining ≡ true
    → perform move s ≡ some s'
    → Falls s.manager s'.manager
unfolding perform acted arrive begin_attach
perform-Falls (arrives session_id) s s' d e = ground arith
perform-Falls drains s s' d e = ground arith
perform-Falls (acts i act) s s' d e = elim (Option-cases (get_elem? s.attachments i)) [
  | inl n ↦ ground arith
  | inr (a, n) ↦
      put-Falls i s (advance act a.stage a.reservation s.manager) s'
        (λ a' m' q. advance-Falls act a.stage a.reservation s.manager a' m' d q) (ground arith)
]

run-Falls :
    (moves : List Move) (s s' : State)
    → s.manager.draining ≡ true
    → run_moves moves s ≡ some s'
    → Falls s.manager s'.manager
unfolding run_moves
run-Falls [] s s' d e = ground arith
run-Falls (move ∷ moves) s s' d e = elim (Option-cases (perform move s)) [
  | inl n ↦ ground arith
  | inr (t, n) ↦
      let f = perform-Falls move s t d n in
      let g = run-Falls moves t s' f.0 (ground arith) in (g.0, omega (arith, f.1, g.1))
]

-- Once Shutdown has begun and the counter that it waits for is 0, after any later moves the counter
-- is still 0, the map of live relays is empty, and no handler holds a reservation or runs a
-- registered relay.
pub wait_ends_once :
    (moves later : List Move) (s s' : State)
    → run_moves moves initial ≡ some s
    → s.manager.draining ≡ true
    → s.manager.wg ≡ 0
    → run_moves later s ≡ some s'
    → (s'.manager.wg ≡ 0) × ((s'.manager.live ≡ []) × All (λ a. is_waited a ≡ false) s'.attachments)
wait_ends_once moves later s s' e d z e' =
    let f = run-Falls later s s' d e' in
    let (t, (et, h)) = run-Next later s (reached moves s e) in
    let same : t ≡ s' = ground arith in
    let h' : IsAccounted s' = subst IsAccounted same h in
    let z' : s'.manager.wg ≡ 0 = omega (arith, f.1, z) in
    let (none_waits, none_live_now) = quiet s' h' z' in (z', (none_live_now, none_waits))
