-- ===== src/Relay/Manager/Completion.antt =====
-- Nothing that Shutdown waits for is leaked: what the handlers have left to do brings the counter to 0.
use playwright_distributed.Relay.Manager.{
  Manager, AttachReservation, release, unregister, Stage, reserved, relaying, leaving, left,
  Attachment, State, Act, gives_up, ends, releases, advance, Move, acts, put, acted, perform,
  run_moves,
}
use playwright_distributed.Relay.Manager.Drain.{IsAccounted, initial, known, perform-Next, reached}
use playwright_distributed.Base.{
  ℕ, zero, suc, ◌+◌, ◌≤◌, ◌≡◌, refl, subst, inl, inr, Bool, true, some, List, [], ◌∷◌, arith, ◌==◌,
  Bool-cases, Option-cases, get_elem?, set, count, All, All-get,
}
use playwright_distributed.Relay.Manager.{
  Manager, AttachReservation, release, unregister, Stage, reserved, relaying, leaving, left,
  Attachment, State, Act, gives_up, ends, releases, advance, Move, acts, put, acted, perform,
  run_moves,
}
use playwright_distributed.Relay.Manager.Accounting.{is_waited, fits, advance-Accounts}

-- How many acts a handler has left, at most.
abbrev acts_left : Stage → ℕ
acts_left reserved = 2
acts_left relaying = 2
acts_left leaving = 1
acts_left left = 0

abbrev all_left : List Attachment → ℕ
all_left [] = 0
all_left (a ∷ as') = acts_left a.stage + all_left as'

all_left-set :
    (xs : List Attachment) (i : ℕ) (a b : Attachment)
    → get_elem? xs i ≡ some a
    → all_left (set xs i b) + acts_left a.stage ≡ all_left xs + acts_left b.stage
all_left-set [] i a b h = ground arith
all_left-set (x ∷ xs) zero a b h = ground arith
all_left-set (x ∷ xs) (suc i) a b h = omega (arith, all_left-set xs i a b h)

count-some :
    {A : Type 0} (p : A → Bool) (xs : List A)
    → 1 ≤ count p xs
    → (i : ℕ) × ((x : A) × ((get_elem? xs i ≡ some x) × (p x ≡ true)))
count-some p [] h = absurd (omega arith)
count-some p (x ∷ xs) h = elim (Bool-cases (p x)) [
  | inl e ↦ (0, (x, (refl, e)))
  | inr e ↦ let (i, (y, (at_i, q))) = count-some p xs (ground arith) in (suc i, (y, (at_i, q)))
]

-- The next act of a handler that is waited for.
next_act : (stage : Stage) (consumed : Bool) → Act
next_act reserved consumed = gives_up
next_act relaying consumed = ends
next_act stage consumed = releases

advance_next :
    (stage : Stage) (r : AttachReservation) (m : Manager) (p : Attachment × Manager)
    → fits stage r.consumed ≡ true
    → is_waited (record { reservation = r; stage = stage }) ≡ true
    → advance (next_act stage r.consumed) stage r m ≡ some p
    → acts_left p.0.stage + 1 ≡ acts_left stage
unfolding advance next_act
advance_next reserved r m p f w e = ground arith
advance_next relaying r m p f w e = elim (Option-cases (unregister r.session_id m)) [
  | inl n ↦ absurd (ground arith)
  | inr (m', n) ↦ ground arith
]
advance_next leaving r m p f w e = elim (Option-cases (release r m)) [
  | inl n ↦ absurd (ground arith)
  | inr (q, n) ↦ ground arith
]
advance_next left r m p f w e = absurd (ground arith)

-- A handler that is waited for has an act that brings it nearer to its end.
progress :
    (s : State)
    → IsAccounted s
    → 1 ≤ s.manager.wg
    → (i : ℕ) × ((act : Act) × ((s' : State) × ((perform (acts i act) s ≡ some s')
            × ((all_left s'.attachments + 1 ≡ all_left s.attachments) × IsAccounted s'))))
unfolding perform acted put
progress s h w =
    let (i, (a, (at_i, waited))) =
      count-some is_waited s.attachments (omega (arith, h.waited, w)) in
    let act = next_act a.stage a.reservation.consumed in
    let (p, (e, account)) =
      advance-Accounts s.manager act a.stage a.reservation (known s i a h at_i) in
    let fit =
      All-get (λ a. fits a.stage a.reservation.consumed ≡ true) s.attachments i a at_i h.staged in
    let less = advance_next a.stage a.reservation s.manager p fit waited e in
    let t : State = record { manager = p.1; attachments = set s.attachments i p.0 } in
    let ran : perform (acts i act) s ≡ some t = ground arith in
    let (s', (q, h')) = perform-Next (acts i act) s h in
    let same : s' ≡ t = ground arith in
    (
      i,
      (
        act,
        (
          t,
          (
            ran,
            (
              omega (arith, less, all_left-set s.attachments i a p.0 at_i),
              subst IsAccounted same h',
            ),
          ),
        ),
      ),
    )

-- An act of a handler.
abbrev pub IsAct : Move → Type 0
IsAct (acts i act) = Unit
IsAct move = ⊥

abbrev Completes : State → Type 0
Completes s =
    (later : List Move) × (All IsAct later
      × ((t : State) × ((run_moves later s ≡ some t) × ((t.manager.wg ≡ 0) × IsAccounted t))))

finished : (s : State) → IsAccounted s → s.manager.wg ≡ 0 → Completes s
unfolding run_moves
finished s h z = ([], (tt, (s, (refl, (z, h)))))

-- By the number of acts that are left.
completes : (n : ℕ) (s : State) → all_left s.attachments ≤ n → IsAccounted s → Completes s
unfolding run_moves
completes zero s le h = elim (Bool-cases (s.manager.wg == 0)) [
  | inl z ↦ finished s h (ground (arith, z))
  | inr z ↦
      let (i, (act, (t, (ran, (less, h'))))) = progress s h (ground (arith, z)) in
      absurd (omega (arith, less, le))
]
completes (suc n) s le h = elim (Bool-cases (s.manager.wg == 0)) [
  | inl z ↦ finished s h (ground (arith, z))
  | inr z ↦
      let (i, (act, (t, (ran, (less, h'))))) = progress s h (ground (arith, z)) in
      let (later, (own, (u, (e, (end, k))))) = completes n t (omega (arith, less, le)) h' in
      (acts i act ∷ later, ((tt, own), (u, (rw (run_moves, ran) e, (end, k)))))
]

-- From every point that requests, handlers and Shutdown can reach, acts of the handlers alone, each
-- of which ends its relay or gives up and then releases its reservation, bring the counter that
-- Shutdown waits for to 0: no reservation is leaked and nothing blocks the wait for good.
pub drain_completes :
    (moves : List Move) (s : State)
    → run_moves moves initial ≡ some s
    → (later : List Move) × (All IsAct later
        × ((t : State) × ((run_moves later s ≡ some t) × (t.manager.wg ≡ 0))))
drain_completes moves s e =
    let (later, (own, (t, (ran, (end, k))))) =
      completes (all_left s.attachments) s (omega arith) (reached moves s e) in
    (later, (own, (t, (ran, end))))
