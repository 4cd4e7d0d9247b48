-- ===== src/Relay/Run/Returns.antt =====
-- From a point where the receive of Run does not block, Run returns once the goroutines have ended.
use playwright_distributed.Base.{
  ℕ, ◌≡◌, refl, sym, ◌∙◌, ◌≢◌, false, none, some, List, [], ◌∷◌, arith, true-false, if-cases,
}
use playwright_distributed.Relay.Run.{
  Goroutine, from_client, from_worker, pinger, renewer, Running, runs_in, without, any_running,
  client, worker, RunStage, receiving, closing, joining, recording, returned, LiveRelay, round,
  RelayAct, copies, sees_done, proceeds, see_done, receive_event, proceed, perform_act, run_relay,
}
use playwright_distributed.Db.Driver.{Reply, delivered}
use playwright_distributed.Relay.Outcome.{other_error, RelayEvent, error_event}
use playwright_distributed.Relay.Loops.{CopyRound, copy_round, canceled_event}
use playwright_distributed.Relay.Run.Outcomes.{
  Reached, IsReached, not_running, perform_act-IsReached,
}

-- A round of copyMessages whose read fails, as it does on a closed connection.
abbrev pub failed_read : CopyRound
failed_read = record {
  read_deadline = none;
  next_reader = some other_error;
  write_deadline = none;
  next_writer = none;
  copied = none;
  last_deadline = none;
  closed = none;
}

-- Run receives an event and closes the connections, each goroutine ends, and Run goes on.
abbrev pub last_acts : List RelayAct
last_acts =
    proceeds delivered
    ∷ proceeds delivered
    ∷ copies client failed_read
    ∷ copies worker failed_read
    ∷ sees_done pinger
    ∷ sees_done renewer
    ∷ proceeds delivered
    ∷ proceeds delivered
    ∷ proceeds delivered
    ∷ []

-- The receive does not block: an event is in the channel, or has been received.
abbrev pub IsStopped : LiveRelay → Type 0
IsStopped r = r.stage ≡ receiving → r.events ≢ []

without_ends :
    (g g' : Goroutine) (r : Running)
    → (runs_in g (without g r) ≡ false) × (runs_in g' r ≡ false → runs_in g' (without g r) ≡ false)
without_ends from_client from_client r = (refl, λ h. refl)
without_ends g g' r = (refl, λ h. ground arith)

-- The goroutine runs no more, and no other one runs that did not.
abbrev Ends : Goroutine → LiveRelay → LiveRelay → Type 0
Ends g r t =
    (t.stage ≡ r.stage)
    × ((t.canceled ≡ r.canceled)
        × ((runs_in g t.running ≡ false)
            × ((g' : Goroutine) → runs_in g' r.running ≡ false → runs_in g' t.running ≡ false)))

round-Ends : (g : Goroutine) (e : RelayEvent) (r : LiveRelay) → Ends g r (round g (some e) r)
unfolding round
round-Ends g e r =
    if-cases (Ends g r) (runs_in g r.running) _ r
      (λ busy.
        (refl, (refl, ((without_ends g g r.running).0, λ g'. (without_ends g g' r.running).1))))
      (λ ended. (refl, (refl, (ended, λ g' h. h))))

see_done-Ends :
    (g : Goroutine) (r : LiveRelay)
    → (r.canceled ≡ false → runs_in g r.running ≡ false)
    → g ≢ from_client
    → g ≢ from_worker
    → Ends g r (see_done g r)
unfolding see_done
see_done-Ends from_client r h n n' = absurd (n refl)
see_done-Ends from_worker r h n n' = absurd (n' refl)
see_done-Ends g r h n n' =
    if-cases (Ends g r) r.canceled (round g (some canceled_event) r) r
      (λ c. round-Ends g canceled_event r) (λ c. (refl, (refl, (h c, λ g' q. q))))

receive_event_leaves :
    (events : List RelayEvent) (r : LiveRelay)
    → events ≢ []
    → (receive_event events r).stage ≢ receiving
unfolding receive_event
receive_event_leaves [] r h = absurd (h refl)
receive_event_leaves (event ∷ events) r h = λ q. cc

pub proceed_leaves :
    (session_id : ℕ) (reply : Reply) (s : RunStage) (r : LiveRelay)
    → r.stage ≡ s
    → (s ≡ receiving → r.events ≢ [])
    → (proceed session_id reply s r).stage ≢ receiving
unfolding proceed
proceed_leaves session_id reply receiving r e h = receive_event_leaves r.events r (h refl)
proceed_leaves session_id reply (closing w) r e h = cc
proceed_leaves session_id reply (joining w) r e h =
    if-cases (λ t. t.stage ≢ receiving) (any_running r.running) r _ (λ _ q. cc (e, q)) (λ _ q. cc)
proceed_leaves session_id reply (recording w) r e h = cc
proceed_leaves session_id reply (returned w) r e h = λ q. cc (e, q)

abbrev proceed_once : ℕ → LiveRelay → LiveRelay
proceed_once session_id r = proceed session_id delivered r.stage r

proceeds_to_return :
    (session_id : ℕ) (s : RunStage) (r : LiveRelay)
    → r.stage ≡ s
    → s ≢ receiving
    → any_running r.running ≡ false
    → (e : RelayEvent) × ((proceed_once session_id
          (proceed_once session_id (proceed_once session_id r))).stage
        ≡ returned e)
unfolding proceed
proceeds_to_return session_id receiving r e h q = absurd (h refl)
proceeds_to_return session_id (closing w) r e h q = (w, rw (e, q) refl)
proceeds_to_return session_id (joining w) r e h q = (w, rw (e, q) refl)
proceeds_to_return session_id (recording w) r e h q = (w, rw e refl)
proceeds_to_return session_id (returned w) r e h q = (w, rw e refl)

none_runs :
    (r : Running)
    → runs_in from_client r ≡ false
    → runs_in from_worker r ≡ false
    → runs_in pinger r ≡ false
    → runs_in renewer r ≡ false
    → any_running r ≡ false
none_runs r a b c d = ground arith

-- Each goroutine ends, one after the other.
module _ (session_id : ℕ) (r : LiveRelay)
    (h : r.canceled ≡ false → any_running r.running ≡ false) where
  quiet :
      (g : Goroutine) (t : LiveRelay)
      → t.canceled ≡ r.canceled
      → ((g : Goroutine) → runs_in g r.running ≡ false → runs_in g t.running ≡ false)
      → t.canceled ≡ false
      → runs_in g t.running ≡ false
  quiet g t c k q = k g (not_running g r.running (h (sym c ∙ q)))

  abbrev after_client : LiveRelay
  after_client = perform_act session_id (copies client failed_read) r

  abbrev after_worker : LiveRelay
  after_worker = perform_act session_id (copies worker failed_read) after_client

  abbrev after_pinger : LiveRelay
  after_pinger = perform_act session_id (sees_done pinger) after_worker

  abbrev wound_down : LiveRelay
  wound_down = perform_act session_id (sees_done renewer) after_pinger

  wound_down_lem : (wound_down.stage ≡ r.stage) × (any_running wound_down.running ≡ false)
  unfolding perform_act copy_round
  wound_down_lem =
      let (s1, (c1, (e1, k1))) : Ends from_client r after_client =
        round-Ends from_client (error_event other_error) r in
      let (s2, (c2, (e2, k2))) : Ends from_worker after_client after_worker =
        round-Ends from_worker (error_event other_error) after_client in
      let (s3, (c3, (e3, k3))) : Ends pinger after_worker after_pinger =
        see_done-Ends pinger after_worker
          (λ q. quiet pinger after_worker (c2 ∙ c1) (λ g k. k2 g (k1 g k)) q) (λ q. cc) (λ q. cc) in
      let (s4, (c4, (e4, k4))) : Ends renewer after_pinger wound_down =
        see_done-Ends renewer after_pinger
          (λ q. quiet renewer after_pinger (c3 ∙ c2 ∙ c1) (λ g k. k3 g (k2 g (k1 g k))) q) (λ q. cc)
          (λ q. cc) in
      (
        s4 ∙ s3 ∙ s2 ∙ s1,
        none_runs wound_down.running (k4 from_client (k3 from_client (k2 from_client e1)))
            (k4 from_worker (k3 from_worker e2)) (k4 pinger e3) e4,
      )

Reached-quiet :
    (s : RunStage) (r : LiveRelay)
    → s ≢ receiving
    → Reached s r
    → r.canceled ≡ false
    → any_running r.running ≡ false
Reached-quiet receiving r n h c = absurd (n refl)
Reached-quiet (closing e) r n h c = absurd (true-false h.0 c)
Reached-quiet (joining e) r n h c = absurd (true-false h.0 c)
Reached-quiet (recording e) r n h c = h.1.1
Reached-quiet (returned e) r n h c = h.1.1

pub finish_returns :
    (session_id : ℕ) (r : LiveRelay)
    → IsReached r
    → IsStopped r
    → (e : RelayEvent) × ((run_relay session_id last_acts r).stage ≡ returned e)
unfolding run_relay perform_act
finish_returns session_id r h p =
    let r1 = proceed_once session_id r in
    let n1 : r1.stage ≢ receiving = proceed_leaves session_id delivered r.stage r refl p in
    let r2 = proceed_once session_id r1 in
    let n2 : r2.stage ≢ receiving =
      proceed_leaves session_id delivered r1.stage r1 refl (λ q. absurd (n1 q)) in
    let h1 : IsReached r1 = perform_act-IsReached session_id (proceeds delivered) r h in
    let h2 : IsReached r2 = perform_act-IsReached session_id (proceeds delivered) r1 h1 in
    let q2 = Reached-quiet r2.stage r2 n2 h2 in
    let (same, ended) = wound_down_lem session_id r2 q2 in
    let t = wound_down session_id r2 q2 in
    proceeds_to_return session_id t.stage t refl (λ q. n2 (sym same ∙ q)) ended
