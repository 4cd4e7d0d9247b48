-- ===== src/Scheduler/Waker/Delivery.antt =====
-- No wakeup is lost.
use playwright_distributed.Base.{
  ℕ, ◌+◌, ◌≤◌, ◌≡◌, refl, subst, ◌≢◌, Bool, true, false, none, List, [], ◌∷◌, arith, bit, count,
  All,
}
use playwright_distributed.Scheduler.Waker.{Waker, subscribe, unsubscribe, wake, receive}
use playwright_distributed.Scheduler.Waker.Waiting.{
  WakerOp, subscribes, wakes, unsubscribes, receives, after_receive, run_waker_op, run_waker,
  spares, is_subscription, IsWaiting, subscribe-IsWaiting, wake-IsWaiting, unsubscribe-IsWaiting,
  receive-IsWaiting, new-IsWaiting,
}

op-IsWaiting :
    (id : ℕ) (ready : Bool) (k : ℕ) (op : WakerOp) (w : Waker)
    → spares id op ≡ true
    → k + bit (is_subscription op) ≤ 18_446_744_073_709_551_615
    → IsWaiting id ready k w
    → (r : Bool) × ((ready ≡ true → r ≡ true)
        × IsWaiting id r (k + bit (is_subscription op)) (run_waker_op op w))
unfolding run_waker_op
op-IsWaiting id ready k subscribes w s l h =
    (ready, ((λ e. e), subscribe-IsWaiting id ready k w l h))
op-IsWaiting id ready k wakes w s l h = (
  true,
  (
    (λ e. refl),
    subst (λ n. IsWaiting id true n (wake w)) (omega arith) (wake-IsWaiting id ready k w h),
  ),
)
op-IsWaiting id ready k (unsubscribes other) w s l h = (
  ready,
  (
    (λ e. e),
    subst (λ n. IsWaiting id ready n (unsubscribe other w)) (omega arith)
        (unsubscribe-IsWaiting id other ready k w (ground arith) h),
  ),
)
op-IsWaiting id ready k (receives other) w s l h = (
  ready,
  (
    (λ e. e),
    subst (λ n. IsWaiting id ready n (after_receive w (receive other w))) (omega arith)
        (receive-IsWaiting id other ready k w (ground arith) h),
  ),
)

run-IsWaiting :
    (id : ℕ) (ready : Bool) (k : ℕ) (ops : List WakerOp) (w : Waker)
    → All (λ op. spares id op ≡ true) ops
    → k + count is_subscription ops ≤ 18_446_744_073_709_551_615
    → IsWaiting id ready k w
    → (r : Bool) × ((ready ≡ true → r ≡ true)
        × IsWaiting id r (k + count is_subscription ops) (run_waker ops w))
unfolding run_waker
run-IsWaiting id ready k [] w s l h =
    (ready, ((λ e. e), subst (λ n. IsWaiting id ready n w) (omega arith) h))
run-IsWaiting id ready k (op ∷ ops) w s l h =
    let (r, (keeps, now)) = op-IsWaiting id ready k op w s.0 (omega (arith, l)) h in
    let (r', (keeps', last)) =
      run-IsWaiting id r (k + bit (is_subscription op)) ops (run_waker_op op w) s.1
        (omega (arith, l)) now in
    (
      r',
      (
        (λ e. keeps' (keeps e)),
        subst (λ n. IsWaiting id r' n (run_waker ops (run_waker_op op w))) (omega arith) last,
      ),
    )

ready_receives :
    (id : ℕ) (ready : Bool) (k : ℕ) (w : Waker)
    → ready ≡ true
    → IsWaiting id ready k w
    → receive id w ≢ none
unfolding receive
ready_receives id ready k w r h e =
    let full : h.waiter.ready ≡ true = h.at_least r in
    let q = rw (receive, h.found, full) at e in cc

-- A wakeup that comes after a subscription reaches it: whatever other waiters do before and after, the
-- next receive of the waiter finds a token, as long as it has neither received nor unsubscribed, and
-- fewer than 2 ^ 64 - 1 subscriptions come after its own.
pub no_lost_wakeup :
    (w : Waker) (before after : List WakerOp)
    → w.next_id ≤ 18_446_744_073_709_551_615
    → All (λ op. spares (subscribe w).0 op ≡ true) before
    → All (λ op. spares (subscribe w).0 op ≡ true) after
    → count is_subscription before + count is_subscription after ≤ 18_446_744_073_709_551_614
    → receive (subscribe w).0 (run_waker after (wake (run_waker before (subscribe w).1))) ≢ none
no_lost_wakeup w before after small b a l =
    let id = (subscribe w).0 in
    let (r, (keeps, there)) =
      run-IsWaiting id false 0 before (subscribe w).1 b (omega (arith, l))
        (new-IsWaiting w small) in
    let woken = wake-IsWaiting id r _ (run_waker before (subscribe w).1) there in
    let (r', (keeps', last)) =
      run-IsWaiting id true (0 + count is_subscription before) after _ a (omega (arith, l)) woken in
    ready_receives id r' _ _ (keeps' refl) last
