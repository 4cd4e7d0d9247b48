-- ===== src/Scheduler/Waker/Waiting.antt =====
-- A waiter of the waker, and what each operation of others does to it.
use playwright_distributed.Base.{
  ℕ, ◌+◌, ◌%◌, ◌≤◌, ◌≡◌, refl, ◌∙◌, inl, inr, Bool, true, false, not, Option, none, some, List, [],
  ◌∷◌, map, arith, ◌==◌, Bool-cases, Option-cases, delete, update, find,
}
use playwright_distributed.Scheduler.Waker.{
  Waiter, Waker, has_id, subscribe, unsubscribe, fill, wake, receive,
}

pub data WakerOp : Type 0 where
  subscribes wakes : WakerOp
  unsubscribes receives : ℕ → WakerOp

-- A receive on an empty channel waits, and changes nothing yet.
abbrev pub after_receive : Waker → Option Waker → Waker
after_receive w none = w
after_receive w (some w') = w'

unfoldable pub run_waker_op : WakerOp → Waker → Waker
run_waker_op subscribes w = (subscribe w).1
run_waker_op wakes w = wake w
run_waker_op (unsubscribes id) w = unsubscribe id w
run_waker_op (receives id) w = after_receive w (receive id w)

unfoldable pub run_waker : List WakerOp → Waker → Waker
run_waker [] w = w
run_waker (op ∷ ops) w = run_waker ops (run_waker_op op w)

-- An operation of another waiter, or of no waiter.
abbrev pub spares : ℕ → WakerOp → Bool
spares id subscribes = true
spares id wakes = true
spares id (unsubscribes other) = not (other == id)
spares id (receives other) = not (other == id)

abbrev pub is_subscription : WakerOp → Bool
is_subscription subscribes = true
is_subscription op = false

-- The waiter is there, and its channel holds a token at least if `ready` is true. `k` subscriptions came
-- after its own.
pub record IsWaiting (id : ℕ) (ready : Bool) (k : ℕ) (w : Waker) : Type 0 where
  pub waiter : Waiter
  pub found : find (has_id id) w.waiters ≡ some waiter
  pub at_least : ready ≡ true → waiter.ready ≡ true
  pub small : id ≤ 18_446_744_073_709_551_615
  pub next : w.next_id ≡ (id + 1 + k) % 18_446_744_073_709_551_616

find-delete :
    (id other : ℕ) (ws : List Waiter)
    → (other == id) ≡ false
    → find (has_id id) (delete (has_id other) ws) ≡ find (has_id id) ws
find-delete id other [] h = refl
find-delete id other (x ∷ ws) h = ground (arith, find-delete id other ws h)

find-ready :
    (id : ℕ) (ws : List Waiter) (x : Waiter)
    → find (has_id id) ws ≡ some x
    → find (has_id id) (map fill ws) ≡ some (fill x)
find-ready id [] x h = cc
find-ready id (y ∷ ws) x h = ground (arith, find-ready id ws x)

next_differs :
    (id k : ℕ)
    → id ≤ 18_446_744_073_709_551_615
    → k + 1 ≤ 18_446_744_073_709_551_615
    → (((id + 1 + k) % 18_446_744_073_709_551_616) == id) ≡ false
next_differs id k h l = ground arith

pub subscribe-IsWaiting :
    (id : ℕ) (ready : Bool) (k : ℕ) (w : Waker)
    → k + 1 ≤ 18_446_744_073_709_551_615
    → IsWaiting id ready k w
    → IsWaiting id ready (k + 1) (subscribe w).1
unfolding subscribe
subscribe-IsWaiting id ready k w l h =
    let d : (w.next_id == id) ≡ false = rw h.next (next_differs id k h.small l) in
    record {
      waiter = h.waiter;
      found = ground (arith, h.found, find-delete id w.next_id w.waiters d);
      at_least = h.at_least;
      small = h.small;
      next = omega (arith, h.next);
    }

pub wake-IsWaiting :
    (id : ℕ) (ready : Bool) (k : ℕ) (w : Waker)
    → IsWaiting id ready k w
    → IsWaiting id true k (wake w)
unfolding wake
wake-IsWaiting id ready k w h = record {
  waiter = fill h.waiter;
  found = find-ready id w.waiters h.waiter h.found;
  at_least = λ _. refl;
  small = h.small;
  next = h.next;
}

pub unsubscribe-IsWaiting :
    (id other : ℕ) (ready : Bool) (k : ℕ) (w : Waker)
    → (other == id) ≡ false
    → IsWaiting id ready k w
    → IsWaiting id ready k (unsubscribe other w)
unfolding unsubscribe
unsubscribe-IsWaiting id other ready k w d h = record {
  waiter = h.waiter;
  found = find-delete id other w.waiters d ∙ h.found;
  at_least = h.at_least;
  small = h.small;
  next = h.next;
}

find-other :
    (id other : ℕ) (f : Waiter → Waiter) (ws : List Waiter)
    → ((x : Waiter) → (f x).id ≡ x.id)
    → (other == id) ≡ false
    → find (has_id id) (update (has_id other) f ws) ≡ find (has_id id) ws
find-other id other f [] same h = refl
find-other id other f (x ∷ ws) same h = ground (arith, same x, find-other id other f ws same h)

pub receive-IsWaiting :
    (id other : ℕ) (ready : Bool) (k : ℕ) (w : Waker)
    → (other == id) ≡ false
    → IsWaiting id ready k w
    → IsWaiting id ready k (after_receive w (receive other w))
unfolding receive
receive-IsWaiting id other ready k w d h = elim (Option-cases (find (has_id other) w.waiters)) [
  | inl e ↦ rw (receive, e) h
  | inr (x, e) ↦ elim (Bool-cases x.ready) [
    | inl full ↦
        let taken : IsWaiting id ready k (record w {
          waiters = update (has_id other) (λ y. record y { ready = false }) w.waiters;
        }) =
          record {
            waiter = h.waiter;
            found =
                find-other id other (λ y. record y { ready = false }) w.waiters (λ y. refl) d
                ∙ h.found;
            at_least = h.at_least;
            small = h.small;
            next = h.next;
          } in
        rw (receive, e, full) taken
    | inr empty ↦ rw (receive, e, empty) h
  ]
]

pub new-IsWaiting :
    (w : Waker)
    → w.next_id ≤ 18_446_744_073_709_551_615
    → IsWaiting (subscribe w).0 false 0 (subscribe w).1
unfolding subscribe
new-IsWaiting w h = record {
  waiter = record { id = w.next_id; ready = false };
  found = ground arith;
  at_least = λ e. e;
  small = h;
  next = omega arith;
}
