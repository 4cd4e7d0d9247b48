-- ===== src/Db/Driver/Atomic.antt =====
-- A transaction that fails leaves the tables as they were, unless the answer to its commit is lost.
use playwright_distributed.Base.{Error, Result, ok, err, ◌≡◌, refl, false, List, [], ◌∷◌, All}
use playwright_distributed.Db.Models.{Database}
use playwright_distributed.Db.Driver.{
  Reply, delivered, refused, lost, World, M, and_then, next_reply, settle, statement,
  end_transaction, in_transaction, transact, is_lost,
}

-- No reply is lost on the way back.
unfoldable pub IsHonest : World → Type 0
IsHonest w = All (λ r. is_lost r ≡ false) w.replies

-- A computation that only takes replies off the list.
abbrev pub TakesReplies {ℓ} : {A : Type ℓ} → M A → Type 0
TakesReplies m = (w : World) → IsHonest w → IsHonest (m w).1

pub next_reply-IsHonest :
    (rs : List Reply)
    → All (λ r. is_lost r ≡ false) rs
    → (is_lost (next_reply rs).0 ≡ false) × All (λ r. is_lost r ≡ false) (next_reply rs).1
next_reply-IsHonest [] h = (refl, tt)
next_reply-IsHonest (r ∷ rs) h = h

settle-IsHonest {ℓ} :
    {A : Type ℓ} (reply : Reply) (before : Database) (r : Result A × Database) (rest : List Reply)
    → All (λ x. is_lost x ≡ false) rest
    → IsHonest (settle reply before r rest).1
unfolding IsHonest
settle-IsHonest delivered before (r, after) rest h = h
settle-IsHonest (refused f) before (r, after) rest h = h
settle-IsHonest (lost f) before (r, after) rest h = h

pub statement-TakesReplies {ℓ} :
    {A : Type ℓ} (run : Database → Result A × Database) → TakesReplies (statement run)
unfolding IsHonest statement
statement-TakesReplies run w h =
    settle-IsHonest (next_reply w.replies).0 w.db (run w.db) (next_reply w.replies).1
      (next_reply-IsHonest w.replies h).1

and_then-IsHonest {ℓ κ} :
    {A : Type ℓ} {B : Type κ} (r : Result A × World) (f : A → M B)
    → IsHonest r.1
    → ((a : A) → TakesReplies (f a))
    → IsHonest (and_then r f).1
unfolding and_then
and_then-IsHonest (ok a, w) f h hf = hf a w h
and_then-IsHonest (err e, w) f h hf = h

pub >>=-TakesReplies {ℓ κ} :
    {A : Type ℓ} {B : Type κ} (m : M A) (f : A → M B)
    → TakesReplies m
    → ((a : A) → TakesReplies (f a))
    → (w : World) → IsHonest w
    → IsHonest (and_then (m w) f).1
>>=-TakesReplies m f hm hf w h = and_then-IsHonest (m w) f (hm w h) hf

settle_err {ℓ} :
    {A : Type ℓ} (reply : Reply) (before : Database) (a : A) (after : Database) (rest : List Reply)
    {e : Error}
    → is_lost reply ≡ false
    → (settle reply before (ok a, after) rest).0 ≡ err e
    → (settle reply before (ok a, after) rest).1.db ≡ before
settle_err delivered before a after rest h q = cc
settle_err (refused f) before a after rest h q = refl
settle_err (lost f) before a after rest h q = cc

end_transaction_err {ℓ} :
    {A : Type ℓ} (start : Database) (r : Result A × World) {e : Error}
    → IsHonest r.1
    → (end_transaction start r).0 ≡ err e
    → (end_transaction start r).1.db ≡ start
unfolding IsHonest
end_transaction_err start (err x, w) h q = refl
end_transaction_err start (ok a, w) h q =
    settle_err (next_reply w.replies).0 start a w.db (next_reply w.replies).1
      (next_reply-IsHonest w.replies h).0 q

in_transaction_err {ℓ} :
    {A : Type ℓ} (body : M A) (start : Database) (reply : Reply) (rest : List Reply) {e : Error}
    → TakesReplies body
    → All (λ x. is_lost x ≡ false) rest
    → (in_transaction body start reply rest).0 ≡ err e
    → (in_transaction body start reply rest).1.db ≡ start
unfolding IsHonest
in_transaction_err body start delivered rest t h q =
    end_transaction_err start (body (record { db = start; replies = rest }))
      (t (record { db = start; replies = rest }) h) q
in_transaction_err body start (refused f) rest t h q = refl
in_transaction_err body start (lost f) rest t h q = refl

-- A transaction that returns an error has changed nothing.
pub transact_err {ℓ} :
    {A : Type ℓ} (body : M A) (w : World) {e : Error}
    → TakesReplies body
    → IsHonest w
    → (transact body w).0 ≡ err e
    → (transact body w).1.db ≡ w.db
unfolding IsHonest transact
transact_err body w t h q =
    in_transaction_err body w.db (next_reply w.replies).0 (next_reply w.replies).1 t
      (next_reply-IsHonest w.replies h).1 q
