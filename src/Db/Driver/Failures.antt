-- ===== src/Db/Driver/Failures.antt =====
-- Which errors statements and transactions give: those of the statements, and failed round trips.
use playwright_distributed.Base.{
  Fault, Error, fault, Result, ok, err, ◌≡◌, refl, ◌⊎◌, inl, inr, List, arith,
}
use playwright_distributed.Db.Models.{Database}
use playwright_distributed.Db.Driver.{
  Reply, delivered, refused, lost, World, M, and_then, ◌>>=◌, return, next_reply, settle, statement,
  end_transaction, in_transaction, transact,
}

-- The error of a failed round trip.
abbrev pub IsFault : Error → Type 0
IsFault e = (f : Fault) × (e ≡ fault f)

abbrev pub OnlyFaults {ℓ} : {A : Type ℓ} → M A → Type ℓ
OnlyFaults m = (w : World) (e : Error) → (m w).0 ≡ err e → IsFault e

module _ {ℓ} {A : Type ℓ} where
  same_fault : (f : Fault) (e : Error) (r : Result A) → r ≡ err (fault f) → r ≡ err e → IsFault e
  same_fault f e r g h = (f, ground arith)

  settle_err :
      (reply : Reply) (before : Database) (r : Result A × Database) (rest : List Reply) (e : Error)
      → (settle reply before r rest).0 ≡ err e
      → IsFault e ⊎ (r.0 ≡ err e)
  settle_err delivered before (r, after) rest e h = inr h
  settle_err (refused f) before (r, after) rest e h = inl (same_fault f e _ refl h)
  settle_err (lost f) before (r, after) rest e h = inl (same_fault f e _ refl h)

  pub statement_err :
      (run : Database → Result A × Database) (w : World) (e : Error)
      → (statement run w).0 ≡ err e
      → IsFault e ⊎ ((run w.db).0 ≡ err e)
  unfolding statement
  statement_err run w e h =
      settle_err (next_reply w.replies).0 w.db (run w.db) (next_reply w.replies).1 e h

  pub statement-OnlyFaults :
      (run : Database → Result A × Database)
      → ((db : Database) (e : Error) → (run db).0 ≡ err e → IsFault e)
      → OnlyFaults (statement run)
  statement-OnlyFaults run never w e h = elim (statement_err run w e h) [
    | inl f ↦ f
    | inr g ↦ never w.db e g
  ]

  pub total-OnlyFaults :
      (get : Database → A) (change : Database → Database)
      → OnlyFaults (statement (λ db. (ok (get db), change db)))
  total-OnlyFaults get change = statement-OnlyFaults (λ db. (ok (get db), change db)) (λ db e h. cc)

  pub return-OnlyFaults : (a : A) → OnlyFaults (return a)
  return-OnlyFaults a w e h = cc

  end_transaction_err :
      (start : Database) (r : Result A × World) (e : Error)
      → (end_transaction start r).0 ≡ err e
      → IsFault e ⊎ (r.0 ≡ err e)
  end_transaction_err start (err x, w) e h = inr h
  end_transaction_err start (ok a, w) e h =
      settle_err (next_reply w.replies).0 start (ok a, w.db) (next_reply w.replies).1 e h

  in_transaction_err :
      (body : M A) (start : Database) (reply : Reply) (rest : List Reply) (e : Error)
      → (in_transaction body start reply rest).0 ≡ err e
      → IsFault e ⊎ ((body (record { db = start; replies = rest })).0 ≡ err e)
  in_transaction_err body start delivered rest e h =
      end_transaction_err start (body (record { db = start; replies = rest })) e h
  in_transaction_err body start (refused f) rest e h = inl (same_fault f e _ refl h)
  in_transaction_err body start (lost f) rest e h = inl (same_fault f e _ refl h)

  -- The body begins on the tables that the transaction finds.
  pub transact_fails :
      (body : M A) (w : World) (e : Error)
      → (transact body w).0 ≡ err e
      → IsFault e ⊎ ((body (record { db = w.db; replies = (next_reply w.replies).1 })).0 ≡ err e)
  unfolding transact
  transact_fails body w e h =
      in_transaction_err body w.db (next_reply w.replies).0 (next_reply w.replies).1 e h

module _ {ℓ κ} {A : Type ℓ} {B : Type κ} where
  pub and_then_err :
      (r : Result A × World) (k : A → M B) (e : Error)
      → (and_then r k).0 ≡ err e
      → (r.0 ≡ err e) ⊎ ((a : A) × ((w : World) × ((k a w).0 ≡ err e)))
  unfolding and_then
  and_then_err (ok a, w) k e h = inr (a, (w, h))
  and_then_err (err x, w) k e h = inl (let same : x ≡ e = ground arith in rw same refl)

  pub >>=-OnlyFaults :
      (m : M A) (k : A → M B) → OnlyFaults m → ((a : A) → OnlyFaults (k a)) → OnlyFaults (m >>= k)
  >>=-OnlyFaults m k f g w e h = elim (and_then_err (m w) k e h) [
    | inl q ↦ f w e q
    | inr (a, (v, q)) ↦ g a v e q
  ]
