-- ===== src/Relay/Manager/Accounting.antt =====
-- The WaitGroup counts the attachments that Shutdown has to wait for, one move of a handler at a time.
use playwright_distributed.Base.{
  ℕ, zero, suc, ◌+◌, ◌≤◌, ◌≡◌, refl, inl, inr, Bool, true, false, not, ◌&&◌, ◌||◌, Option, some,
  ◌∷◌, arith, ◌==◌, bit, Bool-cases, count, All, All-mono, count-zero, count-zero-any, elem, delete,
  delete_clears, count-delete,
}
use playwright_distributed.Relay.Manager.{
  Manager, AttachReservation, done, release, register, unregister, Stage, reserved, relaying,
  leaving, left, Attachment, Act, runs, gives_up, ends, releases, after_register, advance,
}

abbrev pub is_relaying : Stage → Bool
is_relaying relaying = true
is_relaying _ = false

-- A reservation that is not consumed, or a registered relay.
abbrev pub is_waited : Attachment → Bool
is_waited a = not a.reservation.consumed || is_relaying a.stage

-- Whether the handler runs the registered relay of a session.
abbrev pub relays : ℕ → Attachment → Bool
relays id a = (a.reservation.session_id == id) && is_relaying a.stage

-- The stages and the sync.Once agree.
abbrev pub fits : Stage → Bool → Bool
fits reserved consumed = not consumed
fits relaying consumed = consumed
fits leaving consumed = true
fits left consumed = consumed

abbrev pub in_live : ℕ → Manager → ℕ
in_live id m = count (λ x. id == x) m.live

-- What the manager knows of one handler.
abbrev pub Known : Attachment → Manager → Type 0
Known a m =
    (fits a.stage a.reservation.consumed ≡ true)
    × ((bit (is_waited a) ≤ m.wg)
        × (((id : ℕ) → in_live id m ≤ 1) × ((id : ℕ) → bit (relays id a) ≤ in_live id m)))

-- A move from (a, m) to (a', m') accounts for what it changes.
abbrev pub Accounts : Attachment → Manager → Attachment → Manager → Type 0
Accounts a m a' m' =
    (fits a'.stage a'.reservation.consumed ≡ true)
    × ((m'.wg + bit (is_waited a) ≡ m.wg + bit (is_waited a'))
        × (((id : ℕ) → in_live id m' ≤ 1)
            × ((id : ℕ) → in_live id m' + bit (relays id a) ≡ in_live id m + bit (relays id a'))))

abbrev pub Advanced : Attachment → Manager → Option (Attachment × Manager) → Type 0
Advanced a m r = (p : Attachment × Manager) × ((r ≡ some p) × Accounts a m p.0 p.1)

done-some : (n : ℕ) → 1 ≤ n → (k : ℕ) × ((done n ≡ some k) × (n ≡ k + 1))
done-some zero h = absurd (omega arith)
done-some (suc n) h = (n, (refl, omega arith))

module _ (m : Manager) where
  idle_Accounts : (a : Attachment) → Known a m → Accounts a m a m
  idle_Accounts a (f, (w, (o, l))) = (f, (refl, (o, λ id. refl)))

  fresh : (id : ℕ) → elem id m.live ≡ false → in_live id m ≡ 0
  fresh id h = count-zero-any (λ x. id == x) m.live h

  adds : (id x : ℕ) → (in_live id m ≤ 1) → elem x m.live ≡ false → bit (id == x) + in_live id m ≤ 1
  adds id x o h = elim (Bool-cases (id == x)) [
    | inl e ↦ let same : id ≡ x = ground arith in ground (arith, fresh x h, same)
    | inr e ↦ ground arith
  ]

  abbrev leaves : AttachReservation → Attachment × Manager
  leaves r = (record { reservation = r; stage = leaving }, m)

  runs_Advanced :
      (r : AttachReservation)
      → Known (record { reservation = r; stage = reserved }) m
      → Advanced (record { reservation = r; stage = reserved }) m (advance runs reserved r m)
  unfolding advance register after_register
  runs_Advanced r (f, (w, (o, l))) = elim (Bool-cases m.draining) [
    | inl e ↦ (leaves r, (ground arith, (refl, (refl, (o, λ id. refl)))))
    | inr e ↦ elim (Bool-cases (elem r.session_id m.live)) [
      | inl k ↦ (leaves r, (ground arith, (refl, (refl, (o, λ id. refl)))))
      | inr k ↦ (
        (
          record { reservation = record r { consumed = true }; stage = relaying },
          record m { live = r.session_id ∷ m.live },
        ),
        (
          ground arith,
          (refl, (ground arith, ((λ id. adds id r.session_id (o id) k), λ id. ground arith))),
        ),
      )
    ]
  ]

  removes :
      (id x : ℕ)
      → in_live id m ≤ 1
      → bit (x == id) ≤ in_live id m
      → count (λ y. id == y) (delete (λ y. y == x) m.live) + bit (x == id) ≡ in_live id m
  removes id x o l = elim (Bool-cases (x == id)) [
    | inl e ↦
        let same : x ≡ id = ground arith in
        let gone : All (λ y. (y == x) ≡ false) (delete (λ y. y == x) m.live) =
          delete_clears (λ y. y == x) m.live in
        let none_left : count (λ y. id == y) (delete (λ y. y == x) m.live) ≡ 0 =
          count-zero (λ y. id == y) _
            (All-mono (λ y. (y == x) ≡ false) (λ y. (id == y) ≡ false) _ (λ y h. ground arith)
              gone) in
        ground arith
    | inr e ↦
        let kept : count (λ y. id == y) (delete (λ y. y == x) m.live) ≡ in_live id m =
          count-delete (λ y. y == x) (λ y. id == y) m.live (λ y h. ground arith) in
        ground arith
  ]

  ends_Advanced :
      (r : AttachReservation)
      → Known (record { reservation = r; stage = relaying }) m
      → Advanced (record { reservation = r; stage = relaying }) m (advance ends relaying r m)
  unfolding advance unregister
  ends_Advanced r (f, (w, (o, l))) =
      let (n, (d, e)) = done-some m.wg (ground arith) in
      let fewer : (id : ℕ)
          → count (λ y. id == y) (delete (λ y. y == r.session_id) m.live) + bit (r.session_id == id)
            ≡ in_live id m =
        λ id. removes id r.session_id (o id) (ground (arith, l id)) in
      (
        (
          record { reservation = r; stage = leaving },
          record m { live = delete (λ id. id == r.session_id) m.live; wg = n },
        ),
        (
          ground arith,
          (
            refl,
            (ground arith, ((λ id. omega (arith, fewer id, o id)), λ id. ground (arith, fewer id))),
          ),
        ),
      )

  releases_Advanced :
      (r : AttachReservation)
      → Known (record { reservation = r; stage = leaving }) m
      → Advanced (record { reservation = r; stage = leaving }) m (advance releases leaving r m)
  unfolding advance release
  releases_Advanced r (f, (w, (o, l))) = elim (Bool-cases r.consumed) [
    | inl e ↦ (
      (record { reservation = r; stage = left }, m),
      (ground arith, (e, (ground arith, (o, λ id. refl)))),
    )
    | inr e ↦
        let (n, (d, k)) = done-some m.wg (ground arith) in
        (
          (
            record { reservation = record r { consumed = true }; stage = left },
            record m { wg = n },
          ),
          (ground arith, (refl, (ground arith, (o, λ id. ground arith)))),
        )
  ]

  -- Whatever a handler does, the WaitGroup keeps count of it and does not panic.
  pub advance-Accounts :
      (act : Act) (stage : Stage) (r : AttachReservation)
      → Known (record { reservation = r; stage = stage }) m
      → Advanced (record { reservation = r; stage = stage }) m (advance act stage r m)
  unfolding advance
  advance-Accounts runs reserved r h = runs_Advanced r h
  advance-Accounts gives_up reserved r (f, (w, (o, l))) =
      (leaves r, (refl, (refl, (refl, (o, λ id. refl)))))
  advance-Accounts ends relaying r h = ends_Advanced r h
  advance-Accounts releases leaving r h = releases_Advanced r h
  advance-Accounts _ stage r h =
      (_, (refl, idle_Accounts (record { reservation = r; stage = stage }) h))
