-- ===== src/Engine/Threads/Idle.antt =====
-- The calls of an engine that cannot take a step: what they are, and whom they wait for.
use fusecraft_rs.Base.{
  ℕ, ◌≡◌, ◌⊎◌, refl, ap, subst, ◌∙◌, inl, inr, true, false, ltb, List, [], ◌∷◌, ◌++◌, All, Result,
  arith,
}
use fusecraft_rs.Op.{FsOp}
use fusecraft_rs.Op.Laws.{op_eq_iff}
use fusecraft_rs.Error.{FsError}
use fusecraft_rs.Engine.Threads.{
  Job, Call, fresh, numbered, asleep, woken, slotted, delayed, reporting, recording, closing,
  finished, panicking, lost, Drop, total, sleeps_in, closes, unwinds,
}
use fusecraft_rs.Engine.Threads.Schedule.{is_asleep}
use fusecraft_rs.Engine.Threads.Progress.{is_ready, is_woken, find}

module _ {W T : Type 0} where
  -- A call whose sleep counts for an operation sleeps in its limiter's queue.
  pub sleeper :
      (op : FsOp) (p : Call W T)
      → ltb 0 (sleeps_in op p) ≡ true
      → (j : Job W T) × (seq : ℕ) × (p ≡ asleep j seq) × (j.ctx.op ≡ op)
  sleeper op (asleep j seq) h = (j, seq, refl, (op_eq_iff j.ctx.op op).0 (ground (arith, h)))
  sleeper op (fresh j) h = cc h
  sleeper op (numbered j seq) h = cc h
  sleeper op (woken j seq) h = cc h
  sleeper op (slotted j seq wait) h = cc h
  sleeper op (delayed j seq fault wait latency delay) h = cc h
  sleeper op (reporting held result ev) h = cc h
  sleeper op (recording held result ev) h = cc h
  sleeper op (closing o result) h = cc h
  sleeper op (finished result) h = cc h
  sleeper op (panicking o seq) h = cc h
  sleeper op (lost seq) h = cc h

  pub nobody_sleeps :
      (op : FsOp) (calls : List (Call W T))
      → All (λ p. ltb 0 (sleeps_in op p) ≡ false) calls
      → total (sleeps_in op) calls ≡ 0
  nobody_sleeps op [] awake = refl
  nobody_sleeps op (p ∷ ps) (h, awake) = ground (arith, h, nobody_sleeps op ps awake)

  pub Drop-awake :
      (op o : FsOp) (p q : Call W T) → Drop op p q → (sleeps_in o p ≡ 0) × (sleeps_in o q ≡ 0)
  Drop-awake op o p q (closes result) = (refl, refl)
  Drop-awake op o p q (unwinds seq) = (refl, refl)

-- What holds of all holds of the one in the middle.
pub All-middle :
    {A : Type 0} (P : A → Type 0) (l : List A) (x : A) (r : List A) → All P (l ++ (x ∷ r)) → P x
All-middle P [] x r (h, rest) = h
All-middle P (y ∷ l) x r (h, rest) = All-middle P l x r rest

module _ {W T : Type 0} where
  -- A call that has returned, or has ended in a panic.
  abbrev pub IsOver : Call W T → Type 0
  IsOver p = ((result : Result FsError T) × (p ≡ finished result)) ⊎ ((seq : ℕ) × (p ≡ lost seq))

  pub ready_awake : (p : Call W T) → is_ready p ≡ true → is_asleep p ≡ false
  ready_awake (asleep j seq) h = cc h
  ready_awake (fresh j) h = refl
  ready_awake (numbered j seq) h = refl
  ready_awake (woken j seq) h = refl
  ready_awake (slotted j seq wait) h = refl
  ready_awake (delayed j seq fault wait latency delay) h = refl
  ready_awake (reporting held result ev) h = refl
  ready_awake (recording held result ev) h = refl
  ready_awake (closing o result) h = refl
  ready_awake (finished result) h = refl
  ready_awake (panicking o seq) h = refl
  ready_awake (lost seq) h = refl

  -- What a call that is not ready is.
  idle_cases :
      (p : Call W T)
      → is_ready p ≡ false
      → IsOver p ⊎ ((j : Job W T) × (seq : ℕ) × ((p ≡ asleep j seq) ⊎ (p ≡ woken j seq)))
  idle_cases (finished result) h = inl (inl (result, refl))
  idle_cases (lost seq) h = inl (inr (seq, refl))
  idle_cases (asleep j seq) h = inr (j, seq, inl refl)
  idle_cases (woken j seq) h = inr (j, seq, inr refl)
  idle_cases (fresh j) h = cc h
  idle_cases (numbered j seq) h = cc h
  idle_cases (slotted j seq wait) h = cc h
  idle_cases (delayed j seq fault wait latency delay) h = cc h
  idle_cases (reporting held result ev) h = cc h
  idle_cases (recording held result ev) h = cc h
  idle_cases (closing o result) h = cc h
  idle_cases (panicking o seq) h = cc h

  All-IsOver :
      (calls : List (Call W T))
      → All (λ p. is_ready p ≡ false) calls
      → All (λ p. is_woken p ≡ false) calls
      → All (λ p. is_asleep p ≡ false) calls
      → All IsOver calls
  All-IsOver [] idle unwoken awake = tt
  All-IsOver (p ∷ ps) (h, idle) (k, unwoken) (m, awake) = (
    elim (idle_cases p h) [
      | inl over ↦ over
      | inr (j, seq, inl e) ↦ cc (m, ap is_asleep e)
      | inr (j, seq, inr e) ↦ cc (k, ap is_woken e)
    ],
    All-IsOver ps idle unwoken awake,
  )

  -- The calls that are not ready are over, or one of them is woken, or, with none woken, one sleeps.
  pub idle_calls :
      (calls : List (Call W T))
      → All (λ p. is_ready p ≡ false) calls
      → All IsOver calls
        ⊎ ((l r : List (Call W T)) × (j : Job W T) × (seq : ℕ) × ((calls ≡ l ++ (woken j seq ∷ r))
              ⊎ ((calls ≡ l ++ (asleep j seq ∷ r)) × All (λ p. is_woken p ≡ false) calls)))
  idle_calls calls idle = elim (find is_woken calls) [
    | inr (l, p, r, e, up) ↦ elim (idle_cases p (All-middle _ l p r (subst (All _) e idle))) [
      | inl (inl (result, h)) ↦ cc (up, ap is_woken h)
      | inl (inr (seq, h)) ↦ cc (up, ap is_woken h)
      | inr (j, seq, inl h) ↦ cc (up, ap is_woken h)
      | inr (j, seq, inr h) ↦ inr (l, r, j, seq, inl (e ∙ ap (λ z. l ++ (z ∷ r)) h))
    ]
    | inl unwoken ↦ elim (find is_asleep calls) [
      | inl awake ↦ inl (All-IsOver calls idle unwoken awake)
      | inr (l, p, r, e, down) ↦ elim (idle_cases p (All-middle _ l p r (subst (All _) e idle))) [
        | inl (inl (result, h)) ↦ cc (down, ap is_asleep h)
        | inl (inr (seq, h)) ↦ cc (down, ap is_asleep h)
        | inr (j, seq, inl h) ↦ inr (l, r, j, seq, inr (e ∙ ap (λ z. l ++ (z ∷ r)) h, unwoken))
        | inr (j, seq, inr h) ↦ cc (down, ap is_asleep h)
      ]
    ]
  ]
