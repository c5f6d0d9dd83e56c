-- ===== src/Sampler/Fault/Laws.antt =====
-- Which fault fires: an independent description of `sample_fault`, and its consequences for rules of
-- other operations, rules that always fire and rules that never do.
use fusecraft_rs.Base.{
  ℕ, suc, ◌≡◌, ◌≢◌, ◌⊎◌, inl, inr, ◌↔◌, refl, ap, ◌∙◌, Bool, true, false, List, [], ◌∷◌, ◌++◌,
  Option, none, some, keep, All, Bool-cases, arith,
}
use mathlib.Core.List.{Memᴰ, append-nil}
use fusecraft_rs.Op.{FsOp, op_eq}
use fusecraft_rs.Op.Laws.{op_eq_iff, op_ne, ne_op}
use fusecraft_rs.Float.{Float, Rng, IsOrdered, IsUniform}
use fusecraft_rs.Config.{FaultRule}
use fusecraft_rs.Config.Valid.{IsValidFault}
use fusecraft_rs.Sampler.Key.{SampleKey, StdRng, mix, fault_stream}
use fusecraft_rs.Sampler.Fault.{fault_loop, sample_fault}

-- The state of the generator with seed `s` after `i` draws.
abbrev after : ℕ → ℕ → StdRng
after s i = record { state = s; drawn = i }

module _ {F : Type 0} ⦃fl : Float F⦄ ⦃rng : Rng F⦄ where
  open fl use {zero as fzero, one, lt, le, is_finite}
  open rng use {draw}

  -- Rule by rule, with `i` draws made before: a rule of another operation is passed over and draws
  -- nothing; the first rule of the operation whose draw lies below its rate fires.
  pub data Fires (op : FsOp) (s : ℕ) : ℕ → List (FaultRule F) → Option ℕ → Type 0 where
    never : {i : ℕ} → Fires op s i [] none
    other :
        {i : ℕ} {rule : FaultRule F} {rules : List (FaultRule F)} {o : Option ℕ}
        → rule.op ≢ op
        → Fires op s i rules o
        → Fires op s i (rule ∷ rules) o
    fires :
        {i : ℕ} {rule : FaultRule F} {rules : List (FaultRule F)}
        → rule.op ≡ op
        → lt (draw s i) rule.rate ≡ true
        → Fires op s i (rule ∷ rules) (some rule.errno)
    passes :
        {i : ℕ} {rule : FaultRule F} {rules : List (FaultRule F)} {o : Option ℕ}
        → rule.op ≡ op
        → lt (draw s i) rule.rate ≡ false
        → Fires op s (suc i) rules o
        → Fires op s i (rule ∷ rules) o

  -- The test by which the loop picks its rules.
  abbrev applies : FsOp → FaultRule F → Bool
  applies op r = op_eq r.op op

  loop-Fires :
      (op : FsOp) (s i : ℕ) (rules : List (FaultRule F))
      → Fires op s i rules (fault_loop (keep (applies op) rules) (after s i))
  unfolding fault_loop
  loop-Fires op s i [] = never
  loop-Fires op s i (rule ∷ rules) = elim (Bool-cases (op_eq rule.op op)) [
    | inr skip ↦ rw skip (other (op_ne _ _ skip) (loop-Fires op s i rules))
    | inl same ↦ elim (Bool-cases (lt (draw s i) rule.rate)) [
      | inl hit ↦ rw (same, hit) (fires ((op_eq_iff _ _).0 same) hit)
      | inr miss ↦
          rw (same, miss) (passes ((op_eq_iff _ _).0 same) miss (loop-Fires op s (suc i) rules))
    ]
  ]

  Fires-loop :
      (op : FsOp) (s : ℕ) {i : ℕ} {rules : List (FaultRule F)} {o : Option ℕ}
      → Fires op s i rules o
      → fault_loop (keep (applies op) rules) (after s i) ≡ o
  unfolding fault_loop
  Fires-loop op s never = refl
  Fires-loop op s (other {rule = rule} ne rest) = rw (ne_op _ _ ne) (Fires-loop op s rest)
  Fires-loop op s (fires e hit) = rw ((op_eq_iff _ _).1 e, hit)
  Fires-loop op s (passes e miss rest) = rw ((op_eq_iff _ _).1 e, miss) (Fires-loop op s rest)

  -- `sample_fault` returns what the rules give one by one with the draws of the fault generator,
  -- and nothing else: a rule of another operation draws nothing, and the first rule of the
  -- operation whose draw lies below its rate fires.
  pub sample_fault-Fires :
      (rules : List (FaultRule F)) (key : SampleKey) (o : Option ℕ)
      → (sample_fault rules key ≡ o) ↔ Fires key.op (mix key fault_stream) 0 rules o
  unfolding sample_fault
  sample_fault-Fires rules key o = (
    λ e. rw (← e) (loop-Fires key.op (mix key fault_stream) 0 rules),
    λ f. Fires-loop key.op (mix key fault_stream) f,
  )

  -- A fault that is injected comes from a rule of the operation at hand.
  Fires-mem :
      {op : FsOp} {s i e : ℕ} {rules : List (FaultRule F)} {o : Option ℕ}
      → Fires op s i rules o
      → o ≡ some e
      → (r : FaultRule F) × Memᴰ r rules × (r.op ≡ op) × (r.errno ≡ e)
  Fires-mem never h = cc
  Fires-mem (other ne rest) h =
      let (r, m, same, num) = Fires-mem rest h in (r, Memᴰ.tail m, same, num)
  Fires-mem (fires {rule = rule} same hit) h = (rule, Memᴰ.head refl, same, cc)
  Fires-mem (passes same miss rest) h =
      let (r, m, same', num) = Fires-mem rest h in (r, Memᴰ.tail m, same', num)

  -- A fault that is injected is the errno of a rule of the list that is for the operation at
  -- hand.
  pub sample_fault-mem :
      (rules : List (FaultRule F)) (key : SampleKey) (e : ℕ)
      → sample_fault rules key ≡ some e
      → (r : FaultRule F) × Memᴰ r rules × (r.op ≡ key.op) × (r.errno ≡ e)
  sample_fault-mem rules key e h = Fires-mem ((sample_fault-Fires rules key (some e)).0 h) refl

  -- A rule that cannot fire: it is of another operation, or its rate is 0.0.
  abbrev pub IsIdle : FsOp → FaultRule F → Type 0
  IsIdle op r = (r.op ≢ op) ⊎ (r.rate ≡ fzero)

  module _ (law : IsOrdered fl) (uniform : IsUniform fl rng) where
    not_below_zero : (s i : ℕ) → lt (draw s i) fzero ≡ false
    not_below_zero s i = ground (
      arith,
      law.total (draw s i) fzero (uniform.draw_finite s i) law.zero_finite,
      uniform.draw_nonneg s i,
    )

    idle-Fires :
        (op : FsOp) (s i e : ℕ) (pre post : List (FaultRule F)) {o : Option ℕ}
        → All (IsIdle op) pre
        → ((j : ℕ) → Fires op s j post o)
        → Fires op s i (pre ++ post) o
    idle-Fires op s i e [] post h f = f i
    idle-Fires op s i e (r ∷ pre) post h f = elim (Bool-cases (op_eq r.op op)) [
      | inr skip ↦ other (op_ne _ _ skip) (idle-Fires op s i e pre post h.1 f)
      | inl same ↦
          let e' : r.op ≡ op = (op_eq_iff _ _).0 same in
          elim (h.0) [
            | inl ne ↦ absurd (ne e')
            | inr zero_rate ↦
                passes e' (ap (lt (draw s i)) zero_rate ∙ not_below_zero s i)
                  (idle-Fires op s (suc i) e pre post h.1 f)
          ]
    ]

    -- Behind rules of other operations and rules of rate 0.0, a rule of the operation with rate
    -- 1.0 always fires, provided that comparisons of finite numbers are total and draws lie in
    -- [0, 1).
    pub sample_fault_certain :
        (pre post : List (FaultRule F)) (rule : FaultRule F) (key : SampleKey)
        → All (IsIdle key.op) pre
        → rule.op ≡ key.op
        → rule.rate ≡ one
        → sample_fault (pre ++ (rule ∷ post)) key ≡ some rule.errno
    sample_fault_certain pre post rule key idle same certain = (sample_fault-Fires _ key _).1 (
        idle-Fires key.op _ 0 0 pre (rule ∷ post) idle
          (λ j. fires same (ap (lt (draw _ j)) certain ∙ uniform.draw_below_one _ j)))

    -- Rules of other operations and rules of rate 0.0 inject nothing, provided that comparisons
    -- of finite numbers are total and draws lie in [0, 1).
    pub sample_fault_idle :
        (rules : List (FaultRule F)) (key : SampleKey)
        → All (IsIdle key.op) rules
        → sample_fault rules key ≡ none
    sample_fault_idle rules key idle =
        (sample_fault-Fires rules key none).1
          (rw (← append-nil rules) (idle-Fires key.op _ 0 0 rules [] idle (λ j. never)))

  -- A valid list of rules has no rule that the sampler would pass over.
  pub keep-IsValidFault :
      (op : FsOp) (rules : List (FaultRule F))
      → All (IsValidFault op) rules
      → keep (applies op) rules ≡ rules
  keep-IsValidFault op [] h = refl
  keep-IsValidFault op (r ∷ rules) h =
      rw ((op_eq_iff r.op op).1 h.0.0, keep-IsValidFault op rules h.1)
