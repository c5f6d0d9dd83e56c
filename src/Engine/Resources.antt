-- ===== src/Engine/Resources.antt =====
-- The table of resources and the choice of a tier.
use fusecraft_rs.Base.{
  ℕ, ◌<◌, ◌≤◌, ◌≡◌, ◌⊎◌, refl, ap, sym, ◌∙◌, true, false, Bool-cases, Option-cases, inl, inr, ltb,
  ltb→lt, if◌then◌else◌, List, [], ◌∷◌, none, some, arith,
}
use fusecraft_rs.Op.{FsOp, all, op_eq, is_data}
use fusecraft_rs.Op as Op
use fusecraft_rs.Op.Laws.{op_ne, ne_op, op_eq_iff}
use fusecraft_rs.Float.{Float}
use fusecraft_rs.Config.{Config, SizeTier}
use fusecraft_rs.Engine.{
  OpResources, get_resources, put_resources, above_threshold, is_large, large_tier, select_tier,
  new_resources, new,
}

-- What `get` finds after the change of an operation that is there: its new value under that
-- operation, and under every other what stood there.
pub get-put :
    {F : Type 0} (op o : FsOp) (r r' : OpResources F) (table : List (FsOp × OpResources F))
    → get_resources op table ≡ some r
    → get_resources o (put_resources op r' table)
      ≡ (if op_eq op o then some r' else get_resources o table)
unfolding get_resources put_resources
get-put op o r r' [] h = cc h
get-put op o r r' ((k, x) ∷ rest) h = elim (Bool-cases (op_eq k op)) [
  | inl e ↦
      let same : op_eq k o ≡ op_eq op o = ap (λ z. op_eq z o) ((op_eq_iff k op).0 e) in
      elim (Bool-cases (op_eq op o)) [ inl a ↦ cc (e, a, same) | inr a ↦ cc (e, a, same) ]
  | inr ne ↦
      let deeper = get-put op o r r' rest (rw ne at h) in
      elim (Bool-cases (op_eq k o)) [
        | inl a ↦
            let other : op_eq op o ≡ false =
              ne_op op o (λ q. op_ne k op ne ((op_eq_iff k o).0 a ∙ sym q)) in
            rw (ne, a, other) refl
        | inr a ↦ rw (ne, a) deeper
      ]
]

-- In a new engine every operation kind has its resources, those that `new` builds for it, so that
-- the lookup in `run_op` does not panic there.
pub get_resources-new :
    {F S : Type 0} (H : Type 0) ⦃fl : Float F⦄ (c : Config F) (events : S) (now : ℕ) (op : FsOp)
    → get_resources op (new {F = F} {H = H} {S = S} c events now).resources
      ≡ some (new_resources c now op)
unfolding get_resources new all op_eq Op.discriminant
get_resources-new H c events now op = ground arith

at_most : (a n : ℕ) → ltb a n ≡ false → n ≤ a
at_most a n f = ground arith

-- `select_tier` gives the large tier of the policy when the operation is a read or a write, the
-- policy has a tier, and the requested length is strictly above its threshold; in every other case
-- it gives the base profile, the base faults and the base limiter.
pub select_tier_cases :
    {F : Type 0} (r : OpResources F) (op : FsOp) (requested_len : ℕ)
    → ((is_large r op requested_len ≡ true)
        × ((tier : SizeTier F) × (r.policy.size_tier ≡ some tier)
            × (is_data op ≡ true)
            × (tier.threshold_bytes < requested_len)
            × (select_tier r op requested_len
                ≡ (tier.large.latency, tier.large.faults, r.large_bandwidth))))
      ⊎ ((is_large r op requested_len ≡ false)
          × ((is_data op ≡ false)
              ⊎ (r.policy.size_tier ≡ none)
              ⊎ ((tier : SizeTier F) × (r.policy.size_tier ≡ some tier)
                  × (requested_len ≤ tier.threshold_bytes)))
          × (select_tier r op requested_len ≡ (r.policy.latency, r.policy.faults, r.bandwidth)))
unfolding is_large above_threshold select_tier large_tier
select_tier_cases r op requested_len = elim (Bool-cases (is_data op)) [
  | inr no_data ↦ inr (rw no_data refl, inl no_data, rw no_data refl)
  | inl data_ ↦ elim (Option-cases r.policy.size_tier) [
    | inl absent ↦ inr (rw (data_, absent) refl, inr (inl absent), rw (data_, absent) refl)
    | inr (tier, present) ↦ elim (Bool-cases (ltb tier.threshold_bytes requested_len)) [
      | inl above ↦ inl (
        rw (data_, present, above) refl,
        (
          tier,
          present,
          data_,
          ltb→lt tier.threshold_bytes requested_len above,
          rw (data_, present, above) refl,
        ),
      )
      | inr below ↦ inr (
        rw (data_, present, below) refl,
        inr (inr (tier, present, at_most tier.threshold_bytes requested_len below)),
        rw (data_, present, below) refl,
      )
    ]
  ]
]
