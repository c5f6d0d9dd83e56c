-- ===== src/Engine/Threads/Table.antt =====
-- The engine's table after a call has taken its slot, charged its limiter and dropped its guard.
use fusecraft_rs.Base.{
  ◌≡◌, refl, ap, ◌∙◌, Bool, true, false, Bool-cases, inl, inr, List, [], ◌∷◌, Option, some,
}
use fusecraft_rs.Op.{FsOp, op_eq}
use fusecraft_rs.Op.Laws.{op_eq_iff}
use fusecraft_rs.Float.{Float}
use fusecraft_rs.Limiter.Concurrency.{LimiterState, release}
use fusecraft_rs.Limiter.Bandwidth.{BandwidthLimiter}
use fusecraft_rs.Engine.{
  OpContext, OpResources, Clock, get_resources, put_resources, put_bandwidth, is_large,
  above_threshold, large_tier, select_tier,
}
use fusecraft_rs.Engine.Resources.{get-put}
use fusecraft_rs.Engine.Lifecycle.{bandwidth_step}
use fusecraft_rs.Engine.Threads.{charged}

-- Putting twice is putting the second.
pub put-put :
    {F : Type 0} (op : FsOp) (x y : OpResources F) (table : List (FsOp × OpResources F))
    → put_resources op x (put_resources op y table) ≡ put_resources op x table
unfolding put_resources
put-put op x y [] = refl
put-put op x y ((k, z) ∷ rest) = elim (Bool-cases (op_eq k op)) [
  | inl same ↦ rw (same, same) refl
  | inr other ↦ rw (other, other, put-put op x y rest) refl
]

pub get-put_same :
    {F : Type 0} (op : FsOp) (x y : OpResources F) (table : List (FsOp × OpResources F))
    → get_resources op table ≡ some x
    → get_resources op (put_resources op y table) ≡ some y
get-put_same op x y table found = get-put op op x y table found ∙ rw ((op_eq_iff op op).1 refl) refl

-- The resources of a call that has its slot in state `s`, after its charge and the drop of its guard.
abbrev pub holding_state : {F : Type 0} → LimiterState → OpResources F → OpResources F
holding_state s r = record r { limiter = record r.limiter { state = s } }

abbrev pub dropped_state : {F : Type 0} → OpResources F → OpResources F
dropped_state r = holding_state (release r.limiter.state) r

pub put_bandwidth_commutes :
    {F : Type 0} (b : Bool) (x : Option (BandwidthLimiter F)) (s : LimiterState) (r : OpResources F)
    → dropped_state (put_bandwidth b x (holding_state s r))
      ≡ holding_state (release s) (put_bandwidth b x r)
unfolding put_bandwidth
put_bandwidth_commutes true x s r = refl
put_bandwidth_commutes false x s r = refl

module _ {F : Type 0} ⦃fl : Float F⦄ (ctx : OpContext) (t : Clock) (r : OpResources F)
    (s : LimiterState) (table : List (FsOp × OpResources F))
    (found : get_resources ctx.op table ≡ some r) where
  abbrev pub taken : List (FsOp × OpResources F)
  taken = put_resources ctx.op (holding_state s r) table

  abbrev pub paid : OpResources F
  paid = charged ctx t (holding_state s r)

  pub found_taken : get_resources ctx.op taken ≡ some (holding_state s r)
  found_taken = get-put_same ctx.op r (holding_state s r) table found

  pub found_paid : get_resources ctx.op (put_resources ctx.op paid taken) ≡ some paid
  found_paid = get-put_same ctx.op (holding_state s r) paid taken found_taken

  pub final_table :
      put_resources ctx.op (dropped_state paid) (put_resources ctx.op paid taken)
      ≡ put_resources ctx.op (holding_state (release s) (charged ctx t r)) table
  unfolding is_large above_threshold select_tier large_tier
  final_table =
      put-put ctx.op (dropped_state paid) paid taken
      ∙ put-put ctx.op (dropped_state paid) (holding_state s r) table
      ∙ ap (λ x. put_resources ctx.op x table)
          (put_bandwidth_commutes (is_large r ctx.op ctx.requested_len)
            (bandwidth_step ctx (select_tier r ctx.op ctx.requested_len).2 t.reserved).1 s r)
