-- ===== src/Limiter/Bandwidth/Laws.antt =====
-- What the token bucket promises over any sequence of reservations.
use fusecraft_rs.Base.{
  ℕ, ◌+◌, ◌-◌, ◌≤◌, ◌<◌, ◌≡◌, ◌∙◌, refl, subst, ◌==◌, true, false, List, [], ◌∷◌, if◌then◌else◌,
  arith,
}
use fusecraft_rs.Base.Word.{u64_max, saturating_add, wrapping_add}
use fusecraft_rs.Float.{Float, IsBucketOrder}
use fusecraft_rs.Config.{BandwidthProfile}
use fusecraft_rs.Limiter.Bandwidth.{BandwidthLimiter, BucketState, new, refill, charge, reserve}

-- The bytes of all reservations of a list.
abbrev pub sum_bytes : List (ℕ × ℕ) → ℕ
sum_bytes [] = 0
sum_bytes ((bytes, now) ∷ rs) = bytes + sum_bytes rs

module _ {F : Type 0} ⦃fl : Float F⦄ where
  open fl use {zero as fzero, lt, le, of_u64}

  -- Reservations one after the other: the bytes of each, and the clock.
  unfoldable pub reserve_all : BandwidthLimiter F → List (ℕ × ℕ) → BandwidthLimiter F
  reserve_all b [] = b
  reserve_all b ((bytes, now) ∷ rs) = reserve_all (reserve b bytes now).1 rs

  reserve-total :
      (b : BandwidthLimiter F) (bytes now : ℕ)
      → b.state.total_bytes_reserved ≤ u64_max
      → (reserve b bytes now).1.state.total_bytes_reserved
        ≡ saturating_add b.state.total_bytes_reserved bytes
  unfolding reserve
  reserve-total b bytes now h = ground arith

  -- Started with a total that fits a `u64`, the bucket reports the sum of all reservations, also
  -- those that were never throttled, and stays at the largest `u64` once the sum passes it.
  pub reserve_all-total :
      (b : BandwidthLimiter F) (rs : List (ℕ × ℕ))
      → b.state.total_bytes_reserved ≤ u64_max
      → (reserve_all b rs).state.total_bytes_reserved
        ≡ saturating_add b.state.total_bytes_reserved (sum_bytes rs)
  unfolding reserve_all
  reserve_all-total b [] h = omega arith
  reserve_all-total b ((bytes, now) ∷ rs) h =
      let one = reserve-total b bytes now h in
      omega (arith, one, reserve_all-total (reserve b bytes now).1 rs (omega (arith, one)))

  -- A reservation of no bytes, or at a rate that is not positive, never waits and leaves the
  -- tokens, the clock and the count of throttled reservations alone.
  pub reserve_unlimited :
      (b : BandwidthLimiter F) (bytes now : ℕ)
      → (if bytes == 0 then true else le b.rate fzero) ≡ true
      → ((reserve b bytes now).0 ≡ 0)
        × ((reserve b bytes now).1.state.tokens ≡ b.state.tokens)
        × ((reserve b bytes now).1.state.last ≡ b.state.last)
        × ((reserve b bytes now).1.state.total_throttled ≡ b.state.total_throttled)
  unfolding reserve
  reserve_unlimited b bytes now h = ground arith

  -- The balance is at most the burst capacity, which is a number.
  pub record IsCapped (b : BandwidthLimiter F) : Type 0 where
    pub number : le b.capacity b.capacity ≡ true
    pub capped : le b.state.tokens b.capacity ≡ true

  module _ (law : IsBucketOrder fl) where
    refill-le :
        (b : BandwidthLimiter F) (s : BucketState F) (now : ℕ)
        → le b.capacity b.capacity ≡ true
        → le s.tokens b.capacity ≡ true
        → le (refill b s now).tokens b.capacity ≡ true
    unfolding refill
    refill-le b s now number capped = ground (
      arith,
      law.fmin-le (fl.add s.tokens (fl.mul (fl.as_secs_f64 (now - s.last)) b.rate)) b.capacity
          number,
    )

    charge-le :
        (rate c : F) (s : BucketState F) (bytes : ℕ)
        → le s.tokens c ≡ true
        → le (charge rate s bytes).1.tokens c ≡ true
    unfolding charge
    charge-le rate c s bytes h = ground (arith, law.sub-le s.tokens c bytes h)

    reserve-IsCapped :
        (b : BandwidthLimiter F) (bytes now : ℕ) → IsCapped b → IsCapped (reserve b bytes now).1
    unfolding reserve
    reserve-IsCapped b bytes now c =
        let s = record b.state {
          total_bytes_reserved = saturating_add b.state.total_bytes_reserved bytes;
        } in
        record {
          number = ground arith;
          capped = ground (
            arith,
            charge-le b.rate b.capacity (refill b s now) bytes
                (refill-le b s now c.number c.capped),
          );
        }

    reserve_all-IsCapped :
        (b : BandwidthLimiter F) (rs : List (ℕ × ℕ)) → IsCapped b → IsCapped (reserve_all b rs)
    unfolding reserve_all
    reserve_all-IsCapped b [] c = c
    reserve_all-IsCapped b ((bytes, now) ∷ rs) c =
        reserve_all-IsCapped (reserve b bytes now).1 rs (reserve-IsCapped b bytes now c)

    new-IsCapped : (p : BandwidthProfile F) (now : ℕ) → IsCapped (new p now)
    unfolding new
    new-IsCapped p now = record {
      number = law.le-of_u64_refl p.burst_bytes;
      capped = law.le-of_u64_refl p.burst_bytes;
    }

    reserve_all-capacity :
        (b : BandwidthLimiter F) (rs : List (ℕ × ℕ)) → (reserve_all b rs).capacity ≡ b.capacity
    unfolding reserve_all reserve
    reserve_all-capacity b [] = refl
    reserve_all-capacity b ((bytes, now) ∷ rs) =
        reserve_all-capacity (reserve b bytes now).1 rs ∙ same
      where
        same : (reserve b bytes now).1.capacity ≡ b.capacity
        same = ground arith

    -- After any reservations the balance of a new bucket is at most its burst allowance,
    -- provided that minima and subtractions of bytes respect the order of numbers.
    pub tokens-le_burst :
        (p : BandwidthProfile F) (start : ℕ) (rs : List (ℕ × ℕ))
        → le (reserve_all (new p start) rs).state.tokens (of_u64 p.burst_bytes) ≡ true
    unfolding new
    tokens-le_burst p start rs =
        let c = reserve_all-IsCapped (new p start) rs (new-IsCapped p start) in
        subst (λ (x : F). le (reserve_all (new p start) rs).state.tokens x ≡ true)
          (reserve_all-capacity (new p start) rs) c.capped

    -- A bucket of capacity 0 whose balance is at most its capacity, at a positive rate,
    -- throttles every reservation of at least one byte, whatever the clock says, provided that
    -- minima and subtractions of bytes respect the order of numbers.
    pub no_burst_throttles :
        (b : BandwidthLimiter F) (bytes now : ℕ)
        → IsCapped b
        → b.capacity ≡ of_u64 0
        → le b.rate fzero ≡ false
        → 0 < bytes
        → (reserve b bytes now).1.state.total_throttled ≡ wrapping_add b.state.total_throttled 1
    unfolding reserve charge refill
    no_burst_throttles b bytes now c empty positive some_bytes =
        let s = record b.state {
          total_bytes_reserved = saturating_add b.state.total_bytes_reserved bytes;
        } in
        let low : le (refill b s now).tokens fzero ≡ true =
          subst (λ (x : F). le (refill b s now).tokens x ≡ true) (empty ∙ law.of_u64-zero)
            (refill-le b s now c.number c.capped) in
        ground (arith, law.sub_negative (refill b s now).tokens bytes low some_bytes)
