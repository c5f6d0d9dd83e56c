-- ===== src/Tests/Sampler.antt =====
-- Examples for the samplers and the validation of a configuration.
use fusecraft_rs.Base.{◌≡◌, ◌≢◌, ◌↔◌, [], ◌∷◌, some, ok, arith}
use fusecraft_rs.Op as Op
use fusecraft_rs.Float.Fixed.{fixed, fixed_rng, fixed-IsOrdered}
use fusecraft_rs.Config.Validate.{validate}
use fusecraft_rs.Config.Valid.{IsValid, validate-IsValid}
use fusecraft_rs.Sampler.Key.{SampleKey, mix, fault_stream}
use fusecraft_rs.Sampler.Key.Mixing.{IsKey, OneField, mix-OneField}
use fusecraft_rs.Sampler.Fault.{sample_fault}
use fusecraft_rs.Sampler.Fault.Laws.{Fires, sample_fault-Fires}
use fusecraft_rs.Tests.Samples.{read_key, config, always_eio, never_enoent}

read_key-IsKey : IsKey read_key
read_key-IsKey = record {
  seed = omega arith;
  ino = omega arith;
  offset = omega arith;
  len = omega arith;
  seq = omega arith;
}

abbrev later_read : SampleKey
later_read = record read_key { seq = 8 }

later_read-IsKey : IsKey later_read
later_read-IsKey = record {
  seed = omega arith;
  ino = omega arith;
  offset = omega arith;
  len = omega arith;
  seq = omega arith;
}

mix-OneField_example : mix (record read_key { seq = 8 }) fault_stream ≢ mix read_key fault_stream
mix-OneField_example =
    mix-OneField read_key (record read_key { seq = 8 }) fault_stream read_key-IsKey later_read-IsKey
      (omega arith) (OneField.seq 8 (λ e. omega arith))

sample_fault-Fires_example :
    (sample_fault (never_enoent ∷ always_eio ∷ []) read_key ≡ some 5)
    ↔ Fires Op.read (mix read_key fault_stream) 0 (never_enoent ∷ always_eio ∷ []) (some 5)
sample_fault-Fires_example = sample_fault-Fires (never_enoent ∷ always_eio ∷ []) read_key (some 5)

validate-IsValid_example : (validate config ≡ ok tt) ↔ IsValid config
validate-IsValid_example = validate-IsValid fixed-IsOrdered config
