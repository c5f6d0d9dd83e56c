-- ===== src/Op/Laws.antt =====
-- Equality of operation kinds, and what `FsOp::ALL` and `as_str` promise.
use Prim.Native.String.{String}
use text.Mathlib.Text.{◌==◌ as str_eq}
use fusecraft_rs.Base.{
  Bool-cases, inl, inr, false, ◌≢◌, ◌<◌, ◌≡◌, refl, ◌↔◌, true, List, [], ◌∷◌, ap, arith, count,
  Option, none, some, if◌then◌else◌,
}
use fusecraft_rs.Op.{FsOp, lookup, all, discriminant, op_eq, as_str}

pub discriminant-lt : (op : FsOp) → discriminant op < 11
unfolding discriminant
discriminant-lt op = ground arith

pub discriminant-injective : (a b : FsOp) → discriminant a ≡ discriminant b → a ≡ b
unfolding discriminant
discriminant-injective a b h = ground arith

pub op_eq_iff : (a b : FsOp) → (op_eq a b ≡ true) ↔ (a ≡ b)
unfolding op_eq
op_eq_iff a b =
    (λ h. discriminant-injective a b (ground arith), λ e. ground (arith, ap discriminant e))

pub op_eq_self : (a : FsOp) → op_eq a a ≡ true
op_eq_self a = (op_eq_iff a a).1 refl

-- Every operation kind stands in `ALL` exactly once.
pub all_complete : (op : FsOp) → count (op_eq op) all ≡ 1
unfolding all op_eq
all_complete op = ground arith

-- The first operation kind of a list whose name is the given text.
named : String → List FsOp → Option FsOp
named s [] = none
named s (op ∷ ops) = if str_eq (as_str op) s then some op else named s ops

named-as_str : (op : FsOp) → named (as_str op) all ≡ some op
unfolding named as_str all
named-as_str lookup = refl
named-as_str _ = refl

-- No two operation kinds share a name, so a name in a config or an event log tells the kind.
pub as_str-injective : (a b : FsOp) → as_str a ≡ as_str b → a ≡ b
as_str-injective a b h = cc (named-as_str a, named-as_str b, ap (λ s. named s all) h)

pub op_ne : (a b : FsOp) → op_eq a b ≡ false → a ≢ b
op_ne a b h e = cc ((op_eq_iff a b).1 e)

pub ne_op : (a b : FsOp) → a ≢ b → op_eq a b ≡ false
ne_op a b h = elim (Bool-cases (op_eq a b)) [ inl e ↦ absurd (h ((op_eq_iff a b).0 e)) | inr e ↦ e ]
