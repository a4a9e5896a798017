-- ===== src/Prelude/Objects.antt =====
-- Mutable objects of one class that several places may refer to: a store indexed by references.
-- Only the references below `next` have been given out.
use Prim.Native.Nat.{ℕ, ◌+◌}
use mathlib.Core.Path.{◌≡◌, refl, ap, fun_ext}
use mathlib.Core.Logic.{inl, inr}
use raknet_python.Prelude.Tests.{◌==◌, nat_eq, nat_beq_iff, ==-refl, Bool-cases, if◌then◌else◌}

abbrev pub Ref : Type 0
Ref = ℕ

pub record Objects {ℓ} (A : Type ℓ) : Type ℓ where
  pub next : ℕ
  pub at : Ref → A

module _ {ℓ} {A : Type ℓ} where
  -- Assignment through a reference.
  abbrev pub put_at : Ref → A → Objects A → Objects A
  put_at r a s = record s { at = λ q. if r == q then a else s.at q }

  -- A new object; its reference is the old `next`.
  abbrev pub alloc : A → Objects A → Objects A
  alloc a s = record { next = s.next + 1; at = λ q. if s.next == q then a else s.at q }

  -- What was put in place of an object is there, and a second assignment hides the first.
  pub put_at-here : (r : Ref) (a : A) (s : Objects A) → (put_at r a s).at r ≡ a
  put_at-here r a s = rw (==-refl r) refl

  pub put_at-again :
      (r : Ref) (a : A) (s : Objects A) (f : A → A)
      → put_at r (f ((put_at r a s).at r)) (put_at r a s) ≡ put_at r (f a) s
  put_at-again r a s f =
      ap (λ at. record s { at = at })
        (fun_ext (λ q. elim (Bool-cases (r == q)) [
          | inl same ↦ rw (same, ==-refl r) refl
          | inr other ↦ rw other refl
        ]))

  pub put_at-same : (r : Ref) (s : Objects A) → put_at r (s.at r) s ≡ s
  put_at-same r s =
      ap (λ at. record s { at = at })
        (fun_ext (λ q. elim (Bool-cases (r == q)) [
          | inl same ↦ rw same (ap s.at ((nat_beq_iff r q).0 same))
          | inr other ↦ rw other refl
        ]))
