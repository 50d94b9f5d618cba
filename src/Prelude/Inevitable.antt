-- ===== src/Prelude/Inevitable.antt =====
-- What a system comes to, whichever of its steps are taken.
use Prim.Native.Nat.{ℕ, zero, suc, ◌<◌}
use mathlib.Core.Logic.{◌⊎◌, inl, inr}
use native.Mathlib.Omega.{arith}

module _ {ℓ κ μ} {S : Type ℓ} (Step : S → S → Type κ) (IsDone : S → Type μ) where
  -- `IsDone` holds, or some step can be taken and after each step it is inevitable.
  pub data Inevitably : S → Type (ℓ ⊔ κ ⊔ μ) where
    reached : {s : S} → IsDone s → Inevitably s
    goes_on : {s : S} (t : S) → Step s t → ((u : S) → Step s u → Inevitably u) → Inevitably s

  -- It is so where a system that is not done can take a step, and each step lowers a measure.
  pub Inevitably-of_measure {ν} :
      (IsGood : S → Type ν) (measure : S → ℕ)
      → ((s : S) → IsGood s → IsDone s ⊎ ((t : S) × Step s t))
      → ((s t : S) → Step s t → IsGood s → IsGood t × (measure t < measure s))
      → {s : S} → IsGood s
      → Inevitably s
  Inevitably-of_measure IsGood measure progress closer {s} h =
      within (suc (measure s)) s (omega arith) h
    where
      within : (fuel : ℕ) (s : S) → measure s < fuel → IsGood s → Inevitably s
      within zero s bound h = absurd (omega arith)
      within (suc fuel) s bound h = elim (progress s h) [
        | inl done ↦ reached done
        | inr (t, st) ↦
            goes_on t st
              (λ u st'. let (h', less) = closer s u st' h in within fuel u (omega arith) h')
      ]
