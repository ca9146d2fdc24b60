-- ===== src/Object/Identity.antt =====
-- What nl_object_diff tells of two objects, in 32 bits against 64.
use libnl.Prelude.{ℕ, ◌≡◌, ◌↔◌, arith}
use libnl.Object.{Object, ObjectOps, nl_object_diff, nl_object_diff64}

module _ {D : Type 0} (ops : ℕ → ObjectOps D) where
  -- The 32-bit difference is 0 exactly when the 64-bit difference is, although its upper half is
  -- folded into one bit.
  pub nl_object_diff-eq-zero :
      (a b : Object D) → (nl_object_diff ops a b ≡ 0) ↔ (nl_object_diff64 ops a b ≡ 0)
  unfolding nl_object_diff
  nl_object_diff-eq-zero a b = (λ h. ground arith, λ h. ground arith)
