-- ===== src/Messageq/Spec.antt =====
-- What a message queue promises. The messages are numbered in the order of their claims: those
-- below `received` have been received, the last `held` of them are not yet released, and the next
-- ones are claimed, each with a mark that says whether it has been sent.
use librfn.Common.{
  ℕ, ◌+◌, ◌-◌, Bool, true, false, Option, none, some, List, [], ◌∷◌, ◌++◌, ltb, if◌then◌else◌,
  length, set,
}

pub record Spec : Type 0 where
  pub received : ℕ
  pub held : ℕ
  pub claimed : List Bool

module _ (depth : ℕ) where
  -- The number of the claimed message, while fewer than `depth` are unreleased.
  unfoldable pub claim : Spec → Option ℕ × Spec
  claim q =
      if ltb (q.held + length q.claimed) depth
      then (some (q.received + length q.claimed), record q { claimed = q.claimed ++ (false ∷ []) })
      else (none, q)

-- The `k`th claimed message is sent, in whatever order.
unfoldable pub send : Spec → ℕ → Spec
send q k = record q { claimed = set q.claimed k true }

-- Messages are received in the order of their claims, each as soon as it is sent.
unfoldable pub receive_claimed : List Bool → Spec → Option ℕ × Spec
receive_claimed (true ∷ rest) q =
    (some q.received, record { received = q.received + 1; held = q.held + 1; claimed = rest })
receive_claimed _ q = (none, q)

unfoldable pub receive : Spec → Option ℕ × Spec
unfolding receive_claimed
receive q = receive_claimed q.claimed q

unfoldable pub release : Spec → Spec
release q = record q { held = q.held - 1 }
