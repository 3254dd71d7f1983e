-- ===== src/Expander/Draw/Endless.antt =====
-- The inner loop of `CalcParents` of expanders/generate_expanders.go on a node whose list is full.
use cess_pos_demo.Common.{ℕ, Bool, false, Option, none, some, Run, ok}
use cess_pos_demo.Expander.Parents.{Node}

-- What a round comes to on a full node: no search ends it, and no value is added.
abbrev after_pick : Node → (ℕ → ℕ → Run ⊥ (Node × Bool)) → Option (ℕ × ℕ) → Run ⊥ (Node × Bool)
after_pick node again none = ok (node, false)
after_pick node again (some (q, t)) = again q t
