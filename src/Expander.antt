-- ===== src/Expander.antt =====
-- The expander graph of expanders/expander.go and expanders/generate_expanders.go.
pub mod Parents
pub mod Draw
pub mod Idle
use cess_pos_demo.Common.{ℕ, ◌+◌, ◌*◌}

-- `K + 1` layers of `N` nodes, each of which has `D + 1` parents but those of the first layer.
pub record Expanders : Type 0 where
  pub k : ℕ
  pub n : ℕ
  pub d : ℕ
  pub size : ℕ

unfoldable pub new_expanders : ℕ → ℕ → ℕ → Expanders
new_expanders k n d = record { k = k; n = n; d = d; size = (k + 1) * n }
