-- ===== src/Routing.antt =====
-- src/routing: routes, their store and their enumeration.
pub mod Store
pub mod Graph
pub mod Evaluator
pub mod Optimizer
use robinarb.Base.{ℕ, Bool, List}

pub record Hop : Type 0 where
  pub pool : ℕ
  pub zero_for_one : Bool
  pub token_in : ℕ

pub record Route : Type 0 where
  pub id : ℕ
  pub anchor : ℕ
  pub hops : List Hop
