-- ===== src/Contract/Complete/Equal.antt =====
-- The derived `==` of the blockers that src/contract/complete.rs removes twice.
use native.Mathlib.Decide.{ℕ_discrete}
use parc.Contract.Complete.Visit.{CompletionBlocker}

unfoldable pub CompletionBlocker-discrete : Discrete CompletionBlocker
CompletionBlocker-discrete = hlevel (ℕ_discrete)
