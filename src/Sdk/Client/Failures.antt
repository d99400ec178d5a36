-- ===== src/Sdk/Client/Failures.antt =====
-- When the calls of packages/sdk-js/src/client.ts throw.
use flagraft.Prelude.{true, ◌≡◌}
use flagraft.Sdk.Transport.{Answer, answered, failed, is_thrown_on}

-- Of the errors only a caller's are thrown on.
abbrev pub IsTolerant : {A : Type 0} → Answer A → Type 0
IsTolerant (answered a) = Unit
IsTolerant (failed e) = is_thrown_on e ≡ true
