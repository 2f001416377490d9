-- ===== src/Password/Runs.antt =====
-- Hashing a password changes no table.
use secure_auth_platform.Prelude.{Text}
use secure_auth_platform.Env.{Env}
use secure_auth_platform.World.Moves.{Moves, moves_rules}
use secure_auth_platform.Repository.Steps.{runs}
use secure_auth_platform.Password.{hash_password}

pub hash_password-Runs : (env : Env) (plain : Text) → Moves env runs (hash_password env plain)
unfolding hash_password
hash_password-Runs env plain = search moves_rules
