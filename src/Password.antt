-- ===== src/Password.antt =====
-- backend/internal/password/password.go. `SetParams` and `TestParams` are the configuration.
pub mod Runs
pub mod Parts
pub mod RoundTrip
use secure_auth_platform.Prelude.{
  ℕ, Bool, true, false, ◌||◌, List, [], ◌∷◌, ◌++◌, Option, none, some, Text, bytes, length, ◌==◌,
  ◌=t=◌, has_prefix, if◌then◌else◌,
}
use secure_auth_platform.Exec.{
  Result, ok, err, fault, unknown_hash_format, password_mismatch, ◌>>=◌, pure,
}
use secure_auth_platform.Env.{Env}
use secure_auth_platform.World.{App, read_random}

-- strings.Split at a one-byte separator: the part being read, then the rest.
pub split_from : ℕ → Text → Text → List Text
split_from sep part [] = part ∷ []
split_from sep part (c ∷ s) =
    let closed = part ∷ split_from sep [] s in
    let longer = split_from sep (part ++ c ∷ []) s in if c == sep then closed else longer

unfoldable pub split : ℕ → Text → List Text
unfolding split_from
split sep s = split_from sep [] s

abbrev pub argon2_version : ℕ
argon2_version = 19

-- What a stored Argon2id hash says: its costs, the salt and the key.
pub record Decoded : Type 0 where
  pub memory : ℕ
  pub iterations : ℕ
  pub parallelism : ℕ
  pub salt : Text
  pub hash : Text

module _ (env : Env) where
  open env.libs use {
    base64_std, base64_std_decode, bcrypt_matches, argon2id, scan_version, scan_params, decimal,
  }

  unfoldable pub phc_string : (memory iterations parallelism : ℕ) (salt hash : Text) → Text
  phc_string memory iterations parallelism salt hash =
      bytes "$argon2id$v="
      ++ (decimal argon2_version
          ++ (bytes "$m="
              ++ (decimal memory
                  ++ (bytes ",t="
                      ++ (decimal iterations
                          ++ (bytes ",p="
                              ++ (decimal parallelism
                                  ++ (bytes "$"
                                      ++ (base64_std salt ++ (bytes "$" ++ base64_std hash))))))))))

  -- `Hash`
  unfoldable pub hash_password : Text → App env Text
  hash_password plain = do
    let p = env.config.params
    salt ← read_random env p.salt_length
    let key = argon2id plain salt p.iterations p.memory p.parallelism p.key_length
    pure (phc_string p.memory p.iterations p.parallelism salt key)

  decode_key : (memory iterations parallelism : ℕ) → Text → Text → Option Decoded
  decode_key memory iterations parallelism p4 p5 = elim (base64_std_decode p4) [
    | none ↦ none
    | some salt ↦ elim (base64_std_decode p5) [
      | none ↦ none
      | some hash ↦ some (record {
        memory = memory;
        iterations = iterations;
        parallelism = parallelism;
        salt = salt;
        hash = hash;
      })
    ]
  ]

  decode_costs : (p3 p4 p5 : Text) → Option Decoded
  unfolding decode_key
  decode_costs p3 p4 p5 = elim (scan_params p3) [
    | none ↦ none
    | some (memory, iterations, parallelism) ↦ decode_key memory iterations parallelism p4 p5
  ]

  decode_parts : List Text → Option Decoded
  unfolding decode_costs
  decode_parts (p0 ∷ p1 ∷ p2 ∷ p3 ∷ p4 ∷ p5 ∷ []) =
      if p1 =t= bytes "argon2id"
      then elim (scan_version p2) [
        | none ↦ none
        | some version ↦ if version == argon2_version then decode_costs p3 p4 p5 else none
      ]
      else none
  decode_parts parts = none

  -- `decodeArgon2id`; every error is `none`.
  unfoldable pub decode_argon2id : Text → Option Decoded
  unfolding decode_parts
  decode_argon2id stored = decode_parts (split b'$' stored)

  unfoldable pub verify_argon2id : Text → Text → Result (Unit {0})
  verify_argon2id stored plain = elim (decode_argon2id stored) [
    | none ↦ err fault
    | some d ↦
        if d.hash =t= argon2id plain d.salt d.iterations d.memory d.parallelism (length d.hash)
        then ok tt
        else err password_mismatch
  ]

  -- `Verify`: on success, whether the hash is to be renewed.
  unfoldable pub verify : (stored plain : Text) → Result Bool
  verify stored plain =
      if has_prefix stored (bytes "$2a$") || has_prefix stored (bytes "$2b$")
      then (if bcrypt_matches stored plain then ok true else err fault)
      else if has_prefix stored (bytes "$argon2id$")
      then elim (verify_argon2id stored plain) [ ok _ ↦ ok false | err e ↦ err e ]
      else err unknown_hash_format
