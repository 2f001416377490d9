-- ===== src/Password/RoundTrip.antt =====
-- A hash that was stored is read back: Hash and Verify of backend/internal/password/password.go.
use mathlib.Core.List.{append_assoc}
use secure_auth_platform.Prelude.{
  ℕ, ◌≡◌, refl, ap, subst, ◌∙◌, true, false, [], ◌∷◌, ◌++◌, some, Text, bytes, arith, any, length,
  ◌=t=◌, if◌then◌else◌, has_prefix,
}
use secure_auth_platform.Exec.{ok, err, password_mismatch, >>=-eq-ok}
use secure_auth_platform.Env.{Env}
use secure_auth_platform.World.{World}
use secure_auth_platform.Password.Parts.{
  has_dollar, split_from-part, split_from-last, has_dollar-append, name_plain, version_plain,
  same_name,
}
use secure_auth_platform.Password.{
  split_from, split, argon2_version, phc_string, hash_password, decode_key, decode_costs,
  decode_parts, decode_argon2id, verify_argon2id, verify,
}

-- What the code relies on of the encodings, the scanner and Argon2id.
pub record HashLaws (env : Env) : Type 0 where
  pub decimal_plain : (n : ℕ) → has_dollar (env.libs.decimal n) ≡ false
  pub base64_plain : (t : Text) → has_dollar (env.libs.base64_std t) ≡ false
  pub base64_round : (t : Text) → env.libs.base64_std_decode (env.libs.base64_std t) ≡ some t
  pub version_read :
      env.libs.scan_version (bytes "v=" ++ env.libs.decimal argon2_version) ≡ some argon2_version
  pub costs_read :
      env.libs.scan_params (
        bytes "m="
        ++ (env.libs.decimal env.config.params.memory
            ++ (bytes ",t="
                ++ (env.libs.decimal env.config.params.iterations
                    ++ (bytes ",p=" ++ env.libs.decimal env.config.params.parallelism)))))
      ≡ some (env.config.params.memory, env.config.params.iterations, env.config.params.parallelism)
  pub key_size :
      (plain salt : Text) (t m p k : ℕ) → length (env.libs.argon2id plain salt t m p k) ≡ k

module _ (env : Env) (laws : HashLaws env) where
  open env.libs use {decimal, base64_std}

  costs : (m t p : ℕ) → Text
  costs m t p =
      bytes "m=" ++ (decimal m ++ (bytes ",t=" ++ (decimal t ++ (bytes ",p=" ++ decimal p))))

  costs_plain : (m t p : ℕ) → has_dollar (costs m t p) ≡ false
  unfolding costs bytes any
  costs_plain m t p =
      has_dollar-append (decimal m) _ (laws.decimal_plain m)
        (has_dollar-append (decimal t) _ (laws.decimal_plain t) (laws.decimal_plain p))

  phc_string-parts :
      (m t p : ℕ) (salt hash : Text)
      → phc_string env m t p salt hash
        ≡ 36
          ∷ (bytes "argon2id"
              ++ 36
                ∷ ((bytes "v=" ++ decimal argon2_version)
                    ++ 36 ∷ (costs m t p ++ 36 ∷ (base64_std salt ++ 36 ∷ base64_std hash))))
  unfolding phc_string costs bytes
  phc_string-parts m t p salt hash = simp (append_assoc)

  split-phc :
      (m t p : ℕ) (salt hash : Text)
      → split 36 (phc_string env m t p salt hash)
        ≡ []
          ∷ bytes "argon2id"
          ∷ (bytes "v=" ++ decimal argon2_version)
          ∷ costs m t p
          ∷ base64_std salt
          ∷ base64_std hash
          ∷ []
  unfolding split
  split-phc m t p salt hash =
      ap (split_from 36 []) (phc_string-parts m t p salt hash)
      ∙ rw
          (
            split_from-part [] (bytes "argon2id") _ name_plain,
            split_from-part [] (bytes "v=" ++ decimal argon2_version) _
                (version_plain _ (laws.decimal_plain argon2_version)),
            split_from-part [] (costs m t p) _ (costs_plain m t p),
            split_from-part [] (base64_std salt) _ (laws.base64_plain salt),
            split_from-last [] (base64_std hash) (laws.base64_plain hash),
          )
          refl

  decode_costs-costs :
      (salt hash : Text)
      → decode_costs env
          (costs env.config.params.memory env.config.params.iterations
            env.config.params.parallelism)
          (base64_std salt)
          (base64_std hash)
        ≡ some (record {
          memory = env.config.params.memory;
          iterations = env.config.params.iterations;
          parallelism = env.config.params.parallelism;
          salt = salt;
          hash = hash;
        })
  unfolding decode_costs decode_key costs
  decode_costs-costs salt hash =
      rw
        (
          decode_costs,
          costs,
          laws.costs_read,
          decode_key,
          laws.base64_round salt,
          laws.base64_round hash,
        )
        refl

  -- What is read back from a stored hash.
  decode-phc :
      (salt hash : Text)
      → decode_argon2id env (
          phc_string env env.config.params.memory env.config.params.iterations
            env.config.params.parallelism salt hash)
        ≡ some (record {
          memory = env.config.params.memory;
          iterations = env.config.params.iterations;
          parallelism = env.config.params.parallelism;
          salt = salt;
          hash = hash;
        })
  unfolding decode_argon2id decode_parts
  decode-phc salt hash =
      rw
        (
          split-phc env.config.params.memory env.config.params.iterations
              env.config.params.parallelism salt hash,
          same_name,
          laws.version_read,
        )
        (decode_costs-costs salt hash)

  abbrev pub key : (plain salt : Text) → Text
  key plain salt =
      env.libs.argon2id plain salt env.config.params.iterations env.config.params.memory
        env.config.params.parallelism env.config.params.key_length

  not_bcrypt_a :
      (m t p : ℕ) (salt hash : Text)
      → has_prefix (phc_string env m t p salt hash) (bytes "$2a$") ≡ false
  unfolding phc_string bytes has_prefix
  not_bcrypt_a m t p salt hash = refl

  not_bcrypt_b :
      (m t p : ℕ) (salt hash : Text)
      → has_prefix (phc_string env m t p salt hash) (bytes "$2b$") ≡ false
  unfolding phc_string bytes has_prefix
  not_bcrypt_b m t p salt hash = refl

  is_argon2id :
      (m t p : ℕ) (salt hash : Text)
      → has_prefix (phc_string env m t p salt hash) (bytes "$argon2id$") ≡ true
  unfolding phc_string bytes has_prefix
  is_argon2id m t p salt hash = refl

  verify_argon2id-phc :
      (plain other salt : Text)
      → verify_argon2id env
          (phc_string env env.config.params.memory env.config.params.iterations
            env.config.params.parallelism salt
            (key plain salt))
          other
        ≡ (if key plain salt =t= key other salt then ok tt else err password_mismatch)
  unfolding verify_argon2id
  verify_argon2id-phc plain other salt =
      rw (verify_argon2id, decode-phc salt (key plain salt), laws.key_size plain salt) refl

  verify-phc :
      (plain other salt : Text)
      → verify env
          (phc_string env env.config.params.memory env.config.params.iterations
            env.config.params.parallelism salt
            (key plain salt))
          other
        ≡ (if key plain salt =t= key other salt then ok false else err password_mismatch)
  unfolding verify
  verify-phc plain other salt =
      rw
        (
          verify,
          not_bcrypt_a _ _ _ salt (key plain salt),
          not_bcrypt_b _ _ _ salt (key plain salt),
          is_argon2id _ _ _ salt (key plain salt),
          verify_argon2id-phc plain other salt,
        )
        (ground arith)

  -- A hash that was made for a password accepts just the passwords with the same Argon2id key
  -- under its salt, and none of those asks for a new hash.
  pub verify-hash_password :
      (plain : Text) (w v : World env.redis.State) (stored : Text)
      → hash_password env plain w ≡ (ok stored, v)
      → (salt : Text) × ((other : Text)
          → verify env stored other
            ≡ (if key plain salt =t= key other salt then ok false else err password_mismatch))
  unfolding hash_password
  verify-hash_password plain w v stored e =
      let (salt, u, _, k) = >>=-eq-ok _ _ w e in
      let made : phc_string env env.config.params.memory env.config.params.iterations
            env.config.params.parallelism salt (key plain salt)
          ≡ stored =
        cc in
      (
        salt,
        λ other.
            subst
              (λ h.
                verify env h other
                ≡ (if key plain salt =t= key other salt then ok false else err password_mismatch))
              made (verify-phc plain other salt),
      )

  -- A hash that was made for a password accepts that password, and asks for no new hash.
  pub hash_round_trip :
      (plain : Text) (w v : World env.redis.State) (stored : Text)
      → hash_password env plain w ≡ (ok stored, v)
      → verify env stored plain ≡ ok false
  hash_round_trip plain w v stored e =
      let (salt, k) = verify-hash_password plain w v stored e in k plain ∙ ground arith
