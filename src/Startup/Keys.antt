-- ===== src/Startup/Keys.antt =====
-- backend/internal/service/jwt_keys.go
pub mod Loaded
use secure_auth_platform.Prelude.{
  Bool, Option, none, some, [], Text, bytes, ◌=t=◌, ◌||◌, if◌then◌else◌,
}
use secure_auth_platform.Startup.{Outside}

-- An error, or the next step.
abbrev pub and_then : {A B : Type 0} → Option A → (A → Option B) → Option B
and_then none k = none
and_then (some a) k = k a

module _ (out : Outside) where
  pub record JwtKeyPair : Type 0 where
    pub private : out.PrivateKey
    pub public : out.PublicKey

  -- The key of a block: its type, and its bytes.
  unfoldable pub private_of_block : Text × Text → Option out.PrivateKey
  private_of_block (kind, body) =
      if kind =t= bytes "RSA PRIVATE KEY"
      then out.parse_pkcs1 body
      else if kind =t= bytes "PRIVATE KEY"
      then and_then (out.parse_pkcs8 body) (λ key. key)
      else none

  unfoldable pub load_private_key : Text → Option out.PrivateKey
  load_private_key path =
      and_then (out.read_file path) λ data_. and_then (out.pem_decode data_) private_of_block

  unfoldable pub load_public_key : Text → Option out.PublicKey
  load_public_key path =
      and_then (out.read_file path) λ data_.
        and_then (out.pem_decode data_) λ block. and_then (out.parse_pkix block.1) λ key. key

  unfoldable pub load_jwt_keys : (private_path public_path : Text) → Option JwtKeyPair
  load_jwt_keys private_path public_path =
      if private_path =t= [] || public_path =t= []
      then none
      else (and_then (load_private_key private_path) λ private.
          and_then (load_public_key public_path)
            λ public. some (record { private = private; public = public }))
