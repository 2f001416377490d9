-- ===== src/Startup/Keys/Loaded.antt =====
-- Where the keys come from: backend/internal/service/jwt_keys.go.
use secure_auth_platform.Prelude.{
  ◌≡◌, refl, ap, subst, ◌∙◌, Bool, true, false, ◌||◌, [], Option, none, some, Text, bytes, ◌⊎◌, inl,
  inr, ◌=t=◌, if◌then◌else◌,
}
use secure_auth_platform.Repository.Finds.{test_eq}
use secure_auth_platform.Startup.{Outside}
use secure_auth_platform.Startup.Keys.{
  JwtKeyPair, and_then, private_of_block, load_private_key, load_public_key, load_jwt_keys,
}

module _ (out : Outside) where
  and_then-some :
      {A B : Type 0} (o : Option A) (k : A → Option B) (b : B)
      → and_then o k ≡ some b
      → (a : A) × (o ≡ some a) × (k a ≡ some b)
  and_then-some none k b h = cc
  and_then-some (some a) k b h = (a, refl, h)

  unnamed :
      {A : Type 0} (b : Bool) (k : Option A) (a : A)
      → (if b then none else k) ≡ some a
      → (b ≡ false) × (k ≡ some a)
  unnamed true k a h = cc
  unnamed false k a h = (refl, h)

  -- Keys that were loaded come from two files that could be read, and the public key is an RSA
  -- key in a PKIX block; the private key is the RSA key of a PEM block of one of the two types
  -- that are accepted.
  pub record AreLoaded (private_path public_path : Text) (keys : JwtKeyPair out) : Type 0 where
    pub private_file : Text
    pub private_read : out.read_file private_path ≡ some private_file
    pub kind : Text
    pub body : Text
    pub private_block : out.pem_decode private_file ≡ some (kind, body)
    pub private_key :
        ((kind ≡ bytes "RSA PRIVATE KEY") × (out.parse_pkcs1 body ≡ some keys.private))
        ⊎ ((kind ≡ bytes "PRIVATE KEY") × (out.parse_pkcs8 body ≡ some (some keys.private)))
    pub public_file : Text
    pub public_read : out.read_file public_path ≡ some public_file
    pub public_block : Text × Text
    pub public_decoded : out.pem_decode public_file ≡ some public_block
    pub public_key : out.parse_pkix public_block.1 ≡ some (some keys.public)

  one_of :
      {A : Type 0} (b c : Bool) (p q : Option A) (a : A)
      → (if b then p else if c then q else none) ≡ some a
      → ((b ≡ true) × (p ≡ some a)) ⊎ ((c ≡ true) × (q ≡ some a))
  one_of true c p q a h = inl (refl, h)
  one_of false true p q a h = inr (refl, h)
  one_of false false p q a h = cc

  of_block :
      (kind body : Text) (key : out.PrivateKey)
      → private_of_block out (kind, body) ≡ some key
      → ((kind ≡ bytes "RSA PRIVATE KEY") × (out.parse_pkcs1 body ≡ some key))
        ⊎ ((kind ≡ bytes "PRIVATE KEY") × (out.parse_pkcs8 body ≡ some (some key)))
  unfolding private_of_block
  of_block kind body key h =
      elim (one_of (kind =t= bytes "RSA PRIVATE KEY") (kind =t= bytes "PRIVATE KEY") _ _ key h) [
        | inl (e, k) ↦ inl (test_eq kind _ e, k)
        | inr (e, k) ↦
            let (inner, got, same) = and_then-some (out.parse_pkcs8 body) (λ x. x) key k in
            inr (test_eq kind _ e, got ∙ ap some same)
      ]

  -- If LoadJWTKeys succeeds, both files could be read; the private key is the RSA key in a PEM block
  -- of one of the two accepted types, parsed as that type asks, and the public key is the RSA key
  -- that the PKIX parser finds in the PEM block of its file, of whatever type.
  pub load_jwt_keys_sound :
      (private_path public_path : Text) (keys : JwtKeyPair out)
      → load_jwt_keys out private_path public_path ≡ some keys
      → AreLoaded private_path public_path keys
  unfolding load_jwt_keys load_private_key load_public_key and_then-some unnamed
  load_jwt_keys_sound private_path public_path keys h =
      let (_, h₀) = unnamed (private_path =t= [] || public_path =t= []) _ keys h in
      let (private, e₁, h₁) = and_then-some _ _ keys h₀ in
      let (public, e₂, h₂) = and_then-some _ _ keys h₁ in
      let made : record { private = private; public = public } ≡ keys = cc in
      let (file, read, k₁) = and_then-some _ _ private e₁ in
      let ((kind, body), decoded, k₂) = and_then-some _ _ private k₁ in
      let (file', read', l₁) = and_then-some _ _ public e₂ in
      let (block, decoded', l₂) = and_then-some _ _ public l₁ in
      let (inner, parsed, l₃) = and_then-some _ (λ key. key) public l₂ in
      subst (AreLoaded private_path public_path) made (record {
        private_file = file;
        private_read = read;
        kind = kind;
        body = body;
        private_block = decoded;
        private_key = of_block kind body private k₂;
        public_file = file';
        public_read = read';
        public_block = block;
        public_decoded = decoded';
        public_key = parsed ∙ ap some l₃;
      })
