-- ===== src/PasswordPolicy.antt =====
-- backend/internal/service/user_validation.go: the checks on an email and on a new password
pub mod Patterns
pub mod Runs
use secure_auth_platform.Prelude.{
  ℕ, suc, ◌+◌, ◌-◌, ◌/◌, ◌%◌, Bool, true, false, not, ◌&&◌, ◌||◌, List, [], ◌∷◌, ◌++◌, Option, none,
  some, Text, bytes, ltb, leb, ◌==◌, ◌=t=◌, length, take, drop, any, if◌then◌else◌,
}
use secure_auth_platform.Exec.{
  Result, ok, err, invalid_email, password_too_short, password_too_long, password_complexity,
  password_weak, password_pwned, pure, fail, ◌>>=◌, ◌>>◌,
}
use secure_auth_platform.Env.{Env}
use secure_auth_platform.World.{App, ticked}
use secure_auth_platform.Password.{split}
use Patterns.{contains, has_sequence_in, has_repetitive_patterns}

-- What the loop over the runes has met.
pub record Classes : Type 0 where
  pub lower : Bool
  pub upper : Bool
  pub digit : Bool

abbrev common_passwords : List Text
common_passwords =
    bytes "123456"
    ∷ bytes "123456789"
    ∷ bytes "password"
    ∷ bytes "senha123"
    ∷ bytes "qwerty"
    ∷ bytes "admin"
    ∷ bytes "12345678"
    ∷ bytes "87654321"
    ∷ bytes "senha123456"
    ∷ bytes "mudar123"
    ∷ bytes "welcome"
    ∷ bytes "letmein"
    ∷ bytes "login123"
    ∷ []

is_separator : ℕ → Bool
is_separator c = c == b' ' || c == b'-' || c == b'_' || c == b'.'

-- strings.FieldsFunc: the part being read, then the rest; empty parts are left out.
fields_from : Text → Text → List Text
unfolding is_separator
fields_from [] [] = []
fields_from (c ∷ part) [] = (c ∷ part) ∷ []
fields_from part (c ∷ s) =
    let closed = fields_from [] s in
    let longer = fields_from (part ++ c ∷ []) s in
    if is_separator c then (if part =t= [] then closed else part ∷ closed) else longer

-- The text before the first `sep`, if there is one.
before_first : ℕ → Text → Option Text
before_first sep [] = none
before_first sep (c ∷ s) =
    let rest = before_first sep s in
    if c == sep then some [] else elim rest [ none ↦ none | some p ↦ some (c ∷ p) ]

hex_digit_upper : ℕ → ℕ
hex_digit_upper d = if ltb d 10 then b'0' + d else b'A' + (d - 10)

-- %X
hex_upper : Text → Text
unfolding hex_digit_upper
hex_upper [] = []
hex_upper (b ∷ t) = hex_digit_upper (b / 16) ∷ hex_digit_upper (b % 16) ∷ hex_upper t

module _ (env : Env) where
  open env.unicode use {runes, is_lower, is_upper, is_digit, to_lower}

  unfoldable pub validate_email : Text → Result (Unit {0})
  validate_email email = elim (env.libs.parse_address email) [
    | none ↦ err invalid_email
    | some address ↦ if address =t= email then ok tt else err invalid_email
  ]

  classes_from : Classes → List ℕ → Classes
  classes_from k [] = k
  classes_from k (r ∷ rs) =
      classes_from
        (if is_lower r
          then record k { lower = true }
          else if is_upper r
          then record k { upper = true }
          else if is_digit r
          then record k { digit = true }
          else k)
        rs

  unfoldable pub classes : List ℕ → Classes
  unfolding classes_from
  classes = classes_from (record { lower = false; upper = false; digit = false })

  -- A word of the name of three bytes or more.
  name_word_in : Text → Text → Bool
  unfolding fields_from
  name_word_in lowered name =
      any (λ part. leb 3 (length part) && contains lowered part) (fields_from [] (to_lower name))

  email_prefix_in : Text → Option Text → Bool
  email_prefix_in lowered none = false
  email_prefix_in lowered (some prefix) = leb 3 (length prefix) && contains lowered prefix

  unfoldable pub contains_personal_data : (password name email : Text) → Bool
  unfolding name_word_in email_prefix_in before_first
  contains_personal_data password name email =
      let lowered = to_lower password in
      not (name =t= []) && name_word_in lowered name
      || not (email =t= [])
        && (contains lowered (to_lower email)
            || email_prefix_in lowered (before_first b'@' (to_lower email)))

  -- Does a line of the answer name the rest of the hash?
  names_suffix : Text → Text → Bool
  names_suffix suffix line = elim (before_first b':' (env.libs.trim_space line)) [
    | none ↦ false
    | some part ↦ part =t= suffix
  ]

  -- `none` is a failed request.
  unfoldable pub check_hibp : Text → App env (Option Bool)
  unfolding hex_upper names_suffix before_first
  check_hibp password w =
      let sum = hex_upper (env.libs.sha1 password) in
      let body = env.hibp_range w.tick (take 5 sum) in
      (
        ok (elim body [
          | none ↦ none
          | some b ↦ some (any (names_suffix (drop 5 sum)) (split 10 b))
        ]),
        ticked w,
      )

  -- The checks that need no request, in the order of the code.
  unfoldable pub local_checks : (password name email : Text) → Result (Unit {0})
  local_checks password name email =
      let rs = runes password in
      let k = classes rs in
      if ltb (length rs) 12
      then err password_too_short
      else if ltb 128 (length rs)
      then err password_too_long
      else if not k.lower || not k.upper || not k.digit
      then err password_complexity
      else if any (λ c. c =t= to_lower password) common_passwords
      then err password_weak
      else if has_sequence_in (to_lower password)
      then err password_weak
      else if has_repetitive_patterns password
      then err password_weak
      else if contains_personal_data password name email
      then err password_weak
      else ok tt

  -- An error of the leak service lets the password pass.
  on_leak : Option Bool → App env (Unit {0})
  on_leak none = pure tt
  on_leak (some pwned) = if pwned then fail password_pwned else pure tt

  unfoldable pub validate_password_secure : (password name email : Text) → App env (Unit {0})
  unfolding on_leak
  validate_password_secure password name email = do
    λ w. (local_checks password name email, w)
    leak ← check_hibp password
    on_leak leak
