-- ===== src/Startup/GeoIp.antt =====
-- backend/internal/geoip/geoip.go, maxmind.go. A lookup gives the country of an address, the empty
-- text if it does not know, and `none` for an error.
use secure_auth_platform.Prelude.{List, [], ◌∷◌, Option, none, some, Text, ◌=t=◌, if◌then◌else◌}
use secure_auth_platform.Startup.{Outside}

abbrev pub Lookup : Type 0
Lookup = Text → Option Text

-- Nop
unfoldable pub nop : Lookup
nop ip = some []

-- Mock, where the map is a list of its entries
unfoldable pub mock : List (Text × Text) → Lookup
mock [] ip = some []
mock ((known, code) ∷ countries) ip = if known =t= ip then some code else mock countries ip

module _ (out : Outside) where
  -- MaxMind
  unfoldable pub max_mind : out.Reader → Lookup
  max_mind reader ip = elim (out.parse_ip ip) [
    | none ↦ some []
    | some address ↦ out.country reader address
  ]

  unfoldable pub open_max_mind : Text → Option Lookup
  open_max_mind path = elim (out.open_reader path) [
    | none ↦ none
    | some reader ↦ some (max_mind reader)
  ]
