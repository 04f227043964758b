-- ===== src/Ed25519.antt =====
-- ed25519.js: `hexToBytes` and `verify`. A byte is a number below 256.
use Prim.Native.String.{[], ◌∷◌}
use mathlib.Core.List.{[], ◌∷◌}
use ombot.Prelude.{
  ℕ, ◌+◌, ◌-◌, ◌*◌, code, String, Bool, ◌&&◌, Option, none, some, List, leb, if◌then◌else◌,
}
use ombot.Js.Runtime.{Runtime}

unfoldable pub hex_value : ℕ → Option ℕ
hex_value c =
    if leb 48 c && leb c 57
    then some (c - 48)
    else if leb 65 c && leb c 70
    then some (c - 55)
    else if leb 97 c && leb c 102
    then some (c - 87)
    else none

abbrev byte_before : Option ℕ → Option ℕ → List ℕ → List ℕ
byte_before (some hi) (some lo) rest = (hi * 16 + lo) ∷ rest
byte_before _ _ rest = []

-- `Buffer.from(hex, 'hex')` stops at the first pair that is no byte, and drops an odd digit.
unfoldable pub hex_to_bytes : String → List ℕ
unfolding hex_value
hex_to_bytes (c ∷ d ∷ s) = byte_before (hex_value (code c)) (hex_value (code d)) (hex_to_bytes s)
hex_to_bytes _ = []

-- `none` where the call throws
unfoldable pub verify : Runtime → List ℕ → String → String → Option Bool
verify rt public_key message signature_hex =
    rt.detached_verify message (hex_to_bytes signature_hex) public_key
