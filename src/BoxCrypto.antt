-- ===== src/BoxCrypto.antt =====
-- boxCrypto.js: `encrypt` and `decrypt`. The random nonce is an argument.
use ombot.Prelude.{ℕ, String, Option, none, some, List}
use ombot.Js.Value.{Value, str, obj, end, field}
use ombot.Js.Runtime.{Runtime}

module _ (rt : Runtime) where
  -- `{ type: 'encrypted', nonce, payload }`; `none` where `encrypt` throws
  unfoldable pub encrypted_frame : List ℕ → String → List ℕ → List ℕ → Option Value
  encrypted_frame nonce plain peer secret = elim (rt.box plain nonce peer secret) [
    | none ↦ none
    | some payload ↦ some (
        obj (
          field "type" (str "encrypted") (
            field "nonce" (str (rt.base64 nonce)) (field "payload" (str (rt.base64 payload)) end))))
  ]

  abbrev pub both :
      Option (List ℕ)
      → Option (List ℕ)
      → (List ℕ → List ℕ → Option (Option String))
      → Option (Option String)
  both (some a) (some b) f = f a b
  both _ _ f = none

  -- `none` where it throws, and `some none` where it returns null
  unfoldable pub decrypt : Value → Value → List ℕ → List ℕ → Option (Option String)
  decrypt nonce payload peer secret =
      both (rt.buffer_from nonce) (rt.buffer_from payload) λ n b. rt.box_open b n peer secret
