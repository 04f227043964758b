-- ===== src/Js/Runtime.antt =====
-- What the program takes from outside its repository: the number that a text stands for, the
-- packages `tweetnacl`, `crypto` and `buffer`, the JSON parser, and the environment's variables.
use ombot.Prelude.{ℕ, Bool, String, Option, none, some, List, if◌then◌else◌, ◌==◌}
use ombot.Js.Value.{Number, nan, nonneg, Value, undefined, null, bool, num, str, to_text}

pub record Runtime : Type 0 where
  -- StringToNumber of ECMA-262
  pub number_of_text : String → Number
  -- `nacl.sign.detached.verify(message, signature, publicKey)`; `none` where it throws
  pub detached_verify : String → List ℕ → List ℕ → Option Bool
  -- SHA-256 of the UTF-8 of a text, in hexadecimal and base64
  pub sha256_hex : String → String
  pub sha256_base64 : String → String
  -- `nacl.box(message, nonce, theirPublicKey, mySecretKey)`; `none` where it throws
  pub box : String → List ℕ → List ℕ → List ℕ → Option (List ℕ)
  -- `nacl.box.open(box, nonce, theirPublicKey, mySecretKey)` as text; `none` where it throws, and
  -- `some none` where it returns null
  pub box_open : List ℕ → List ℕ → List ℕ → List ℕ → Option (Option String)
  -- `Buffer.from(v, 'base64')`; `none` where it throws
  pub buffer_from : Value → Option (List ℕ)
  -- `Buffer.from(bytes).toString('base64')`
  pub base64 : List ℕ → String
  -- `JSON.parse`; `none` where it throws
  pub parse_json : String → Option Value
  -- `process.env[name]`
  pub env : String → Option String

module _ (rt : Runtime) where
  -- `Number(v)`
  unfoldable pub to_number : Value → Number
  to_number undefined = nan
  to_number null = nonneg 0
  to_number (bool b) = if b then nonneg 1 else nonneg 0
  to_number (num n) = n
  to_number (str s) = rt.number_of_text s
  to_number v = rt.number_of_text (to_text v)

  -- `process.env[name] || fallback`
  unfoldable pub env_or : String → String → String
  env_or name fallback = elim (rt.env name) [
    | none ↦ fallback
    | some v ↦ if v == "" then fallback else v
  ]
