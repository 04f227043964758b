-- ===== src/Gateway/Device/Payload/Distinct.antt =====
-- The signed text determines what was signed.
use Prim.Native.String.{char_at}
use mathlib.Core.List.{[], ◌∷◌}
use ombot.Prelude.{ℕ, zero, suc, String, ◌≡◌, ap, List, All, arith}
use ombot.Js.Text.{join, decimal}
use ombot.Js.Text.Join.{Without, join-injective}
use ombot.Gateway.Device.Payload.{
  AuthParams, token_text, signed_texts, normalize_device_metadata_for_auth,
  build_device_auth_payload_v3,
}

abbrev pub WithoutBar : String → Type 0
WithoutBar = Without (char_at "|" 0)

version-WithoutBar : WithoutBar "v3"
version-WithoutBar = omega arith

-- No part of what is signed has a bar in it.
pub record IsPlain (p : AuthParams) : Type 0 where
  pub device_id : WithoutBar p.device_id
  pub client_id : WithoutBar p.client_id
  pub client_mode : WithoutBar p.client_mode
  pub role : WithoutBar p.role
  pub scopes : WithoutBar (join "," p.scopes)
  pub time : WithoutBar (decimal p.signed_at_ms)
  pub token : WithoutBar (token_text p.token)
  pub nonce : WithoutBar p.nonce
  pub platform : WithoutBar (normalize_device_metadata_for_auth p.platform)
  pub device_family : WithoutBar (normalize_device_metadata_for_auth p.device_family)

-- Both say the same, up to what the text cannot tell: no token from an empty one, and the spelling
-- of platform and family.
pub record SaysSame (p q : AuthParams) : Type 0 where
  pub device_id : p.device_id ≡ q.device_id
  pub client_id : p.client_id ≡ q.client_id
  pub client_mode : p.client_mode ≡ q.client_mode
  pub role : p.role ≡ q.role
  pub scopes : join "," p.scopes ≡ join "," q.scopes
  pub time : decimal p.signed_at_ms ≡ decimal q.signed_at_ms
  pub token : token_text p.token ≡ token_text q.token
  pub nonce : p.nonce ≡ q.nonce
  pub platform :
      normalize_device_metadata_for_auth p.platform ≡ normalize_device_metadata_for_auth q.platform
  pub device_family :
      normalize_device_metadata_for_auth p.device_family
      ≡ normalize_device_metadata_for_auth q.device_family

plain_texts : (p : AuthParams) → IsPlain p → All WithoutBar (signed_texts p)
plain_texts p h = (
  h.device_id,
  (
    h.client_id,
    (
      h.client_mode,
      (h.role, (h.scopes, (h.time, (h.token, (h.nonce, (h.platform, (h.device_family, tt))))))),
    ),
  ),
)

abbrev nth : ℕ → List String → String
nth n [] = ""
nth zero (x ∷ xs) = x
nth (suc n) (x ∷ xs) = nth n xs

-- Two texts to sign are the same only if device, client, mode, role, scopes, time, token, nonce,
-- platform and family are, each as it is written, where none of these has a bar in it.
pub build_device_auth_payload_v3-injective :
    (p q : AuthParams)
    → IsPlain p
    → IsPlain q
    → build_device_auth_payload_v3 p ≡ build_device_auth_payload_v3 q
    → SaysSame p q
unfolding build_device_auth_payload_v3
build_device_auth_payload_v3-injective p q h k e =
    let same =
      join-injective (char_at "|" 0) "v3" "v3" (signed_texts p) (signed_texts q)
        (version-WithoutBar, plain_texts p h) (version-WithoutBar, plain_texts q k) e in
    record {
      device_id = ap (nth 1) same;
      client_id = ap (nth 2) same;
      client_mode = ap (nth 3) same;
      role = ap (nth 4) same;
      scopes = ap (nth 5) same;
      time = ap (nth 6) same;
      token = ap (nth 7) same;
      nonce = ap (nth 8) same;
      platform = ap (nth 9) same;
      device_family = ap (nth 10) same;
    }
