-- ===== src/Gateway/Device/State/Kept.antt =====
-- The identity stays what it is, and the token of the gateway is kept with it.
use ombot.Prelude.{
  String, ◌≡◌, refl, ◌∙◌, false, ◌&&◌, not, Option, none, some, arith, eq_refl, ◌==◌,
}
use ombot.Js.Value.{nonneg, Value, num, str, arr, obj, Fields, get_field, member}
use ombot.Js.Runtime.{Runtime}
use ombot.ConfigMerge.{set_field, strictly_equal}
use ombot.ConfigMerge.Lookup.{get_field-set_field_same, get_field-set_field_other}
use ombot.Gateway.Device.Payload.{DeviceKeys, fingerprint_public_key, Identity}
use ombot.Gateway.Device.State.{
  has_identity, Generated, generated_fields, under_fingerprint, with_token, with_scopes,
  stored_value, load_or_create_device_identity,
}

module _ (keys : DeviceKeys) where
  -- a file with an identity that fits its key
  pub record Holds (id : Identity) (fs : Fields) : Type 0 where
    pub version : get_field "version" fs ≡ num (nonneg 1)
    pub device : get_field "deviceId" fs ≡ str id.device_id
    pub public_pem : get_field "publicKeyPem" fs ≡ str id.public_key_pem
    pub private_pem : get_field "privateKeyPem" fs ≡ str id.private_key_pem
    pub derived : String
    pub fingerprint : fingerprint_public_key keys id.public_key_pem ≡ some derived
    pub fits : (not (derived == "") && not (derived == id.device_id)) ≡ false

  Holds-set_field :
      {id : Identity} {fs : Fields} (k : String) (v : Value)
      → (k == "version") ≡ false
      → (k == "deviceId") ≡ false
      → (k == "publicKeyPem") ≡ false
      → (k == "privateKeyPem") ≡ false
      → Holds id fs
      → Holds id (set_field k v fs)
  Holds-set_field {fs} k v version device public_pem private_pem h = record {
    version = get_field-set_field_other "version" k v fs version ∙ h.version;
    device = get_field-set_field_other "deviceId" k v fs device ∙ h.device;
    public_pem = get_field-set_field_other "publicKeyPem" k v fs public_pem ∙ h.public_pem;
    private_pem = get_field-set_field_other "privateKeyPem" k v fs private_pem ∙ h.private_pem;
    derived = h.derived;
    fingerprint = h.fingerprint;
    fits = h.fits;
  }

  Holds-version :
      {id : Identity} {fs : Fields}
      → Holds id fs
      → Holds id (set_field "version" (num (nonneg 1)) fs)
  Holds-version {fs} h = record {
    version = get_field-set_field_same "version" _ fs;
    device = get_field-set_field_other "deviceId" "version" _ fs refl ∙ h.device;
    public_pem = get_field-set_field_other "publicKeyPem" "version" _ fs refl ∙ h.public_pem;
    private_pem = get_field-set_field_other "privateKeyPem" "version" _ fs refl ∙ h.private_pem;
    derived = h.derived;
    fingerprint = h.fingerprint;
    fits = h.fits;
  }

  pub with_token-Holds :
      {id : Identity} {fs : Fields} (token : String) → Holds id fs → Holds id (with_token token fs)
  with_token-Holds token h =
      Holds-set_field "deviceToken" (str token) refl refl refl refl (Holds-version h)

  pub with_scopes-Holds :
      {id : Identity} {fs : Fields} (scopes : Value)
      → Holds id fs
      → Holds id (with_scopes scopes fs)
  with_scopes-Holds (arr scopes) h = Holds-set_field "storedScopes" _ refl refl refl refl h
  with_scopes-Holds _ h = h

  under_fingerprint-Holds :
      {id : Identity} {fs : Fields} (h : Holds id fs)
      → under_fingerprint (obj fs) h.derived ≡ record { identity = id; written = none }
  unfolding member
  under_fingerprint-Holds h = rw h.device (rw h.fits (rw (h.public_pem, h.private_pem) refl))

  pub generated-Holds :
      (g : Generated)
      → fingerprint_public_key keys g.identity.public_key_pem ≡ some g.identity.device_id
      → Holds g.identity (generated_fields g)
  unfolding get_field
  generated-Holds g e = record {
    version = refl;
    device = refl;
    public_pem = refl;
    private_pem = refl;
    derived = g.identity.device_id;
    fingerprint = e;
    fits = ground (arith, eq_refl g.identity.device_id);
  }

  module _ (rt : Runtime) where
    pub load-Holds :
        {id : Identity} {fs : Fields} (g : Generated) (file : Option String)
        → stored_value rt file ≡ some (obj fs)
        → Holds id fs
        → load_or_create_device_identity rt keys g file ≡ record { identity = id; written = none }
    unfolding load_or_create_device_identity has_identity member strictly_equal
    load-Holds g file e h = rw e (
        rw (h.version, h.device, h.public_pem, h.private_pem)
          (rw h.fingerprint (under_fingerprint-Holds h)))
