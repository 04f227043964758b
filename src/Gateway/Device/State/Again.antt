-- ===== src/Gateway/Device/State/Again.antt =====
-- Loading the identity again: it is the same, nothing more is written, and what was persisted in
-- between is there.
use ombot.Prelude.{
  String, ◌≡◌, refl, ◌∙◌, ◌⊎◌, inl, inr, true, false, ◌&&◌, not, Option, none, some, arith, eq_refl,
  Bool-cases, Option-cases, ◌==◌,
}
use ombot.Js.Value.{
  nan, infinity, neg_infinity, nonneg, neg, Value, undefined, null, bool, num, str, arr, obj,
  Fields, get_field, member,
}
use ombot.Js.Runtime.{Runtime}
use ombot.ConfigMerge.{set_field, strictly_equal}
use ombot.ConfigMerge.Lookup.{get_field-set_field_same, get_field-set_field_other}
use ombot.Gateway.Device.Payload.{DeviceKeys, fingerprint_public_key, Identity}
use ombot.Gateway.Device.State.{
  has_identity, is_text_value, text_of, Loaded, after_write, Generated, generated_fields,
  regenerated, fixed_or_regenerated, loaded_or_created, under_fingerprint, identity_in,
  stored_value, load_or_create_device_identity, file_text,
}
use ombot.Gateway.Device.State.Kept.{Holds, load-Holds, generated-Holds}

is_one : (v : Value) → strictly_equal v (num (nonneg 1)) ≡ true → v ≡ num (nonneg 1)
unfolding strictly_equal
is_one (num (nonneg n)) h = ground arith
is_one (num nan) h = cc
is_one (num infinity) h = cc
is_one (num neg_infinity) h = cc
is_one (num (neg n)) h = cc
is_one undefined h = cc
is_one null h = cc
is_one (bool true) h = cc
is_one (bool false) h = cc
is_one (str s) h = cc
is_one (arr xs) h = cc
is_one (obj fs) h = cc

text_value : (v : Value) → is_text_value v ≡ true → v ≡ str (text_of v)
text_value (str s) h = refl
text_value undefined h = cc
text_value null h = cc
text_value (bool b) h = cc
text_value (num n) h = cc
text_value (arr xs) h = cc
text_value (obj fs) h = cc

-- A value that passes the checks is an object.
identity-obj : (v : Value) → has_identity v ≡ true → (fs : Fields) × (v ≡ obj fs)
unfolding has_identity member strictly_equal
identity-obj (obj fs) h = (fs, refl)
identity-obj undefined h = cc
identity-obj null h = cc
identity-obj (bool b) h = cc
identity-obj (num n) h = cc
identity-obj (str s) h = cc
identity-obj (arr xs) h = cc

-- what the checks of an object say
record Passes (fs : Fields) : Type 0 where
  version : get_field "version" fs ≡ num (nonneg 1)
  device : get_field "deviceId" fs ≡ str (text_of (get_field "deviceId" fs))
  public_pem : get_field "publicKeyPem" fs ≡ str (text_of (get_field "publicKeyPem" fs))
  private_pem : get_field "privateKeyPem" fs ≡ str (text_of (get_field "privateKeyPem" fs))

identity-Passes : (fs : Fields) → has_identity (obj fs) ≡ true → Passes fs
unfolding has_identity member
identity-Passes fs h = record {
  version = is_one (get_field "version" fs) (ground arith);
  device = text_value (get_field "deviceId" fs) (ground arith);
  public_pem = text_value (get_field "publicKeyPem" fs) (ground arith);
  private_pem = text_value (get_field "privateKeyPem" fs) (ground arith);
}

module _ (keys : DeviceKeys) where
  -- the identity of a result is in the file, old or new
  Kept : Option Value → Loaded → Type 0
  Kept stored loaded =
      (fs : Fields) × Holds keys loaded.identity fs
      × ((loaded.written ≡ some (obj fs)) ⊎ ((loaded.written ≡ none) × (stored ≡ some (obj fs))))

  fixed-Holds :
      (fs : Fields) (derived : String)
      → Passes fs
      → fingerprint_public_key keys (text_of (get_field "publicKeyPem" fs)) ≡ some derived
      → Holds keys (identity_in (obj fs) derived) (set_field "deviceId" (str derived) fs)
  unfolding member
  fixed-Holds fs derived p e = record {
    version = get_field-set_field_other "version" "deviceId" _ fs refl ∙ p.version;
    device = get_field-set_field_same "deviceId" _ fs;
    public_pem = get_field-set_field_other "publicKeyPem" "deviceId" _ fs refl ∙ p.public_pem;
    private_pem = get_field-set_field_other "privateKeyPem" "deviceId" _ fs refl ∙ p.private_pem;
    derived = derived;
    fingerprint = e;
    fits = ground (arith, eq_refl derived);
  }

  kept-Holds :
      (fs : Fields) (derived : String)
      → Passes fs
      → fingerprint_public_key keys (text_of (get_field "publicKeyPem" fs)) ≡ some derived
      → (not (derived == "") && not (derived == text_of (get_field "deviceId" fs))) ≡ false
      → Holds keys (identity_in (obj fs) (text_of (get_field "deviceId" fs))) fs
  unfolding member
  kept-Holds fs derived p e fits = record {
    version = p.version;
    device = p.device;
    public_pem = p.public_pem;
    private_pem = p.private_pem;
    derived = derived;
    fingerprint = e;
    fits = fits;
  }

  under_fingerprint-Kept :
      (fs : Fields) (derived : String)
      → Passes fs
      → fingerprint_public_key keys (text_of (get_field "publicKeyPem" fs)) ≡ some derived
      → Kept (some (obj fs)) (under_fingerprint (obj fs) derived)
  unfolding Kept member
  under_fingerprint-Kept fs derived p e =
      elim (Bool-cases
        (not (derived == "") && not (derived == text_of (get_field "deviceId" fs)))) [
          | inl other ↦
              rw other (set_field "deviceId" (str derived) fs, fixed-Holds fs derived p e, inl refl)
          | inr same ↦ rw same (fs, kept-Holds fs derived p e same, inr (refl, refl))
        ]

  module _ (rt : Runtime) (g : Generated)
      (fingerprinted : fingerprint_public_key keys g.identity.public_key_pem
        ≡ some g.identity.device_id) where
    regenerated-Kept : (stored : Option Value) → Kept stored (regenerated g)
    unfolding Kept
    regenerated-Kept stored = (generated_fields g, generated-Holds keys g fingerprinted, inl refl)

    passed-Kept :
        (fs : Fields)
        → Passes fs
        → Kept (some (obj fs)) (
            fixed_or_regenerated
              (obj fs)
              (fingerprint_public_key keys (text_of (get_field "publicKeyPem" fs)))
              g)
    passed-Kept fs p =
        elim (Option-cases (fingerprint_public_key keys (text_of (get_field "publicKeyPem" fs)))) [
          | inl unreadable ↦ rw unreadable (regenerated-Kept (some (obj fs)))
          | inr (derived, e) ↦ rw e (under_fingerprint-Kept fs derived p e)
        ]

    object-Kept :
        (fs : Fields)
        → has_identity (obj fs) ≡ true
        → Kept (some (obj fs)) (loaded_or_created rt keys g (some (obj fs)))
    unfolding member
    object-Kept fs good = rw good (passed-Kept fs (identity-Passes fs good))

    loaded-Kept : (stored : Option Value) → Kept stored (loaded_or_created rt keys g stored)
    loaded-Kept none = regenerated-Kept none
    loaded-Kept (some v) = elim (Bool-cases (has_identity v)) [
      | inl good ↦ let (fs, e) = identity-obj v good in rw e (object-Kept fs (rw e at good))
      | inr bad ↦ rw bad (regenerated-Kept (some v))
    ]

    -- the file after loading
    abbrev pub file_after : Option String → Option String
    file_after file = after_write (load_or_create_device_identity rt keys g file).written file

    module _ (file : Option String)
        (parses : (v : Value)
          → (load_or_create_device_identity rt keys g file).written ≡ some v
          → rt.parse_json (file_text v) ≡ some v) where
      abbrev pub loaded_identity : Identity
      loaded_identity = (load_or_create_device_identity rt keys g file).identity

      pub stored_after :
          (fs : Fields) × Holds keys loaded_identity fs
          × (stored_value rt (file_after file) ≡ some (obj fs))
      unfolding load_or_create_device_identity Kept stored_value
      stored_after = after (loaded-Kept (stored_value rt file))
        where
          after :
              Kept (stored_value rt file) (load_or_create_device_identity rt keys g file)
              → (fs : Fields) × Holds keys loaded_identity fs
                × (stored_value rt (file_after file) ≡ some (obj fs))
          after (fs, h, inl e) = (fs, h, rw e (parses (obj fs) e))
          after (fs, h, inr (e, s)) = (fs, h, rw e s)

      -- Whatever the file was, loading a second time gives the same identity and writes nothing.
      pub loaded_again :
          (g' : Generated)
          → load_or_create_device_identity rt keys g' (file_after file)
            ≡ record { identity = loaded_identity; written = none }
      loaded_again g' = let (fs, h, e) = stored_after in load-Holds keys rt g' (file_after file) e h
