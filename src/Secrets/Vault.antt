-- ===== src/Secrets/Vault.antt =====
-- What `read` of negotium/archive/secret_store.py returns after `upsert`.
use patch_machine.Prelude.{
  ◌<◌, String, ◌≡◌, refl, ap, true, false, some, [], ◌∷◌, ◌++◌, ◌==◌, eq_iff, eq_refl, length,
  if◌then◌else◌, arith,
}
use patch_machine.Python.{
  Value, obj, Fields, no_field, field, Builtins, get, str_or-empty, ok, text_ltb, is_blank,
}
use patch_machine.Secrets.Bytes.{Bytes}
use patch_machine.Secrets.Store.{
  Cipher, ApiKeyRecord, api_key_to_dict, api_key_of, set_field, item_of, File, same_bytes,
  text_bytes, decoded, crypt, open_envelope, parts_of, read_payload, envelope_of, write_payload,
  upsert, read,
}
use patch_machine.Secrets.Sorted.{insert_field, sort_fields, get-sort_fields}
use patch_machine.Secrets.Streams.{keystream_total, are_bytes, xor-xor}

same_bytes_refl : (bs : Bytes) → same_bytes bs bs ≡ true
unfolding same_bytes
same_bytes_refl [] = refl
same_bytes_refl (b ∷ bs) = ground (arith, same_bytes_refl bs)

get-set_field :
    (key other : String) (v : Value) (d : Fields)
    → get other (set_field key v d) ≡ (if key == other then some v else get other d)
unfolding get set_field
get-set_field key other v no_field = refl
get-set_field key other v (field k w rest) =
    ground (arith, get-set_field key other v rest, eq_iff k key, eq_iff k other, eq_iff key other)

-- What is relied on: digests have a byte, base64 is decoded to what was encoded.
pub record IsLawful (cipher : Cipher) : Type 0 where
  pub filled : (key message : Bytes) → 0 < length (cipher.hmac key message)
  pub decodes : (bs : Bytes) → cipher.b64decode (cipher.b64encode bs) ≡ ok bs

module _ (py : Builtins) (cipher : Cipher) (lawful : IsLawful cipher) (master_key : String) where
  -- A text is encrypted, and decrypted to itself.
  crypt-crypt :
      (key nonce text : Bytes)
      → are_bytes text ≡ true
      → (ciphertext : Bytes) × (crypt py cipher master_key key nonce text ≡ some (ok ciphertext))
        × (crypt py cipher master_key key nonce ciphertext ≡ some (ok text))
  unfolding crypt
  crypt-crypt key nonce text bytes =
      let (stream, drawn, exact) =
        keystream_total cipher.hmac key nonce (length text) (lawful.filled key) in
      let (ciphertext, there, long, back) = xor-xor text stream bytes exact in
      (ciphertext, rw (drawn, there) refl, rw (long, drawn, back) refl)

  parts_of-envelope_of :
      (salt nonce ciphertext digest : Bytes)
      → is_blank master_key ≡ false
      → parts_of py cipher master_key
          (envelope_of py cipher master_key salt nonce ciphertext digest)
        ≡ ok (cipher.pbkdf2_hmac master_key salt, nonce, ciphertext, digest)
  unfolding parts_of decoded item_of text_bytes get sort_fields insert_field text_ltb
  parts_of-envelope_of salt nonce ciphertext digest given =
      rw
        (
          lawful.decodes salt,
          lawful.decodes nonce,
          lawful.decodes ciphertext,
          lawful.decodes digest,
          given,
        )
        refl

  read_payload-write_payload :
      (salt nonce : Bytes) (payload : Fields)
      → is_blank master_key ≡ false
      → are_bytes (cipher.dumps (sort_fields payload)) ≡ true
      → cipher.loads (cipher.dumps (sort_fields payload)) ≡ ok (obj (sort_fields payload))
      → (file : File) × (write_payload py cipher master_key salt nonce payload ≡ some (ok file))
        × (read_payload py cipher master_key file ≡ some (ok (sort_fields payload)))
  unfolding write_payload read_payload open_envelope
  read_payload-write_payload salt nonce payload given bytes parsed =
      let key = cipher.pbkdf2_hmac master_key salt in
      let (ciphertext, there, back) =
        crypt-crypt key nonce (cipher.dumps (sort_fields payload)) bytes in
      let digest = cipher.hmac key (nonce ++ ciphertext) in
      (
        some (some (envelope_of py cipher master_key salt nonce ciphertext digest)),
        rw (given, there) refl,
        rw
            (
              parts_of-envelope_of salt nonce ciphertext digest given,
              same_bytes_refl digest,
              back,
              parsed,
            )
            refl,
      )

  -- The record is read from its sorted fields.
  api_key_of-to_dict :
      (r : ApiKeyRecord) → api_key_of py r.provider (sort_fields (api_key_to_dict r)) ≡ r
  unfolding api_key_of api_key_to_dict get sort_fields insert_field text_ltb
  api_key_of-to_dict r = simp str_or-empty

  -- Where the file can be read and the master key is not empty, `upsert` returns, and a `read` of its
  -- provider returns the record. What JSON makes of the changed payload, with sorted keys, is bytes,
  -- and it reads the payload with sorted keys back from them.
  pub read-upsert :
      (salt nonce : Bytes) (r : ApiKeyRecord) (file : File) (payload : Fields)
      → read_payload py cipher master_key file ≡ some (ok payload)
      → is_blank master_key ≡ false
      → let changed = sort_fields (set_field r.provider (obj (api_key_to_dict r)) payload) in
        are_bytes (cipher.dumps changed) ≡ true
        → cipher.loads (cipher.dumps changed) ≡ ok (obj changed)
        → (file' : File) × (upsert py cipher master_key salt nonce r file ≡ some (ok file'))
          × (read py cipher master_key r.provider file' ≡ some (ok (some r)))
  unfolding upsert read
  read-upsert salt nonce r file payload before given bytes parsed =
      let changed = set_field r.provider (obj (api_key_to_dict r)) payload in
      let (file', written, again) =
        read_payload-write_payload salt nonce changed given bytes parsed in
      (
        file',
        rw (before, written) refl,
        rw
            (
              again,
              get-sort_fields r.provider changed,
              get-set_field r.provider r.provider (obj (api_key_to_dict r)) payload,
              eq_refl r.provider,
            )
            (unfold sort_fields in ap (λ found. some (ok (some found))) (api_key_of-to_dict r)),
      )
