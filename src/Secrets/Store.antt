-- ===== src/Secrets/Store.antt =====
-- `ApiKeyRecord` and `SecretStore` of negotium/archive/secret_store.py, over the value of the envelope
-- file. Cryptography, base64 and the text of JSON are parameters.
use patch_machine.Prelude.{
  String, Bool, true, false, ◌&&◌, nat_eq, Option, none, some, [], ◌∷◌, ◌++◌, ◌==◌, length,
  if◌then◌else◌,
}
use patch_machine.Python.{
  Value, null, bool, int, float, str, arr, obj, Fields, no_field, field, Builtins, get, str_or,
  Result, ok, raise, value_error, type_error, key_error, ◌>>=◌, is_blank,
}
use patch_machine.Secrets.Bytes.{Bytes, xor, keystream}
use patch_machine.Secrets.Sorted.{sort_fields}

-- `hashlib.pbkdf2_hmac("sha256", password, salt, 200_000)`, `hmac.new(key, message, sha256).digest()`,
-- `base64`, `json.dumps(d).encode()` with the keys in the order of `d`, and
-- `json.loads(plaintext.decode())`.
pub record Cipher : Type 0 where
  pub pbkdf2_hmac : String → Bytes → Bytes
  pub hmac : Bytes → Bytes → Bytes
  pub b64encode : Bytes → String
  pub b64decode : String → Result Bytes
  pub dumps : Fields → Bytes
  pub loads : Bytes → Result Value

pub record ApiKeyRecord : Type 0 where
  pub provider : String
  pub api_key : String
  pub model : String
  pub base_url : String

-- `to_dict`
unfoldable pub api_key_to_dict : ApiKeyRecord → Fields
api_key_to_dict r =
    field "api_key" (str r.api_key)
      (field "model" (str r.model) (field "base_url" (str r.base_url) no_field))

-- `from_mapping`
unfoldable pub api_key_of : Builtins → String → Fields → ApiKeyRecord
unfolding str_or get
api_key_of py provider d = record {
  provider = provider;
  api_key = str_or py (get "api_key" d) "";
  model = str_or py (get "model" d) "";
  base_url = str_or py (get "base_url" d) "";
}

-- `d[key] = v`
unfoldable pub set_field : String → Value → Fields → Fields
set_field key v no_field = field key v no_field
set_field key v (field k w rest) =
    let others = set_field key v rest in if k == key then field k v rest else field k w others

-- `d.pop(key, None)`
unfoldable pub pop_field : String → Fields → Fields
pop_field key no_field = no_field
pop_field key (field k w rest) =
    let others = pop_field key rest in if k == key then others else field k w others

-- `envelope[key]`
unfoldable pub item_of : String → Value → Result Value
unfolding get
item_of key (obj d) = elim (get key d) [ none ↦ raise key_error | some v ↦ ok v ]
item_of key null = raise type_error
item_of key (bool b) = raise type_error
item_of key (int i) = raise type_error
item_of key (float s) = raise type_error
item_of key (str s) = raise type_error
item_of key (arr vs) = raise type_error

-- The envelope file: none for no file, a text that is no JSON, or its value.
abbrev pub File : Type 0
File = Option (Option Value)

-- `loaded if isinstance(loaded, dict) else {}`
abbrev pub dict_or_none : Value → Fields
dict_or_none (obj d) = d
dict_or_none _ = no_field

-- `hmac.compare_digest`
unfoldable pub same_bytes : Bytes → Bytes → Bool
same_bytes [] [] = true
same_bytes (a ∷ left) [] = false
same_bytes [] (b ∷ right) = false
same_bytes (a ∷ left) (b ∷ right) = nat_eq a b && same_bytes left right

module _ (py : Builtins) (cipher : Cipher) (master_key : String) where
  -- `base64.b64decode(v)`
  unfoldable pub text_bytes : Value → Result Bytes
  text_bytes (str s) = cipher.b64decode s
  text_bytes null = raise type_error
  text_bytes (bool b) = raise type_error
  text_bytes (int i) = raise type_error
  text_bytes (float s) = raise type_error
  text_bytes (arr vs) = raise type_error
  text_bytes (obj fs) = raise type_error

  unfoldable pub decoded : String → Value → Result Bytes
  unfolding item_of text_bytes
  decoded key envelope = do v ← item_of key envelope; text_bytes v

  -- `_derive_key`
  abbrev pub derive_key : Bytes → Result Bytes
  derive_key salt =
      if is_blank master_key
      then raise (value_error "NG_SECRET_KEY is required to read API keys")
      else ok (cipher.pbkdf2_hmac master_key salt)

  -- The bytes of a text, xored with their key stream; `none` would be a loop that does not end.
  abbrev pub xored : Bytes → Option Bytes → Option (Result Bytes)
  xored text none = none
  xored text (some stream) = some (xor text stream)

  unfoldable pub crypt : Bytes → Bytes → Bytes → Option (Result Bytes)
  crypt key nonce text = xored text (keystream cipher.hmac key nonce (length text))

  abbrev pub loaded : Option (Result Bytes) → Option (Result Fields)
  loaded none = none
  loaded (some plaintext) = some (do text ← plaintext; v ← cipher.loads text; ok (dict_or_none v))

  -- From the parts of the envelope and the key on.
  unfoldable pub open_envelope : Bytes → Bytes → Bytes → Bytes → Option (Result Fields)
  unfolding crypt same_bytes
  open_envelope key nonce ciphertext digest =
      if same_bytes (cipher.hmac key (nonce ++ ciphertext)) digest
      then loaded (crypt key nonce ciphertext)
      else some (raise (value_error "encrypted API key store failed integrity check"))

  -- The parts of an envelope, and the key.
  unfoldable pub parts_of : Value → Result (Bytes × Bytes × Bytes × Bytes)
  unfolding decoded
  parts_of envelope = do
    salt ← decoded "salt" envelope
    nonce ← decoded "nonce" envelope
    ciphertext ← decoded "ciphertext" envelope
    digest ← decoded "hmac" envelope
    key ← derive_key salt
    ok (key, nonce, ciphertext, digest)

  abbrev pub opened : Result (Bytes × Bytes × Bytes × Bytes) → Option (Result Fields)
  opened (raise e) = some (raise e)
  opened (ok (key, nonce, ciphertext, digest)) = open_envelope key nonce ciphertext digest

  -- `_read_payload`
  unfoldable pub read_payload : File → Option (Result Fields)
  unfolding parts_of open_envelope
  read_payload none = some (ok no_field)
  read_payload (some none) = some (raise (value_error "invalid json"))
  read_payload (some (some envelope)) = opened (parts_of envelope)

  -- The envelope as `json.dump` with `sort_keys=True` writes it.
  abbrev pub envelope_of : Bytes → Bytes → Bytes → Bytes → Value
  envelope_of salt nonce ciphertext digest = obj (
      sort_fields (
        field "salt" (str (cipher.b64encode salt)) (
          field "nonce" (str (cipher.b64encode nonce)) (
            field "ciphertext" (str (cipher.b64encode ciphertext))
              (field "hmac" (str (cipher.b64encode digest)) no_field)))))

  abbrev pub sealed : Bytes → Bytes → Bytes → Option (Result Bytes) → Option (Result File)
  sealed salt nonce key none = none
  sealed salt nonce key (some (raise e)) = some (raise e)
  sealed salt nonce key (some (ok ciphertext)) =
      some (
        ok
          (some (some (envelope_of salt nonce ciphertext (cipher.hmac key (nonce ++ ciphertext))))))

  -- `_write_payload`, with the salt and the nonce that `secrets.token_bytes` draws
  unfoldable pub write_payload : Bytes → Bytes → Fields → Option (Result File)
  unfolding crypt sort_fields
  write_payload salt nonce payload =
      let key = cipher.pbkdf2_hmac master_key salt in
      if is_blank master_key
      then some (raise (value_error "NG_SECRET_KEY is required to store API keys"))
      else sealed salt nonce key (crypt key nonce (cipher.dumps (sort_fields payload)))

  -- A change of the payload that is read, written again.
  abbrev pub rewritten :
      Bytes → Bytes → (Fields → Fields) → Option (Result Fields) → Option (Result File)
  rewritten salt nonce change none = none
  rewritten salt nonce change (some (raise e)) = some (raise e)
  rewritten salt nonce change (some (ok payload)) = write_payload salt nonce (change payload)

  unfoldable pub upsert : Bytes → Bytes → ApiKeyRecord → File → Option (Result File)
  unfolding read_payload write_payload set_field api_key_to_dict
  upsert salt nonce r file =
      rewritten salt nonce (set_field r.provider (obj (api_key_to_dict r))) (read_payload file)

  unfoldable pub delete : Bytes → Bytes → String → File → Option (Result File)
  unfolding read_payload write_payload pop_field
  delete salt nonce provider file = rewritten salt nonce (pop_field provider) (read_payload file)

  abbrev pub record_in : String → Option Value → Option ApiKeyRecord
  record_in provider (some (obj d)) = some (api_key_of py provider d)
  record_in provider _ = none

  abbrev pub found_in : String → Option (Result Fields) → Option (Result (Option ApiKeyRecord))
  found_in provider none = none
  found_in provider (some (raise e)) = some (raise e)
  found_in provider (some (ok payload)) = some (ok (record_in provider (get provider payload)))

  -- `read`
  unfoldable pub read : String → File → Option (Result (Option ApiKeyRecord))
  unfolding read_payload api_key_of get
  read provider file = found_in provider (read_payload file)
