-- ===== src/Secrets/Tests.antt =====
-- Tests of negotium/archive/secret_store.py with a small cipher, and the theorems at it.
use Prim.Native.Char.{code}
use patch_machine.Prelude.{
  ℕ, zero, suc, ◌+◌, String, ◌≡◌, refl, ap, none, some, [], ◌∷◌, nat_eq, length, if◌then◌else◌,
  arith,
}
use patch_machine.Prelude.Int.{pos}
use patch_machine.Python.{no_field, Builtins, get, ok, raise, value_error, take_chars, text_ltb}
use patch_machine.Secrets.Bytes.{Bytes, xor_bits, xor, keystream}
use patch_machine.Secrets.Json.{json_value, parse_value, text_to_quote, json_dumps, json_loads}
use patch_machine.Secrets.Sorted.{insert_field, sort_fields}
use patch_machine.Secrets.Store.{
  Cipher, ApiKeyRecord, api_key_to_dict, set_field, File, same_bytes, open_envelope, read_payload,
  upsert, read, envelope_of, parts_of, decoded, item_of, text_bytes,
}
use patch_machine.Secrets.Masked.{mask, stars, last_chars}
use patch_machine.Secrets.Streams.{keystream_total}
use patch_machine.Secrets.Vault.{IsLawful, read-upsert}

abbrev py : Builtins
py = record {
  repr = λ v. "";
  parse_int = λ v. ok (pos 0);
  int_float = λ s. ok (pos 0);
  lower = λ s. s;
}

-- A text that stands for bytes: as many "a" as the byte says, and a "b".
abbrev unary : ℕ → String → String
unary zero rest = String.◌∷◌ "b" rest
unary (suc n) rest = String.◌∷◌ "a" (unary n rest)

abbrev encoded : Bytes → String
encoded [] = ""
encoded (b ∷ bs) = unary b (encoded bs)

abbrev bytes_of : ℕ → String → Bytes
bytes_of n String.[] = []
bytes_of n (String.◌∷◌ c s) =
    let more = bytes_of (suc n) s in
    let next = bytes_of 0 s in if nat_eq (code c) 98 then n ∷ next else more

bytes_of-unary : (n m : ℕ) (rest : String) → bytes_of m (unary n rest) ≡ (m + n) ∷ bytes_of 0 rest
bytes_of-unary zero m rest = ground arith
bytes_of-unary (suc n) m rest = ground (arith, bytes_of-unary n (suc m) rest)

bytes_of-encoded : (bs : Bytes) → bytes_of 0 (encoded bs) ≡ bs
bytes_of-encoded [] = refl
bytes_of-encoded (b ∷ bs) = ground (arith, bytes_of-unary b 0 (encoded bs), bytes_of-encoded bs)

abbrev solar : ApiKeyRecord
solar = record { provider = "solar"; api_key = "sk-1"; model = "solar-pro"; base_url = "" }

-- A digest is one byte, and the payloads are read and written by the small JSON.
abbrev cipher : Cipher
cipher = record {
  pbkdf2_hmac = λ password salt. salt;
  hmac = λ key message. 7 ∷ [];
  b64encode = encoded;
  b64decode = λ s. ok (bytes_of 0 s);
  dumps = json_dumps;
  loads = json_loads;
}

lawful : IsLawful cipher
lawful = record { filled = λ key message. omega arith; decodes = λ bs. ap ok (bytes_of-encoded bs) }

xor_undone :
    (xor (1 ∷ 255 ∷ []) (7 ∷ 7 ∷ []) ≡ ok (6 ∷ 248 ∷ []))
    × (xor (1 ∷ []) [] ≡ raise (value_error "zip() argument 2 is shorter than argument 1"))
unfolding xor xor_bits
xor_undone = (refl, refl)

masks : (mask "" ≡ "") × (mask "12345678" ≡ "********") × (mask "sk-123456789" ≡ "sk-1...6789")
unfolding mask stars last_chars take_chars
masks = (refl, refl, refl)

-- A changed byte of the text is found.
changed_byte :
    read_payload py cipher "k"
      (some (some (envelope_of py cipher "k" (1 ∷ []) (2 ∷ []) (3 ∷ []) (8 ∷ []))))
    ≡ some (raise (value_error "encrypted API key store failed integrity check"))
unfolding read_payload parts_of decoded item_of text_bytes get open_envelope same_bytes sort_fields
    insert_field
changed_byte = refl

keystream_total_example : (ks : Bytes) × (keystream cipher.hmac [] [] 3 ≡ some ks) × (length ks ≡ 3)
keystream_total_example = keystream_total cipher.hmac [] [] 3 (lawful.filled [])

read-upsert_example :
    (file' : File) × (upsert py cipher "k" (1 ∷ []) (2 ∷ []) solar none ≡ some (ok file'))
    × (read py cipher "k" "solar" file' ≡ some (ok (some solar)))
unfolding read_payload sort_fields insert_field text_ltb set_field api_key_to_dict json_value
    parse_value text_to_quote
read-upsert_example =
    read-upsert py cipher lawful "k" (1 ∷ []) (2 ∷ []) solar none no_field refl refl refl refl
