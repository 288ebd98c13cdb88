-- ===== src/Secrets/Masked.antt =====
-- What `SecretStore` of negotium/archive/secret_store.py shows of its keys, and the file of the local
-- master key.
use Prim.Native.String.{count, ◌++◌ as append}
use patch_machine.Prelude.{
  ℕ, String, Bool, false, not, leb, Option, none, some, List, [], ◌∷◌, if◌then◌else◌,
}
use patch_machine.Python.{
  bool, str, Fields, no_field, field, Builtins, get, str_or, Result, ok, raise, ◌>>=◌, is_blank,
  strip, take_chars, truthy, as_dict, bool_or_false, traverse,
}
use patch_machine.Secrets.Store.{Cipher, ApiKeyRecord, File, read_payload, read}

-- `value[-n:]`
unfoldable pub last_chars : ℕ → String → String
last_chars n String.[] = String.[]
last_chars n (String.◌∷◌ c s) =
    let rest = last_chars n s in if leb (count (String.◌∷◌ c s)) n then String.◌∷◌ c s else rest

-- `"*" * len(value)`
unfoldable pub stars : String → String
stars String.[] = String.[]
stars (String.◌∷◌ c s) = String.◌∷◌ "*" (stars s)

-- `_mask`
unfoldable pub mask : String → String
unfolding stars last_chars take_chars
mask value =
    if is_blank value
    then ""
    else if leb (count value) 8
    then stars value
    else append (take_chars 4 value) (append "..." (last_chars 4 value))

abbrev providers : List String
providers = "solar" ∷ "openai" ∷ "anthropic" ∷ "gemini" ∷ "together" ∷ "vllm" ∷ []

-- `local_master_key`, with the key that `secrets.token_urlsafe` draws, on the text of its file
unfoldable pub local_master_key : String → Option String → String × Option String
unfolding strip
local_master_key drawn none = (drawn, some (append drawn "\n"))
local_master_key drawn (some text) = (strip text, some text)

module _ (py : Builtins) (cipher : Cipher) (master_key : String) where
  abbrev has_key : Option (Result (Option ApiKeyRecord)) → Option (Result Bool)
  has_key none = none
  has_key (some (raise e)) = some (raise e)
  has_key (some (ok none)) = some (ok false)
  has_key (some (ok (some r))) = some (ok (not (is_blank r.api_key)))

  unfoldable pub has_secret : String → File → Option (Result Bool)
  unfolding read
  has_secret provider file = has_key (read py cipher master_key provider file)

  -- `(payload.get(provider) or {})`, on which `.get` is called
  abbrev entry_of : String → Fields → Result Fields
  entry_of provider payload = elim (get provider payload) [
    | none ↦ ok no_field
    | some v ↦ if truthy v then as_dict v else ok no_field
  ]

  unfoldable pub masked_entry : String → Fields → Result Fields
  unfolding truthy as_dict get bool_or_false mask
  masked_entry provider payload = do
    d ← entry_of provider payload
    ok (
        field "provider" (str provider) (
          field "configured" (bool (bool_or_false (get "api_key" d))) (
            field "masked_value" (str (mask (str_or py (get "api_key" d) ""))) (
              field "model" (str (str_or py (get "model" d) ""))
                (field "base_url" (str (str_or py (get "base_url" d) "")) no_field)))))

  abbrev masked : Option (Result Fields) → Option (Result (List Fields))
  masked none = none
  masked (some (raise e)) = some (raise e)
  masked (some (ok payload)) = some (traverse (λ provider. masked_entry provider payload) providers)

  unfoldable pub list_masked : File → Option (Result (List Fields))
  unfolding read_payload masked_entry
  list_masked file = masked (read_payload py cipher master_key file)
