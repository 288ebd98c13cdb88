-- ===== src/Secrets/Bytes.antt =====
-- `_xor` and `_keystream` of negotium/archive/secret_store.py. Bytes are numbers below 256.
use Prim.Native.Nat.{◌/◌, ◌%◌}
use patch_machine.Prelude.{
  ℕ, zero, suc, ◌+◌, ◌*◌, Option, none, some, List, [], ◌∷◌, ◌++◌, length, take, ltb, if◌then◌else◌,
}
use patch_machine.Python.{Result, ok, raise, value_error, ◌>>=◌}

abbrev pub Bytes : Type 0
Bytes = List ℕ

-- `a ^ b`, of numbers of so many bits
unfoldable pub xor_bits : ℕ → ℕ → ℕ → ℕ
xor_bits zero a b = 0
xor_bits (suc bits) a b = (a % 2 + b % 2) % 2 + 2 * xor_bits bits (a / 2) (b / 2)

-- `_xor`: `zip` is strict.
unfoldable pub xor : Bytes → Bytes → Result Bytes
unfolding xor_bits
xor [] [] = ok []
xor (a ∷ left) [] = raise (value_error "zip() argument 2 is shorter than argument 1")
xor [] (b ∷ right) = raise (value_error "zip() argument 2 is longer than argument 1")
xor (a ∷ left) (b ∷ right) = do rest ← xor left right; ok (xor_bits 8 a b ∷ rest)

-- `n.to_bytes(size, "big")`, for a number that fits
unfoldable pub to_bytes : ℕ → ℕ → Bytes
to_bytes zero n = []
to_bytes (suc size) n = to_bytes size (n / 256) ++ (n % 256) ∷ []

module _ (hmac : Bytes → Bytes → Bytes) (key nonce : Bytes) (size : ℕ) where
  -- The loop on fuel, with the chunks joined.
  unfoldable pub collect_chunks : ℕ → ℕ → Bytes → Option Bytes
  unfolding to_bytes
  collect_chunks zero counter chunks = none
  collect_chunks (suc fuel) counter chunks =
      let rest =
        collect_chunks fuel (suc counter) (chunks ++ hmac key (nonce ++ to_bytes 8 counter)) in
      if ltb (length chunks) size then rest else some (take size chunks)

  -- `_keystream`: a chunk has a byte at least, so there are no more chunks than bytes.
  unfoldable pub keystream : Option Bytes
  unfolding collect_chunks
  keystream = collect_chunks (suc size) 0 []
