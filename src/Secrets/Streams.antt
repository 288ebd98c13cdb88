-- ===== src/Secrets/Streams.antt =====
-- The key stream of negotium/archive/secret_store.py has the length that is asked for, and its xor is
-- undone by itself.
use Prim.Native.Nat.{◌/◌, ◌%◌, ◌^◌}
use patch_machine.Prelude.{
  ℕ, zero, suc, ◌+◌, ◌*◌, ◌<◌, ◌≤◌, ◌≡◌, refl, Bool, true, false, ◌&&◌, some, [], ◌∷◌, ◌++◌, length,
  length-append, take, ltb, arith, Bool-cases, inl, inr,
}
use patch_machine.Python.{ok}
use patch_machine.Secrets.Bytes.{Bytes, xor_bits, xor, to_bytes, collect_chunks, keystream}

length-take : (n : ℕ) (xs : Bytes) → n ≤ length xs → length (take n xs) ≡ n
length-take zero xs h = refl
length-take (suc n) [] h = absurd (omega (arith, h))
length-take (suc n) (x ∷ xs) h = omega (arith, length-take n xs (omega (arith, h)))

module _ (hmac : Bytes → Bytes → Bytes) (key nonce : Bytes) (size : ℕ)
    (filled : (m : Bytes) → 0 < length (hmac key m)) where
  collect_chunks_total :
      (fuel counter : ℕ) (chunks : Bytes)
      → size ≤ fuel + length chunks
      → (ks : Bytes) × (collect_chunks hmac key nonce size (suc fuel) counter chunks ≡ some ks)
        × (length ks ≡ size)
  unfolding collect_chunks
  collect_chunks_total zero counter chunks enough =
      let full : ltb (length chunks) size ≡ false = ground (arith, enough) in
      (take size chunks, rw full refl, length-take size chunks (omega (arith, enough)))
  collect_chunks_total (suc fuel) counter chunks enough =
      elim (Bool-cases (ltb (length chunks) size)) [
        | inr full ↦
            (take size chunks, rw full refl, length-take size chunks (ground (arith, full)))
        | inl more ↦
            let message = nonce ++ to_bytes 8 counter in
            let (ks, result, exact) =
              collect_chunks_total fuel (suc counter) (chunks ++ hmac key message)
                (omega (arith, enough, filled message, length-append chunks (hmac key message))) in
            (ks, rw more result, exact)
      ]

  -- Where a digest has a byte at least, the loop of `_keystream` ends, with as many bytes as are asked
  -- for.
  pub keystream_total :
      (ks : Bytes) × (keystream hmac key nonce size ≡ some ks) × (length ks ≡ size)
  unfolding keystream
  keystream_total = collect_chunks_total size 0 [] (omega arith)

halves : (a b r : ℕ) → ((a % 2 + b % 2) % 2 + 2 * r) / 2 ≡ r
halves a b r = omega arith

xor_bits-xor_bits : (bits a b : ℕ) → a < 2 ^ bits → xor_bits bits (xor_bits bits a b) b ≡ a
unfolding xor_bits
xor_bits-xor_bits zero a b h = omega (arith, h)
xor_bits-xor_bits (suc bits) a b h =
    let r = xor_bits bits (a / 2) (b / 2) in
    rw (halves a b r, xor_bits-xor_bits bits (a / 2) (b / 2) (omega (arith, h))) (omega arith)

-- The bytes of a text.
abbrev pub are_bytes : Bytes → Bool
are_bytes [] = true
are_bytes (b ∷ bs) = ltb b 256 && are_bytes bs

-- What is xored with a stream of its length is got back by the same stream.
pub xor-xor :
    (text stream : Bytes)
    → are_bytes text ≡ true
    → length stream ≡ length text
    → (ciphertext : Bytes) × (xor text stream ≡ ok ciphertext)
      × (length ciphertext ≡ length text)
      × (xor ciphertext stream ≡ ok text)
unfolding xor
xor-xor [] [] bytes same = ([], refl, refl, refl)
xor-xor [] (b ∷ stream) bytes same = absurd (omega (arith, same))
xor-xor (a ∷ text) [] bytes same = absurd (omega (arith, same))
xor-xor (a ∷ text) (b ∷ stream) bytes same =
    let (rest, there, long, back) =
      xor-xor text stream (ground (arith, bytes)) (omega (arith, same)) in
    let first : xor_bits 8 (xor_bits 8 a b) b ≡ a =
      xor_bits-xor_bits 8 a b (ground (arith, bytes)) in
    (xor_bits 8 a b ∷ rest, rw there refl, omega (arith, long), rw (back, first) refl)
