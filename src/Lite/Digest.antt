-- ===== src/Lite/Digest.antt =====
-- memory.go of brainlite: the bounds of the hash of a key.
use rmodel.Core.{Any}
use rmodel.Errors.{ok}
use rmodel.Lite.{Encoding}
use rmodel.Lite.Key.{big_endian, hash_key, is_key, to_signed}
use rmodel.Lite.Laws.{IsEncoding}
use rmodel.Shared.{
  All, List, [], ap, arith, is_int64, length, refl, suc, true, zero, ℕ, ℤ, ◌*◌, ◌+◌, ◌<◌, ◌^◌, ◌∙◌,
  ◌∷◌, ◌≡◌, ◌≤◌,
}

big_endian-bound :
    (digest : List ℕ)
    → 8 ≤ length digest
    → All (λ byte. byte < 256) digest
    → big_endian 8 0 digest < 2 ^ 64
unfolding big_endian
big_endian-bound (a ∷ b ∷ c ∷ d ∷ e ∷ f ∷ g ∷ h ∷ rest) long s =
    let s2 = s.1.1 in
    let s4 = s2.1.1 in
    let s6 = s4.1.1 in omega (arith, s.0, s.1.0, s2.0, s2.1.0, s4.0, s4.1.0, s6.0, s6.1.0)
big_endian-bound _ long small = omega (arith, long)

abbrev pub take {ℓ} : {A : Type ℓ} → ℕ → List A → List A
take zero xs = []
take (suc n) [] = []
take (suc n) (x ∷ xs) = x ∷ take n xs

-- Bytes that are read as the same number are the same.
big_endian-injective :
    (n a a' : ℕ) (digest digest' : List ℕ)
    → n ≤ length digest
    → n ≤ length digest'
    → All (λ byte. byte < 256) digest
    → All (λ byte. byte < 256) digest'
    → big_endian n a digest ≡ big_endian n a' digest'
    → (a ≡ a') × (take n digest ≡ take n digest')
unfolding big_endian
big_endian-injective zero a a' ds ds' l l' s s' e = (e, refl)
big_endian-injective (suc n) a a' [] ds' l l' s s' e = elim (too_long l) [ ]
  where
    too_long : suc n ≤ 0 → ⊥
    too_long h = omega (arith, h)
big_endian-injective (suc n) a a' (d ∷ ds) [] l l' s s' e = elim (too_long l') [ ]
  where
    too_long : suc n ≤ 0 → ⊥
    too_long h = omega (arith, h)
big_endian-injective (suc n) a a' (d ∷ ds) (d' ∷ ds') l l' s s' e =
    let (both, rest) =
      big_endian-injective n (a * 256 + d) (a' * 256 + d') ds ds' (omega (arith, l))
        (omega (arith, l')) s.1 s'.1 e in
    let same : d ≡ d' = omega (arith, both, s.0, s'.0) in
    (omega (arith, both, s.0, s'.0), ap (λ x. x ∷ take n ds) same ∙ ap (λ r. d' ∷ r) rest)

to_signed-is_int64 : (n : ℕ) → n < 2 ^ 64 → is_int64 (to_signed n) ≡ true
unfolding to_signed
to_signed-is_int64 n h = ground (arith, h)

to_signed-injective : (a b : ℕ) → a < 2 ^ 64 → b < 2 ^ 64 → to_signed a ≡ to_signed b → a ≡ b
unfolding to_signed
to_signed-injective a b h k e = ground (arith, h, k, e)

module _ ⦃enc : Encoding⦄ where
  -- The hash of a key of a supported type is an int64, and keys with equal hashes have digests with
  -- the same first eight bytes.
  pub hash_key-is_int64 :
      (laws : IsEncoding enc) (k k' : Any)
      → is_key k ≡ true
      → is_key k' ≡ true
      → (h h' : ℤ) × (hash_key k ≡ ok h)
        × (hash_key k' ≡ ok h')
        × (is_int64 h ≡ true)
        × (h ≡ h'
            → take 8 (enc.sum256 (enc.value_text k)) ≡ take 8 (enc.sum256 (enc.value_text k')))
  unfolding hash_key
  hash_key-is_int64 laws k k' a a' =
      let bits : Any → ℕ = λ x. big_endian 8 0 (enc.sum256 (enc.value_text x)) in
      let bound : (x : Any) → bits x < 2 ^ 64 =
        λ x. big_endian-bound _ (laws.digest_long _) (laws.digest_bytes _) in
      (
        to_signed (bits k),
        to_signed (bits k'),
        simp (hash_key, a) refl,
        simp (hash_key, a') refl,
        to_signed-is_int64 (bits k) (bound k),
        λ e.
            (big_endian-injective 8 0 0 _ _ (laws.digest_long _) (laws.digest_long _)
              (laws.digest_bytes _) (laws.digest_bytes _)
              (to_signed-injective (bits k) (bits k') (bound k) (bound k') e)).1,
      )
