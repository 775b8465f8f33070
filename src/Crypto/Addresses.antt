-- ===== src/Crypto/Addresses.antt =====
-- Addresses and public keys stand for one another.
use dmail.Prelude.{
  ℕ, zero, suc, ◌≤◌, ◌≡◌, refl, ap, ◌↔◌, inl, inr, true, some, [], ◌∷◌, ◌++◌, arith, Option-cases,
  length, take, drop, length-append, take-append-drop, take-append, drop-append, length-take,
  length-drop, ok,
}
use dmail.Prelude.Bytes.{Bytes, has_prefix, has_prefix-append, has_prefix-length}
use dmail.Crypto.{Primitives}
use dmail.Crypto.Assumptions.{IsEncoding}
use dmail.Crypto.Keys.{
  address_prefix, address, checksum_matches, check_payload, pub_key_from_address,
}

checksum_matches_iff :
    (n : ℕ) (c e : Bytes)
    → length c ≡ n
    → n ≤ length e
    → (checksum_matches n c e ≡ true) ↔ (c ≡ take n e)
unfolding checksum_matches
checksum_matches_iff zero [] e h l = (λ _. refl, λ _. refl)
checksum_matches_iff zero (x ∷ c) e h l = absurd (omega arith)
checksum_matches_iff (suc n) [] e h l = absurd (omega arith)
checksum_matches_iff (suc n) (x ∷ c) [] h l = absurd (omega arith)
checksum_matches_iff (suc n) (x ∷ c) (y ∷ e) h l =
    ground (arith, checksum_matches_iff n c e (omega arith) (omega arith))

module _ (p : Primitives) (a : IsEncoding p) where
  check_payload_sound :
      (decoded pub_key : Bytes)
      → check_payload p decoded ≡ ok pub_key
      → (length pub_key ≡ 32) × (decoded ≡ pub_key ++ take 4 (p.sha256 pub_key))
  unfolding check_payload
  check_payload_sound decoded pub_key h =
      let len : length decoded ≡ 36 = ground arith in
      let e : take 32 decoded ≡ pub_key = ground arith in
      let m : drop 32 decoded ≡ take 4 (p.sha256 (take 32 decoded)) =
        (checksum_matches_iff 4 (drop 32 decoded) (p.sha256 (take 32 decoded))
            (omega (arith, length-drop 32 decoded))
            (omega (arith, a.sha256_length (take 32 decoded)))).0
          (ground arith) in
      (omega (arith, length-take 32 decoded, ap length e), cc (take-append-drop 32 decoded))

  check_payload_complete :
      (pub_key : Bytes)
      → length pub_key ≡ 32
      → check_payload p (pub_key ++ take 4 (p.sha256 pub_key)) ≡ ok pub_key
  unfolding check_payload
  check_payload_complete pub_key len =
      let sum = take 4 (p.sha256 pub_key) in
      let sum_len : length sum ≡ 4 =
        omega (arith, length-take 4 (p.sha256 pub_key), a.sha256_length pub_key) in
      let t : take 32 (pub_key ++ sum) ≡ pub_key = take-append pub_key sum 32 len in
      let d : drop 32 (pub_key ++ sum) ≡ sum = drop-append pub_key sum 32 len in
      let m : checksum_matches 4 sum (p.sha256 pub_key) ≡ true =
        (checksum_matches_iff 4 sum (p.sha256 pub_key) sum_len
            (omega (arith, a.sha256_length pub_key))).1
          refl in
      ground (arith, length-append pub_key sum, ap p.sha256 t)

  -- An address is accepted, as `pub_key`, exactly when it starts with "dmail:" and the rest decodes
  -- to the 32 bytes of `pub_key` followed by the first four bytes of their SHA-256.
  pub pub_key_from_address_iff :
      (addr pub_key : Bytes)
      → (pub_key_from_address p addr ≡ ok pub_key) ↔ (
          (has_prefix addr address_prefix ≡ true)
          × (length pub_key ≡ 32)
          × (p.base58_decode (drop 6 addr) ≡ some (pub_key ++ take 4 (p.sha256 pub_key))))
  unfolding pub_key_from_address
  pub_key_from_address_iff addr pub_key = (
    λ h. elim (Option-cases (p.base58_decode (drop 6 addr))) [
      | inl undecoded ↦ ground arith
      | inr (decoded, e) ↦ ground (arith, e, check_payload_sound decoded pub_key)
    ],
    λ (pre, len, dec).
        ground
          (arith, has_prefix-length addr address_prefix pre, check_payload_complete pub_key len),
  )

  -- The address of a 32-byte public key is read back as that key.
  pub pub_key_from_address-address :
      (pub_key : Bytes)
      → length pub_key ≡ 32
      → pub_key_from_address p (address p pub_key) ≡ ok pub_key
  unfolding address
  pub_key_from_address-address pub_key len =
      (pub_key_from_address_iff (address p pub_key) pub_key).1
        (has_prefix-append address_prefix _, len, a.decode_encode _)
