-- ===== src/Auth/Passwords.antt =====
-- The comparison of hashes in constant time, and keys sealed under a password.
use dmail.Prelude.{
  ℕ, ◌<◌, bit_or, bit_xor, ◌≡◌, refl, sym, ap, ◌∙◌, ◌↔◌, inl, inr, true, ◌&&◌, some, [], ◌∷◌, arith,
  ◌==◌, ==_iff, Bool-cases, length, All, ok,
}
use dmail.Prelude.Bytes.{Bytes, eqb, eqb_iff}
use dmail.Prelude.Bits.{bit_or-eq-zero, bit_xor-eq-zero, bit_ops-lt}
use dmail.Pow.Zeros.{IsByte}
use dmail.Auth.{
  Ciphers, fold_diff, equal_hashes, hash_password, verify_password, encrypt_private_key,
  decrypt_private_key,
}

-- The accumulator is zero at the end exactly when it was so and the slices agree.
fold_diff-eqb :
    (diff : ℕ) (a b : Bytes)
    → diff < 256
    → All IsByte a
    → All IsByte b
    → length a ≡ length b
    → (fold_diff diff a b == 0) ≡ (diff == 0 && eqb a b)
unfolding fold_diff eqb
fold_diff-eqb diff [] [] d ha hb l = ground arith
fold_diff-eqb diff [] (y ∷ b) d ha hb l = absurd (omega arith)
fold_diff-eqb diff (x ∷ a) [] d ha hb l = absurd (omega arith)
fold_diff-eqb diff (x ∷ a) (y ∷ b) d ha hb l =
    let (_, xor_lt) = bit_ops-lt x y ha.0 hb.0 in
    let (or_lt, _) = bit_ops-lt diff (bit_xor x y) d xor_lt in
    fold_diff-eqb (bit_or diff (bit_xor x y)) a b or_lt ha.1 hb.1 (omega arith)
    ∙ ground (arith, bit_or-eq-zero diff (bit_xor x y) d xor_lt, bit_xor-eq-zero x y ha.0 hb.0)

-- On slices of bytes, the comparison in constant time is equality.
pub equal_hashes-eqb :
    (computed hash : Bytes)
    → All IsByte computed
    → All IsByte hash
    → equal_hashes computed hash ≡ eqb computed hash
unfolding equal_hashes
equal_hashes-eqb computed hash hc hh = elim (Bool-cases (length computed == length hash)) [
  | inl same ↦
      ground (arith, fold_diff-eqb 0 computed hash (omega arith) hc hh ((==_iff _ _).0 same))
  | inr differ ↦ elim (Bool-cases (eqb computed hash)) [
    | inl equal ↦
        let e : length computed ≡ length hash = ap length ((eqb_iff computed hash).0 equal) in
        ground arith
    | inr unequal ↦ ground arith
  ]
]

module _ (k : Ciphers) (bytes : (password salt : Bytes) → All IsByte (k.id_key password salt)) where
  -- A password that was hashed is accepted with its hash and salt; any password is accepted exactly
  -- when it derives the stored hash.
  pub verify_password-hash_password :
      (password other salt hash : Bytes)
      → hash_password k password (some salt) ≡ ok (hash, salt)
      → (verify_password k password hash salt ≡ true)
        × ((verify_password k other hash salt ≡ true)
            ↔ (k.id_key other salt ≡ k.id_key password salt))
  unfolding hash_password verify_password
  verify_password-hash_password password other salt hash e =
      let derived : k.id_key password salt ≡ hash = ground arith in
      let at = λ (x : Bytes).
        equal_hashes-eqb (k.id_key x salt) (k.id_key password salt) (bytes x salt)
          (bytes password salt) in
      rw (← derived) (
        at password ∙ (eqb_iff (k.id_key password salt) (k.id_key password salt)).1 refl,
        (
          λ h. (eqb_iff (k.id_key other salt) (k.id_key password salt)).0 (sym (at other) ∙ h),
          λ h. at other ∙ (eqb_iff (k.id_key other salt) (k.id_key password salt)).1 h,
        ),
      )

-- What is sealed under a key and a nonce is opened under them.
pub record IsSealed (k : Ciphers) : Type 0 where
  pub open_seal : (key nonce m : Bytes) → k.open_sealed key nonce (k.seal key nonce m) ≡ some m
  pub accepts : (password salt : Bytes) → k.accepts_key (k.id_key password salt) ≡ true

-- A private key that was encrypted under a password is decrypted with the salt and the nonce that
-- encryption returned and the same password.
pub decrypt-encrypt_private_key :
    (k : Ciphers) (priv_key password salt nonce : Bytes)
    → IsSealed k
    → (c : Bytes) × (encrypt_private_key k priv_key password (some salt) (some nonce)
        ≡ ok (c, salt, nonce))
      × (decrypt_private_key k c salt nonce password ≡ ok priv_key)
unfolding encrypt_private_key decrypt_private_key
decrypt-encrypt_private_key k priv_key password salt nonce laws =
    let key = k.id_key password salt in
    (
      k.seal key nonce priv_key,
      ground (arith, laws.accepts password salt),
      ground (arith, laws.accepts password salt, laws.open_seal key nonce priv_key),
    )
