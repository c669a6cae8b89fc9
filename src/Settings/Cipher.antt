-- ===== src/Settings/Cipher.antt =====
-- The encryption of the settings, internal/settings/cipher.go. AES-256-GCM is a parameter.
use shopify_gmc.Base.{
  ℕ, zero, suc, ◌+◌, ◌≡◌, refl, ap, Option, none, some, List, [], ◌∷◌, ◌++◌, if◌then◌else◌, ltb,
  nat_beq, length, take, drop, arith, ◌⊎◌, inl, inr, length-append,
}

-- `cipher.AEAD`, without additional data: `open_with` is none where the tag does not fit.
pub record Aead : Type 0 where
  pub nonce_size : ℕ
  pub overhead : ℕ
  pub seal_with : List ℕ → List ℕ → List ℕ
  pub open_with : List ℕ → List ℕ → Option (List ℕ)

pub data CipherError : Type 0 where
  key_missing key_undecodable key_length : CipherError

-- `NewCipher`, by the decoder of base64 and the constructor for a key of 32 bytes.
pub new_cipher : (List ℕ → Option (List ℕ)) → (List ℕ → Aead) → List ℕ → CipherError ⊎ Aead
new_cipher decode gcm [] = inl key_missing
new_cipher decode gcm (c ∷ text) = elim (decode (c ∷ text)) [
  | none ↦ inl key_undecodable
  | some key ↦ if nat_beq (length key) 32 then inr (gcm key) else inl key_length
]

-- `Encrypt`, with the nonce that is drawn, and `Decrypt`.
unfoldable pub encrypt : Aead → List ℕ → List ℕ → List ℕ
encrypt a nonce plain = nonce ++ a.seal_with nonce plain

unfoldable pub decrypt : Aead → List ℕ → Option (List ℕ)
decrypt a blob =
    if ltb (length blob) (a.nonce_size + a.overhead)
    then none
    else a.open_with (take a.nonce_size blob) (drop a.nonce_size blob)

-- What AES-GCM promises: what is sealed opens under its nonce, and is longer by the overhead.
pub record IsAead (a : Aead) : Type 0 where
  pub opens : (nonce plain : List ℕ) → a.open_with nonce (a.seal_with nonce plain) ≡ some plain
  pub grows : (nonce plain : List ℕ) → length (a.seal_with nonce plain) ≡ length plain + a.overhead

take-append : (xs ys : List ℕ) (n : ℕ) → length xs ≡ n → take n (xs ++ ys) ≡ xs
take-append [] ys zero h = refl
take-append [] ys (suc n) h = absurd (omega (arith, h))
take-append (x ∷ xs) ys zero h = absurd (omega (arith, h))
take-append (x ∷ xs) ys (suc n) h = ap (λ zs. x ∷ zs) (take-append xs ys n (omega (arith, h)))

drop-append : (xs ys : List ℕ) (n : ℕ) → length xs ≡ n → drop n (xs ++ ys) ≡ ys
drop-append [] ys zero h = refl
drop-append [] ys (suc n) h = absurd (omega (arith, h))
drop-append (x ∷ xs) ys zero h = absurd (omega (arith, h))
drop-append (x ∷ xs) ys (suc n) h = drop-append xs ys n (omega (arith, h))

pub decrypt-encrypt :
    (a : Aead) (nonce plain : List ℕ)
    → IsAead a
    → length nonce ≡ a.nonce_size
    → decrypt a (encrypt a nonce plain) ≡ some plain
unfolding decrypt encrypt
decrypt-encrypt a nonce plain is size =
    rw
      (
        take-append nonce (a.seal_with nonce plain) a.nonce_size size,
        drop-append nonce (a.seal_with nonce plain) a.nonce_size size,
      )
      (ground (
        arith,
        length-append nonce (a.seal_with nonce plain),
        is.grows nonce plain,
        is.opens nonce plain,
      ))
