-- ===== src/Client/Decode.antt =====
-- crates/nakama-client/src/accounts.rs: the strict decoding of an account that the RPC returned.
-- Borsh is the parameter `try_from_slice`.
use nakama_sol_x.Prelude.{
  ℕ, suc, zero, ◌+◌, ◌≡◌, ◌↔◌, refl, Bool, true, false, ◌&&◌, ◌==◌, ltb, if◌then◌else◌, Option,
  some, Result, ok, err, ok_or, ◌>>=◌, ◌>>◌, require, not, List, [], ◌∷◌, ◌++◌, ap, arith,
}
use nakama_sol_x.Program.State.{Pubkey}

pub data AccountDecodeError : Type 0 where
  too_short borsh : AccountDecodeError
  wrong_owner : (expected actual : Pubkey) → AccountDecodeError
  wrong_discriminator : (expected actual : List ℕ) → AccountDecodeError

-- The part of `solana_account::Account` that is read; `bytes` is its `data`.
pub record RawAccount : Type 0 where
  pub owner : Pubkey
  pub bytes : List ℕ

abbrev pub length : {A : Type 0} → List A → ℕ
length [] = 0
length (x ∷ xs) = suc (length xs)

abbrev pub take : {A : Type 0} → ℕ → List A → List A
take zero xs = []
take (suc n) [] = []
take (suc n) (x ∷ xs) = x ∷ take n xs

abbrev pub drop : {A : Type 0} → ℕ → List A → List A
drop zero xs = xs
drop (suc n) [] = []
drop (suc n) (x ∷ xs) = drop n xs

-- `==` on byte arrays.
abbrev pub same_bytes : List ℕ → List ℕ → Bool
same_bytes [] [] = true
same_bytes (x ∷ xs) (y ∷ ys) = x == y && same_bytes xs ys
same_bytes _ _ = false

abbrev pub account_discriminator_len : ℕ
account_discriminator_len = 8

unfoldable pub strip_discriminator : List ℕ → Result AccountDecodeError (List ℕ)
strip_discriminator bytes =
    if ltb (length bytes) account_discriminator_len
    then err too_short
    else ok (drop account_discriminator_len bytes)

unfoldable pub decode_program_owned :
    {A : Type 0} → (List ℕ → Option A) → RawAccount → Pubkey → List ℕ → Result AccountDecodeError A
decode_program_owned try_from_slice account expected_owner expected_discriminator = do
  require (account.owner == expected_owner) (wrong_owner expected_owner account.owner)
  require (not (ltb (length account.bytes) account_discriminator_len)) too_short
  let actual = take account_discriminator_len account.bytes
  require (same_bytes actual expected_discriminator)
      (wrong_discriminator expected_discriminator actual)
  ok_or (try_from_slice (drop account_discriminator_len account.bytes)) borsh

-- `try_decode` of the views: the bytes are trusted.
unfoldable pub try_decode :
    {A : Type 0} → (List ℕ → Option A) → List ℕ → Result AccountDecodeError A
unfolding strip_discriminator
try_decode try_from_slice bytes = do
  body ← strip_discriminator bytes
  ok_or (try_from_slice body) borsh

same_bytes_refl : (xs : List ℕ) → same_bytes xs xs ≡ true
same_bytes_refl [] = refl
same_bytes_refl (x ∷ xs) = ground (arith, same_bytes_refl xs)

same_bytes-eq : (xs ys : List ℕ) → same_bytes xs ys ≡ true → xs ≡ ys
same_bytes-eq [] [] h = refl
same_bytes-eq [] (y ∷ ys) h = ground arith
same_bytes-eq (x ∷ xs) [] h = ground arith
same_bytes-eq (x ∷ xs) (y ∷ ys) h = ground (arith, same_bytes-eq xs ys)

take-append : (xs ys : List ℕ) (n : ℕ) → length xs ≡ n → take n (xs ++ ys) ≡ xs
take-append [] ys zero h = refl
take-append [] ys (suc n) h = absurd (omega arith)
take-append (x ∷ xs) ys zero h = absurd (omega arith)
take-append (x ∷ xs) ys (suc n) h = ap (λ l. x ∷ l) (take-append xs ys n (omega arith))

drop-append : (xs ys : List ℕ) (n : ℕ) → length xs ≡ n → drop n (xs ++ ys) ≡ ys
drop-append [] ys zero h = refl
drop-append [] ys (suc n) h = absurd (omega arith)
drop-append (x ∷ xs) ys zero h = absurd (omega arith)
drop-append (x ∷ xs) ys (suc n) h = drop-append xs ys n (omega arith)

length-append : (xs ys : List ℕ) → length (xs ++ ys) ≡ length xs + length ys
length-append [] ys = omega arith
length-append (x ∷ xs) ys = omega (arith, length-append xs ys)

take-append-drop : (n : ℕ) (xs : List ℕ) → take n xs ++ drop n xs ≡ xs
take-append-drop zero xs = refl
take-append-drop (suc n) [] = refl
take-append-drop (suc n) (x ∷ xs) = ap (λ l. x ∷ l) (take-append-drop n xs)

-- The program owns the account, and its data are the discriminator followed by a body that decodes
-- to the value.
pub record Encodes {A : Type 0} (try_from_slice : List ℕ → Option A) (owner : Pubkey) (tag : List ℕ)
    (account : RawAccount) (a : A) : Type 0 where
  pub body : List ℕ
  pub owned : account.owner ≡ owner
  pub laid : account.bytes ≡ tag ++ body
  pub read : try_from_slice body ≡ some a

module _ {A : Type 0} (try_from_slice : List ℕ → Option A) (owner : Pubkey) (tag : List ℕ) where
  decode_program_owned_only :
      (account : RawAccount) (a : A)
      → decode_program_owned try_from_slice account owner tag ≡ ok a
      → (account.owner ≡ owner)
        × (body : List ℕ) × (account.bytes ≡ tag ++ body)
        × (try_from_slice body ≡ some a)
  unfolding decode_program_owned
  decode_program_owned_only account a h =
      let whole = take-append-drop 8 account.bytes in
      let same : take 8 account.bytes ≡ tag =
        same_bytes-eq (take 8 account.bytes) tag (ground arith) in
      (ground arith, drop 8 account.bytes, ground (arith, whole, same), ground arith)

  pub decode_program_owned-Encodes :
      (account : RawAccount) (a : A)
      → decode_program_owned try_from_slice account owner tag ≡ ok a
      → Encodes try_from_slice owner tag account a
  decode_program_owned-Encodes account a h =
      let (owned, body, laid, read) = decode_program_owned_only account a h in
      record { body = body; owned = owned; laid = laid; read = read }

module _ {A : Type 0} (try_from_slice : List ℕ → Option A) (owner : Pubkey) (tag : List ℕ)
    (eight : length tag ≡ 8) where
  decode_program_owned_accepts :
      (body : List ℕ) (a : A)
      → try_from_slice body ≡ some a
      → decode_program_owned try_from_slice
          (record { owner = owner; bytes = tag ++ body })
          owner
          tag
        ≡ ok a
  unfolding decode_program_owned
  decode_program_owned_accepts body a h =
      let first = take-append tag body 8 eight in
      let rest = drop-append tag body 8 eight in
      let long = length-append tag body in
      let same = same_bytes_refl tag in ground (arith, first, rest, long, same)

  -- For a discriminator of eight bytes: an account decodes to a value exactly if the expected
  -- program owns it and its data are the discriminator followed by a body that decodes to that
  -- value. No account of another program and none of another type decodes.
  pub decode_program_owned_iff :
      (account : RawAccount) (a : A)
      → (decode_program_owned try_from_slice account owner tag ≡ ok a) ↔ (
          (account.owner ≡ owner)
          × (body : List ℕ) × (account.bytes ≡ tag ++ body)
          × (try_from_slice body ≡ some a))
  decode_program_owned_iff account a = (
    decode_program_owned_only try_from_slice owner tag account a,
    λ (owned, body, laid, read).
        let same : account ≡ record { owner = owner; bytes = tag ++ body } = ground arith in
        rw same (decode_program_owned_accepts body a read),
  )

  pub Encodes-decode_program_owned :
      (account : RawAccount) (a : A)
      → Encodes try_from_slice owner tag account a
      → decode_program_owned try_from_slice account owner tag ≡ ok a
  Encodes-decode_program_owned account a h =
      (decode_program_owned_iff account a).1 (h.owned, h.body, h.laid, h.read)
