-- ===== src/Tests/Decoding.antt =====
-- Decoding a raw account.
use nakama_sol_x.Prelude.{ℕ, ◌≡◌, ◌↔◌, refl, Option, none, some, ok, List, [], ◌∷◌, ◌++◌}
use nakama_sol_x.Client.Decode.{RawAccount, decode_program_owned, decode_program_owned_iff}

-- A body of exactly one byte.
abbrev one_byte : List ℕ → Option ℕ
one_byte (b ∷ []) = some b
one_byte _ = none

abbrev pub tag : List ℕ
tag = 64 ∷ 7 ∷ 134 ∷ 135 ∷ 93 ∷ 132 ∷ 57 ∷ 208 ∷ []

abbrev pub raw : RawAccount
raw = record { owner = 99; bytes = tag ++ (42 ∷ []) }

decode_program_owned_iff_example :
    (decode_program_owned one_byte raw 99 tag ≡ ok 42)
    ↔ ((raw.owner ≡ 99) × (body : List ℕ) × (raw.bytes ≡ tag ++ body) × (one_byte body ≡ some 42))
decode_program_owned_iff_example = decode_program_owned_iff one_byte 99 tag refl raw 42

decoded : decode_program_owned one_byte raw 99 tag ≡ ok 42
unfolding decode_program_owned
decoded = refl
