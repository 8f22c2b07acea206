-- ===== src/Facilitator/TopUp/Guards.antt =====
-- What the facilitator signs, and when.
use nakama_sol_x.Prelude.{
  ℕ, ◌<◌, ◌≤◌, ◌≡◌, some, is_some, inl, inr, ok, String, arith, Option-cases, Result-cases, refl,
  true, false, ◌==◌, ==_iff, if◌then◌else◌, Bool-cases, List, [], ◌∷◌, >>=-eq-ok,
}
use nakama_sol_x.Program.State.{Pubkey, Subscription}
use nakama_sol_x.Program.Accounts.{Pda, grace_seeds, vault_seeds}
use nakama_sol_x.Escrow.{Escrow}
use nakama_sol_x.Escrow.Invariant.{Live}
use nakama_sol_x.Client.Views.{SubscriptionView, from_byte, state_byte}
use nakama_sol_x.Client.Decode.{
  RawAccount, Encodes, decode_program_owned, decode_program_owned-Encodes,
}
use nakama_sol_x.Client.Wire.{AccountMeta, new, new_readonly}
use nakama_sol_x.Client.Addresses.{derive_grace_pda, derive_vault_pda}
use nakama_sol_x.Facilitator.TopUp.{
  AppState, Outside, handle, read_subscription, build_top_up_metas, is_grace_byte,
}

-- The subscription account that the node has at an address.
pub record HasSubscription (outside : Outside) (program_id sub_pda : Pubkey) (v : SubscriptionView)
    : Type 0 where
  pub account : RawAccount
  pub found : outside.get_account sub_pda ≡ ok (some account)
  pub encoded :
      Encodes outside.try_from_slice program_id outside.subscription_discriminator account v

read_subscription-HasSubscription :
    (outside : Outside) (state : AppState) (sub_pda : Pubkey) (v : SubscriptionView)
    → read_subscription outside state sub_pda ≡ ok v
    → HasSubscription outside state.program_id sub_pda v
unfolding read_subscription
read_subscription-HasSubscription outside state sub_pda v h =
    let (found, fetched, h1) = >>=-eq-ok (outside.get_account sub_pda) _ h in
    elim (Option-cases found) [
      | inl missing ↦ absurd (ground (arith, missing))
      | inr (account, held) ↦
          let whole : decode_program_owned outside.try_from_slice account state.program_id
                outside.subscription_discriminator
              ≡ ok v =
            ground (arith, held) in
          record {
            account = account;
            found = ground (arith, fetched, held);
            encoded =
                decode_program_owned-Encodes outside.try_from_slice state.program_id
                  outside.subscription_discriminator account v whole;
          }
    ]

-- The accounts of the program's `top_up`, in its order, with the addresses that it derives from its
-- seeds. The grace satellite stands in its slot where the state byte is 2, and elsewhere the
-- program's own address.
abbrev pub top_up_accounts_of :
    Pda → Pubkey → Pubkey → Pubkey → Pubkey → Pubkey → ℕ → List AccountMeta
top_up_accounts_of pda program_id token_program signer sub_pda ata byte =
    new signer true
    ∷ new sub_pda false
    ∷ (if byte == 2
        then new (pda.address (grace_seeds sub_pda) (pda.canonical_bump (grace_seeds sub_pda)))
            false
        else new_readonly program_id false)
    ∷ new (pda.address (vault_seeds sub_pda) (pda.canonical_bump (vault_seeds sub_pda))) false
    ∷ new ata false
    ∷ new_readonly token_program false
    ∷ []

build_top_up_metas-eq :
    (pda : Pda) (program_id token_program signer sub_pda ata : Pubkey) (byte : ℕ)
    → build_top_up_metas signer sub_pda program_id
        (derive_grace_pda pda sub_pda)
        (derive_vault_pda pda sub_pda)
        ata
        token_program
        (from_byte byte)
      ≡ top_up_accounts_of pda program_id token_program signer sub_pda ata byte
unfolding build_top_up_metas
build_top_up_metas-eq pda program_id token_program signer sub_pda ata byte =
    elim (Bool-cases (byte == 2)) [
      | inl grace ↦ let two : byte ≡ 2 = (==_iff byte 2).0 grace in rw two refl
      | inr other ↦
          let none_there : is_grace_byte (from_byte byte) ≡ false = ground arith in
          rw (none_there, other) refl
    ]

-- The transaction that was sent for a request, and what was checked before.
pub record Sent (pda : Pda) (outside : Outside) (state : AppState) (amount : ℕ) (signature : String)
    (sub_pda signer : Pubkey) (v : SubscriptionView) (blockhash : ℕ) : Type 0 where
  pub positive : 0 < amount
  pub within_limit : amount ≤ state.max_top_up_amount
  pub key_loaded : state.demo_subscriber ≡ some signer
  pub held : HasSubscription outside state.program_id sub_pda v
  pub own_subscription : v.subscriber ≡ signer
  pub latest : outside.get_latest_blockhash ≡ ok blockhash
  pub sent :
      outside.send_and_confirm_transaction
        (record {
          accounts =
              top_up_accounts_of pda state.program_id outside.token_program signer sub_pda
                (outside.associated_token_address signer v.token_mint)
                v.state;
          amount = amount;
        })
        blockhash
        signer
      ≡ ok signature

-- A request that is answered with a signature asked for a positive amount within the configured
-- limit. The node has, at the address of the request, an account that the program owns, with the
-- discriminator of a subscription before a body that decodes to one, and its subscriber is the loaded
-- key. The transaction that was sent for it carries the amount and the accounts of the program's
-- `top_up` in their order: the signer, the subscription, its grace satellite exactly if the state
-- byte is 2 and the program's own address if not, its vault, the signer's token account of its mint,
-- and the token program.
pub handle-Sent :
    (pda : Pda) (outside : Outside) (state : AppState) (path : String) (amount : ℕ)
    (signature : String)
    → handle pda outside state path amount ≡ ok signature
    → (sub_pda : Pubkey) × (signer : Pubkey) × (v : SubscriptionView) × (blockhash : ℕ)
      × (outside.parse_pubkey path ≡ some sub_pda)
      × Sent pda outside state amount signature sub_pda signer v blockhash
unfolding handle
handle-Sent pda outside state path amount signature h =
    elim (Option-cases (outside.parse_pubkey path)) [
      | inl garbled ↦ absurd (ground arith)
      | inr (sub_pda, parsed) ↦ elim (Option-cases state.demo_subscriber) [
        | inl missing ↦ absurd (ground arith)
        | inr (signer, loaded) ↦ elim (Result-cases (read_subscription outside state sub_pda)) [
          | inr (x, failed) ↦ absurd (ground arith)
          | inl (v, read) ↦ elim (Result-cases outside.get_latest_blockhash) [
            | inr (x, failed) ↦ absurd (ground arith)
            | inl (blockhash, latest) ↦ (
              sub_pda,
              signer,
              v,
              blockhash,
              parsed,
              record {
                positive = ground arith;
                within_limit = ground arith;
                key_loaded = loaded;
                held = read_subscription-HasSubscription outside state sub_pda v read;
                own_subscription = ground arith;
                latest = latest;
                sent =
                    rw
                      (← build_top_up_metas-eq pda state.program_id outside.token_program signer
                        sub_pda (outside.associated_token_address signer v.token_mint) v.state)
                      (ground arith);
              },
            )
          ]
        ]
      ]
    ]

-- For an escrow that satisfies the program's invariant, the facilitator attaches the grace
-- satellite exactly if it exists.
pub is_grace_byte-Live :
    (pda : Pda) (key : Pubkey) (s : Subscription) (e : Escrow)
    → Live pda key s e
    → is_grace_byte (from_byte (state_byte s.state)) ≡ is_some e.graced
is_grace_byte-Live pda key s e live = ground (arith, live)
