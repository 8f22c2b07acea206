-- ===== src/Instructions/Cancel/Progress.antt =====
-- When a cancellation goes through.
use nakama_sol_x.Prelude.{
  ℕ, ℤ, pos_part, ◌≤ℤ◌, ◌<◌, ◌≤◌, ◌-◌, ◌+◌, ◌≡◌, ◌≢◌, ◌⊎◌, inl, inr, sym, true, none, some, is_some,
  ok, arith, List, [], ◌∷◌, ltb, Bool-cases, Option-cases, u64_bound, i64_bound,
}
use nakama_sol_x.Program.Errors.{NakamaError}
use nakama_sol_x.Program.State.{Pubkey, Subscription, SubscriptionState}
use nakama_sol_x.Program.Events.{Event, subscription_cancelled}
use nakama_sol_x.Program.Accounts.{SplToken, SplLaws, Tokens, balance, mint_of}
use nakama_sol_x.Stream.Bounds.{IsSound, gap, streamed, unlocked_at_total}
use nakama_sol_x.Instructions.Cancel.{
  Cancel, cancel_handler, effective_now, settlement, is_cancellable, transfer_positive,
}
use nakama_sol_x.Instructions.Cancel.Payout.{transfer_positive-Paid}

settlement_total :
    (s : Subscription) (t : ℤ)
    → IsSound s
    → s.stream_start ≤ℤ t
    → gap t s.stream_start < i64_bound
    → s.withdrawn_amount ≤ streamed s t
    → settlement s t ≡ ok (streamed s t - s.withdrawn_amount, s.deposited_amount - streamed s t)
unfolding settlement
settlement_total s t sound le near drawn =
    ground (arith, unlocked_at_total NakamaError.math_overflow s t sound le near)

-- A transfer opens and closes no account.
stays_open :
    (spl : SplToken) (a b k : Pubkey) (n : ℕ) (t t' : Tokens)
    → SplLaws spl
    → t k ≢ none
    → transfer_positive spl a b n t ≡ ok t'
    → t' k ≢ none
unfolding transfer_positive
stays_open spl a b k n t t' laws was h = elim (Bool-cases (ltb 0 n)) [
  | inl some_amount ↦
      let moved : spl.transfer a b n t ≡ some t' = ground arith in
      let kept = laws.transfer_authority a b k n t t' moved in
      λ gone. elim (Option-cases (t k)) [
        | inl absent ↦ was absent
        | inr (x, present) ↦ absurd (ground (arith, kept))
      ]
  | inr nothing ↦ ground arith
]

keeps_mint :
    (spl : SplToken) (a b k : Pubkey) (n : ℕ) (t t' : Tokens)
    → SplLaws spl
    → transfer_positive spl a b n t ≡ ok t'
    → mint_of (t' k) ≡ mint_of (t k)
unfolding transfer_positive
keeps_mint spl a b k n t t' laws h = elim (Bool-cases (ltb 0 n)) [
  | inl some_amount ↦ laws.transfer_mint a b k n t t' (ground arith)
  | inr nothing ↦ ground arith
]

transfer_positive_total :
    (spl : SplToken) (a b : Pubkey) (n : ℕ) (t : Tokens)
    → SplLaws spl
    → t a ≢ none
    → t b ≢ none
    → mint_of (t a) ≡ mint_of (t b)
    → n ≤ balance t a
    → balance t b + n < u64_bound
    → (t' : Tokens) × (transfer_positive spl a b n t ≡ ok t')
unfolding transfer_positive
transfer_positive_total spl a b n t laws from_open to_open mint covered room =
    let (t', moved) = laws.transfer_succeeds a b n t from_open to_open mint covered room in
    elim (Bool-cases (ltb 0 n)) [
      | inl some_amount ↦ (t', ground (arith, moved))
      | inr nothing ↦ (t, ground arith)
    ]

-- The handler's way through once its checks pass and its three token instructions succeed.
cancel_handler_runs :
    (spl : SplToken) (c : Cancel) (now t : ℤ) (claim refund : ℕ) (settled refunded tokens : Tokens)
    → (c.signer ≡ c.subscription.info.subscriber) ⊎ (c.signer ≡ c.subscription.info.merchant)
    → is_cancellable c.subscription.info.state ≡ true
    → effective_now c.subscription.info.state c.graced_subscription c.paused_subscription now ≡ ok t
    → c.subscription.info.stream_start ≤ℤ now
    → c.subscription.info.stream_start ≤ℤ t
    → 0 < pos_part c.subscription.info.period
    → settlement c.subscription.info t ≡ ok (claim, refund)
    → c.subscription.info.withdrawn_amount + claim < u64_bound
    → transfer_positive spl c.vault c.merchant_ata claim c.tokens ≡ ok settled
    → transfer_positive spl c.vault c.subscriber_ata refund settled ≡ ok refunded
    → spl.close_account c.vault refunded ≡ some tokens
    → (c' : Cancel) × (events : List Event) × (cancel_handler spl c now ≡ ok (c', events))
unfolding cancel_handler
cancel_handler_runs spl c now t claim refund settled refunded tokens who state at le le' period
      split fits paid back done =
    let s = c.subscription.info in
    (
      record c {
        subscription = record {
          key = c.subscription.key;
          info = record s {
            state = SubscriptionState.cancelled;
            last_charge_at = now;
            withdrawn_amount = s.withdrawn_amount + claim;
          };
        };
        tokens = tokens;
      },
      subscription_cancelled (record {
        subscription = c.subscription.key;
        subscriber = s.subscriber;
        plan = s.plan;
        merchant = s.merchant;
        cancelled_by = c.signer;
        final_settled = claim;
        refunded = refund;
        had_paused_satellite = is_some c.paused_subscription;
        had_graced_satellite = is_some c.graced_subscription;
        timestamp = now;
      })
          ∷ [],
      ground arith,
    )

-- Under the laws of the token program, a cancellation by the subscriber or the merchant of a sound
-- active, paused or graced subscription goes through when the satellite that its state calls for is
-- attached, so that it settles up to a moment `t`; neither now nor `t` is before the anchor of the
-- stream, the distance from the anchor to `t` fits an `i64`, and no more is withdrawn than was earned
-- by `t`; the vault, the merchant's account and the subscriber's are open, three different accounts
-- of one mint; the vault holds exactly what is deposited and not withdrawn; and the two receiving
-- accounts have room for the whole deposit.
pub cancel_handler_succeeds :
    (spl : SplToken) (c : Cancel) (now t : ℤ)
    → SplLaws spl
    → IsSound c.subscription.info
    → (c.signer ≡ c.subscription.info.subscriber) ⊎ (c.signer ≡ c.subscription.info.merchant)
    → is_cancellable c.subscription.info.state ≡ true
    → effective_now c.subscription.info.state c.graced_subscription c.paused_subscription now ≡ ok t
    → c.subscription.info.stream_start ≤ℤ now
    → c.subscription.info.stream_start ≤ℤ t
    → gap t c.subscription.info.stream_start < i64_bound
    → c.subscription.info.withdrawn_amount ≤ streamed c.subscription.info t
    → c.vault ≢ c.merchant_ata
    → c.vault ≢ c.subscriber_ata
    → c.merchant_ata ≢ c.subscriber_ata
    → c.tokens c.vault ≢ none
    → c.tokens c.merchant_ata ≢ none
    → c.tokens c.subscriber_ata ≢ none
    → mint_of (c.tokens c.vault) ≡ mint_of (c.tokens c.merchant_ata)
    → mint_of (c.tokens c.vault) ≡ mint_of (c.tokens c.subscriber_ata)
    → balance c.tokens c.vault + c.subscription.info.withdrawn_amount
      ≡ c.subscription.info.deposited_amount
    → balance c.tokens c.merchant_ata + c.subscription.info.deposited_amount < u64_bound
    → balance c.tokens c.subscriber_ata + c.subscription.info.deposited_amount < u64_bound
    → (c' : Cancel) × (events : List Event) × (cancel_handler spl c now ≡ ok (c', events))
cancel_handler_succeeds spl c now t laws sound who state at le le' near drawn vm vs ms vo mo so
      mmint smint exact mroom sroom =
    let s = c.subscription.info in
    let claim = streamed s t - s.withdrawn_amount in
    let refund = s.deposited_amount - streamed s t in
    let split = settlement_total s t sound le' near drawn in
    let (settled, paid) =
      transfer_positive_total spl c.vault c.merchant_ata claim c.tokens laws vo mo mmint
        (omega arith) (omega arith) in
    let first =
      transfer_positive-Paid spl c.vault c.merchant_ata claim c.tokens settled laws vm paid in
    let kept = first.frame c.subscriber_ata (λ e. vs (sym e)) (λ e. ms (sym e)) in
    let vo' = stays_open spl c.vault c.merchant_ata c.vault claim c.tokens settled laws vo paid in
    let so' =
      stays_open spl c.vault c.merchant_ata c.subscriber_ata claim c.tokens settled laws so paid in
    let vault_mint =
      keeps_mint spl c.vault c.merchant_ata c.vault claim c.tokens settled laws paid in
    let subscriber_mint =
      keeps_mint spl c.vault c.merchant_ata c.subscriber_ata claim c.tokens settled laws paid in
    let (refunded, back) =
      transfer_positive_total spl c.vault c.subscriber_ata refund settled laws vo' so'
        (ground (arith, vault_mint, subscriber_mint, smint)) (omega (arith, first.debited))
        (ground (arith, kept)) in
    let second =
      transfer_positive-Paid spl c.vault c.subscriber_ata refund settled refunded laws vs back in
    let vo'' =
      stays_open spl c.vault c.subscriber_ata c.vault refund settled refunded laws vo' back in
    let (tokens, done) =
      laws.close_succeeds c.vault refunded vo'' (omega (arith, first.debited, second.debited)) in
    cancel_handler_runs spl c now t claim refund settled refunded tokens who state at le le'
      sound.period_pos split (omega (arith, sound.deposited_range)) paid back done
