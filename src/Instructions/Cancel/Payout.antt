-- ===== src/Instructions/Cancel/Payout.antt =====
-- Where the money of a cancelled subscription goes.
use nakama_sol_x.Prelude.{
  ℕ, ℤ, ◌<◌, ◌-◌, ◌+◌, ◌≡◌, ◌≢◌, inl, inr, refl, sym, none, some, ok, arith, List, ltb, Bool-cases,
}
use nakama_sol_x.Program.State.{Pubkey}
use nakama_sol_x.Program.Events.{Event}
use nakama_sol_x.Program.Accounts.{SplToken, SplLaws, Tokens, balance}
use nakama_sol_x.Stream.Bounds.{IsSound, streamed}
use nakama_sol_x.Instructions.Cancel.{Cancel, cancel_handler, effective_now, transfer_positive}
use nakama_sol_x.Instructions.Cancel.Outcome.{cancel_handler-Cancelled}

-- A payment of possibly nothing.
pub record Paid (a b : Pubkey) (n : ℕ) (t t' : Tokens) : Type 0 where
  pub debited : balance t a ≡ balance t' a + n
  pub credited : balance t' b ≡ balance t b + n
  pub frame : (c : Pubkey) → c ≢ a → c ≢ b → t' c ≡ t c

pub transfer_positive-Paid :
    (spl : SplToken) (a b : Pubkey) (n : ℕ) (t t' : Tokens)
    → SplLaws spl
    → a ≢ b
    → transfer_positive spl a b n t ≡ ok t'
    → Paid a b n t t'
unfolding transfer_positive
transfer_positive-Paid spl a b n t t' laws ne h = elim (Bool-cases (ltb 0 n)) [
  | inl some_amount ↦
      let moved : spl.transfer a b n t ≡ some t' = ground arith in
      record {
        debited = laws.transfer_debits a b n t t' ne moved;
        credited = laws.transfer_credits a b n t t' ne moved;
        frame = λ c ca cb. laws.transfer_frame a b c n t t' ca cb moved;
      }
  | inr nothing ↦
      let same : t' ≡ t = ground arith in
      rw same (record { debited = ground arith; credited = ground arith; frame = λ c ca cb. refl })
]

-- What a cancellation up to the moment `t` does to the balances.
pub record Distributed (c c' : Cancel) (t : ℤ) : Type 0 where
  pub merchant_paid :
      balance c'.tokens c.merchant_ata + c.subscription.info.withdrawn_amount
      ≡ balance c.tokens c.merchant_ata + streamed c.subscription.info t
  pub subscriber_refunded :
      balance c'.tokens c.subscriber_ata + streamed c.subscription.info t
      ≡ balance c.tokens c.subscriber_ata + c.subscription.info.deposited_amount
  pub vault_exact :
      balance c.tokens c.vault + c.subscription.info.withdrawn_amount
      ≡ c.subscription.info.deposited_amount
  pub vault_closed : c'.tokens c.vault ≡ none
  pub others :
      (k : Pubkey)
      → k ≢ c.vault
      → k ≢ c.merchant_ata
      → k ≢ c.subscriber_ata
      → c'.tokens k ≡ c.tokens k

-- For a sound subscription and three different token accounts, a successful cancellation pays the
-- merchant what was earned up to its effective moment and not yet drawn, refunds the subscriber the
-- rest of the deposit, empties and closes the vault, whose balance was exactly what was owed, and
-- touches no other token account.
pub cancel_handler-Distributed :
    (spl : SplToken) (c c' : Cancel) (now : ℤ) (events : List Event)
    → SplLaws spl
    → IsSound c.subscription.info
    → c.vault ≢ c.merchant_ata
    → c.vault ≢ c.subscriber_ata
    → c.merchant_ata ≢ c.subscriber_ata
    → cancel_handler spl c now ≡ ok (c', events)
    → (t : ℤ) × (effective_now c.subscription.info.state c.graced_subscription c.paused_subscription
          now
        ≡ ok t)
      × Distributed c c' t
cancel_handler-Distributed spl c c' now events laws sound vm vs ms h =
    let s = c.subscription.info in
    let (t, settled, refunded, done) = cancel_handler-Cancelled spl c c' now events sound h in
    let first =
      transfer_positive-Paid spl c.vault c.merchant_ata (streamed s t - s.withdrawn_amount) c.tokens
        settled laws vm done.paid in
    let second =
      transfer_positive-Paid spl c.vault c.subscriber_ata (s.deposited_amount - streamed s t)
        settled refunded laws vs done.refund in
    let empty = laws.close_empty c.vault refunded c'.tokens done.vault_closed in
    let kept = λ (k : Pubkey) (ne : k ≢ c.vault).
      laws.close_frame c.vault k refunded c'.tokens ne done.vault_closed in
    let merchant = kept c.merchant_ata (λ e. vm (sym e)) in
    let subscriber = kept c.subscriber_ata (λ e. vs (sym e)) in
    let merchant_kept = second.frame c.merchant_ata (λ e. vm (sym e)) ms in
    let subscriber_kept = first.frame c.subscriber_ata (λ e. vs (sym e)) (λ e. ms (sym e)) in
    (
      t,
      done.effective,
      record {
        merchant_paid = ground (arith, first.credited, merchant, merchant_kept, done.not_overdrawn);
        subscriber_refunded = ground (arith, second.credited, subscriber, subscriber_kept);
        vault_exact =
            ground (arith, first.debited, second.debited, empty, done.not_overdrawn, sound);
        vault_closed = laws.close_gone c.vault refunded c'.tokens done.vault_closed;
        others = λ k kv km ks. cc (kept k kv, second.frame k kv ks, first.frame k kv km);
      },
    )

-- For a sound subscription and three different token accounts: if the vault holds more than what is
-- owed, as it does after anybody has sent it a token, then no cancellation of the subscription goes
-- through.
pub cancel_handler_blocked :
    (spl : SplToken) (c : Cancel) (now : ℤ)
    → SplLaws spl
    → IsSound c.subscription.info
    → c.vault ≢ c.merchant_ata
    → c.vault ≢ c.subscriber_ata
    → c.merchant_ata ≢ c.subscriber_ata
    → c.subscription.info.deposited_amount
      < balance c.tokens c.vault + c.subscription.info.withdrawn_amount
    → (c' : Cancel) (events : List Event) → cancel_handler spl c now ≢ ok (c', events)
cancel_handler_blocked spl c now laws sound vm vs ms dust c' events h =
    let (t, _, d) = cancel_handler-Distributed spl c c' now events laws sound vm vs ms h in
    omega (arith, d.vault_exact)
