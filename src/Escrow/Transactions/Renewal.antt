-- ===== src/Escrow/Transactions/Renewal.antt =====
-- The transaction that subscribes again: close the sessions, clean up the tombstone, subscribe.
use nakama_sol_x.Prelude.{
  ℕ, ℤ, ◌*◌, ◌≤◌, ◌≡◌, refl, ◌∙◌, Option-cases, Result-cases, inl, inr, none, some, ok, arith, List,
  [], ◌∷◌, InI64,
}
use nakama_sol_x.Program.State.{Pubkey, Plan, Subscription, SubscriptionState}
use nakama_sol_x.Program.Events.{Event}
use nakama_sol_x.Program.Accounts.{
  Account, Pda, SplToken, SplLaws, Tokens, TokenAccount, balance, mint_of, authority_of,
  vault_seeds,
}
use nakama_sol_x.Stream.Bounds.{IsSound}
use nakama_sol_x.Instructions.Subscribe.{Subscribe}
use nakama_sol_x.Instructions.Subscribe.Outcome.{subscribe_handler-Started}
use nakama_sol_x.Instructions.Subscribe.Progress.{
  HasTerms, HasAccounts, subscribe_accounts_succeeds, subscribe_handler_succeeds,
}
use nakama_sol_x.Instructions.Cleanup.{cleanup_accounts, cleanup_handler}
use nakama_sol_x.Escrow.{Escrow, subscribe, cleanup}
use nakama_sol_x.Escrow.Runs.{IsSetting}
use nakama_sol_x.Escrow.Process.{process, run_cleanup, run_subscribe, subscribe_context}
use nakama_sol_x.Escrow.Transactions.{commit, renewal}
use nakama_sol_x.Escrow.Transactions.Closing.{IsOwn, AreClosable, cleared, without, commit-closings}

-- A transfer leaves the mint and the authority of an account as they were.
kept_account :
    (spl : SplToken)
    → SplLaws spl
    → (a b : Pubkey) (n : ℕ) (t t' : Tokens) (mint owner : Pubkey) → spl.transfer a b n t ≡ some t'
    → mint_of (t b) ≡ some mint
    → authority_of (t b) ≡ some owner
    → (x : TokenAccount) × (t' b ≡ some x) × (x.mint ≡ mint) × (x.authority ≡ owner)
kept_account spl laws a b n t t' mint owner moved m o =
    let m' = laws.transfer_mint a b b n t t' moved in
    let o' = laws.transfer_authority a b b n t t' moved in
    elim (Option-cases (t' b)) [
      | inl gone ↦ absurd (ground (arith, gone, m', m))
      | inr (x, held) ↦ (x, held, ground (arith, held, m', m), ground (arith, held, o', o))
    ]

module _ (pda : Pda) (spl : SplToken) (plan : Account Plan) (key : Pubkey) (now : ℤ)
    (subscriber : Pubkey) where
  -- The escrow holds a fresh subscription that starts now, and the vault its whole deposit.
  pub record IsFresh (vault : Pubkey) (periods : ℕ) (e : Escrow) : Type 0 where
    pub sub : Subscription
    pub stored : e.subscription ≡ some sub
    pub active : sub.state ≡ SubscriptionState.active
    pub deposit : sub.deposited_amount ≡ plan.info.price * periods
    pub nothing_drawn : sub.withdrawn_amount ≡ 0
    pub started_now : sub.stream_start ≡ now
    pub sound : IsSound sub
    pub own : IsOwn pda key subscriber sub
    pub merchant_snapshot : sub.merchant_ata ≡ plan.info.merchant_ata
    pub price_snapshot : sub.price ≡ plan.info.price
    pub period_snapshot : sub.period ≡ plan.info.period
    pub mint_snapshot : sub.token_mint ≡ plan.info.token_mint
    pub vault_address : vault ≡ pda.address (vault_seeds key) sub.vault_bump
    pub vault_account : TokenAccount
    pub vault_held : e.tokens vault ≡ some vault_account
    pub vault_mint : vault_account.mint ≡ plan.info.token_mint
    pub vault_owner : vault_account.authority ≡ key
    pub funded : balance e.tokens vault ≡ sub.deposited_amount

  pub cleanup_succeeds :
      (e : Escrow) (s : Subscription)
      → e.subscription ≡ some s
      → s.state ≡ SubscriptionState.cancelled
      → IsOwn pda key subscriber s
      → (events : List Event) × (process pda spl plan key e now (cleanup subscriber)
          ≡ ok (record e { subscription = none }, events))
  unfolding process run_cleanup cleanup_accounts cleanup_handler
  cleanup_succeeds e s found cancelled own =
      elim (Result-cases (run_cleanup pda spl plan key e now subscriber)) [
        | inl ((e', events), h) ↦ (events, ground (arith, found, own, cancelled, h))
        | inr (fault, h) ↦ absurd (ground (arith, found, own, cancelled, h))
      ]

  module _ (e : Escrow) (mint vault ata : Pubkey) (wallet : TokenAccount) (created : Tokens) where
    abbrev context : Subscribe
    context = subscribe_context pda spl plan key e now subscriber mint vault ata

    pub run_subscribe_succeeds :
        (periods : ℕ)
        → SplLaws spl
        → IsSetting pda plan key
        → InI64 now
        → e.subscription ≡ none
        → HasAccounts pda context wallet
        → spl.init_account vault mint key e.tokens ≡ some created
        → HasTerms plan.info periods now
        → plan.info.price * periods ≤ wallet.amount
        → (e' : Escrow) × (events : List Event) × (process pda spl plan key e now
              (subscribe subscriber mint vault ata periods)
            ≡ ok (e', events))
          × IsFresh vault periods e'
          × (e'.sessions ≡ e.sessions)
    unfolding process run_subscribe
    run_subscribe_succeeds periods laws setting clock free accounts init terms enough =
        let loads = subscribe_accounts_succeeds pda spl laws context wallet created accounts init in
        let (sub, tokens, events, done) =
          subscribe_handler_succeeds pda spl laws context wallet created accounts init periods now
            terms enough in
        let started =
          subscribe_handler-Started spl (record context { tokens = created }) periods now sub tokens
            events setting.price_range setting.period_range clock done in
        let (empty, opened) = laws.init_empty vault mint key e.tokens created init in
        let new_vault =
          kept_account spl laws ata vault sub.info.deposited_amount created tokens mint key
            started.prefunded (ground (arith, opened)) (ground (arith, opened)) in
        let credited =
          laws.transfer_credits ata vault sub.info.deposited_amount created tokens accounts.separate
            started.prefunded in
        (
          record e { subscription = some sub.info; tokens = tokens },
          events,
          ground (arith, free, loads, done),
          record {
            sub = sub.info;
            stored = refl;
            active = started.active;
            deposit = started.deposit;
            nothing_drawn = started.nothing_drawn;
            started_now = started.started_now;
            sound = started.sound;
            own = record {
              owner = started.owner;
              address = ground (arith, accounts.address, started);
            };
            merchant_snapshot = started.merchant_snapshot;
            price_snapshot = started.price_snapshot;
            period_snapshot = started.period_snapshot;
            mint_snapshot = started.mint_snapshot;
            vault_address = ground (arith, accounts.vault_address, started.own_vault);
            vault_account = new_vault.0;
            vault_held = new_vault.1;
            vault_mint = new_vault.2 ∙ accounts.mint;
            vault_owner = new_vault.3;
            funded = ground (arith, credited, opened);
          },
          refl,
        )

  -- Under the laws of the token program, on a cancelled subscription that the subscriber owns, with
  -- different open sessions to close, accounts as `subscribe` wants them, a vault that can be
  -- created, terms that fit and a wallet that holds the deposit, the transaction that closes these
  -- sessions, cleans up and subscribes goes through. It leaves an active subscription that starts
  -- now, with price times periods deposited and nothing drawn, as much in its vault, and the same
  -- sessions less those closed.
  pub renewal_commits :
      (e : Escrow) (s : Subscription) (mint vault ata : Pubkey) (wallet : TokenAccount)
      (created : Tokens) (periods : ℕ) (ids : List ℕ)
      → SplLaws spl
      → IsSetting pda plan key
      → InI64 now
      → e.subscription ≡ some s
      → s.state ≡ SubscriptionState.cancelled
      → IsOwn pda key subscriber s
      → AreClosable pda key e.sessions ids
      → HasAccounts pda (subscribe_context pda spl plan key e now subscriber mint vault ata) wallet
      → spl.init_account vault mint key e.tokens ≡ some created
      → HasTerms plan.info periods now
      → plan.info.price * periods ≤ wallet.amount
      → (e' : Escrow) × (commit pda spl plan key now
            (renewal subscriber mint vault ata periods ids)
            e
          ≡ ok e')
        × IsFresh vault periods e'
        × (e'.sessions ≡ cleared e.sessions ids)
  unfolding commit
  renewal_commits e s mint vault ata wallet created periods ids laws setting clock found cancelled
        own closable accounts init terms enough =
      let closed = without e ids in
      let first =
        commit-closings pda spl plan key now s subscriber e ids
          (cleanup subscriber ∷ subscribe subscriber mint vault ata periods ∷ []) found own
          closable in
      let (cleaned, second) = cleanup_succeeds closed s found cancelled own in
      let (e', events, third, fresh, kept) =
        run_subscribe_succeeds (record closed { subscription = none }) mint vault ata wallet created
          periods laws setting clock refl accounts init terms enough in
      (e', first ∙ (rw second (rw third refl)), fresh, kept)
