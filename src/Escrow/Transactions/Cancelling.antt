-- ===== src/Escrow/Transactions/Cancelling.antt =====
-- A cancellation within a transaction, with the satellites attached that exist.
use mathlib.Core.Path.{subst}
use nakama_sol_x.Prelude.{
  ℤ, ◌+◌, ◌≤◌, ◌<◌, ◌≤ℤ◌, ◌≡◌, ◌≢◌, refl, sym, ap, ◌∙◌, Option-cases, inl, inr, Option, none, some,
  is_some, true, ok, arith, List, u64_bound, i64_bound,
}
use nakama_sol_x.Program.Errors.{Checked}
use nakama_sol_x.Program.State.{
  Pubkey, Plan, Subscription, SubscriptionState, GracedSubscription, PausedSubscription,
}
use nakama_sol_x.Program.Events.{Event}
use nakama_sol_x.Program.Accounts.{
  Account, Pda, check_graced, SplToken, SplLaws, TokenAccount, Tokens, grace_seeds,
  paused_sub_seeds, vault_seeds,
}
use nakama_sol_x.Stream.Bounds.{IsSound, gap, streamed}
use nakama_sol_x.Instructions.Cancel.{
  Cancel, check_paused, cancel_accounts, cancel_handler, is_cancellable, effective_now,
}
use nakama_sol_x.Instructions.Cancel.Outcome.{cancel_handler-Cancelled}
use nakama_sol_x.Instructions.Cancel.Payout.{Distributed, cancel_handler-Distributed}
use nakama_sol_x.Instructions.Cancel.Progress.{cancel_handler_succeeds}
use nakama_sol_x.Escrow.{Escrow, cancel, load_optional, closed_if}
use nakama_sol_x.Escrow.Process.{process, run_cancel}
use nakama_sol_x.Escrow.Transactions.Closing.{IsOwn}

-- The satellite in a slot, as it is loaded from its address.
abbrev pub loaded : {A : Type 0} → Option A → Pubkey → Option (Account A)
loaded none k = none
loaded (some a) k = some (record { key = k; info = a })

ok-injective : (a b : ℤ) → ◌≡◌ {A = Checked ℤ} (ok a) (ok b) → a ≡ b
ok-injective a b h = cc

load_optional_lem :
    {A : Type 0} (slot : Option A) (k : Pubkey)
    → load_optional (is_some slot) slot k ≡ ok (loaded slot k)
load_optional_lem none k = refl
load_optional_lem (some a) k = refl

closed_if_lem : {A : Type 0} (slot : Option A) → closed_if (is_some slot) slot ≡ none
closed_if_lem none = refl
closed_if_lem (some a) = refl

module _ (pda : Pda) (key : Pubkey) (now : ℤ) (s : Subscription) (subscriber ata : Pubkey)
    (tokens : Tokens) (graced : Option GracedSubscription)
    (paused : Option PausedSubscription) where
  abbrev grace_slot : Option (Account GracedSubscription)
  grace_slot = loaded graced (pda.address (grace_seeds key) (pda.canonical_bump (grace_seeds key)))

  abbrev paused_slot : Option (Account PausedSubscription)
  paused_slot =
      loaded paused (pda.address (paused_sub_seeds key) (pda.canonical_bump (paused_sub_seeds key)))

  abbrev vault : Pubkey
  vault = pda.address (vault_seeds key) s.vault_bump

  -- The subscription can be cancelled by its subscriber with what is attached, up to the time `t`.
  pub record CanCancel (t : ℤ) : Type 0 where
    pub in_vault : TokenAccount
    pub at_merchant : TokenAccount
    pub at_subscriber : TokenAccount
    pub vault_held : tokens vault ≡ some in_vault
    pub merchant_held : tokens s.merchant_ata ≡ some at_merchant
    pub subscriber_held : tokens ata ≡ some at_subscriber
    pub vault_mint : in_vault.mint ≡ s.token_mint
    pub merchant_mint : at_merchant.mint ≡ s.token_mint
    pub subscriber_mint : at_subscriber.mint ≡ s.token_mint
    pub vault_owner : in_vault.authority ≡ key
    pub subscriber_owner : at_subscriber.authority ≡ s.subscriber
    pub vault_not_merchant : vault ≢ s.merchant_ata
    pub vault_not_subscriber : vault ≢ ata
    pub merchant_not_subscriber : s.merchant_ata ≢ ata
    pub exact : in_vault.amount + s.withdrawn_amount ≡ s.deposited_amount
    pub merchant_room : at_merchant.amount + s.deposited_amount < u64_bound
    pub subscriber_room : at_subscriber.amount + s.deposited_amount < u64_bound
    pub cancellable : is_cancellable s.state ≡ true
    pub paused_own : (p : PausedSubscription) → paused ≡ some p → p.subscription ≡ key
    pub until : effective_now s.state grace_slot paused_slot now ≡ ok t
    pub started : s.stream_start ≤ℤ now
    pub started_by : s.stream_start ≤ℤ t
    pub near : gap t s.stream_start < i64_bound
    pub drawn : s.withdrawn_amount ≤ streamed s t

  abbrev pub context : Cancel
  context = record {
    signer = subscriber;
    subscription = record { key = key; info = s };
    subscriber = subscriber;
    vault = vault;
    merchant_ata = s.merchant_ata;
    subscriber_ata = ata;
    graced_subscription = grace_slot;
    paused_subscription = paused_slot;
    tokens = tokens;
  }

  check_paused_lem :
      ((p : PausedSubscription) → paused ≡ some p → p.subscription ≡ key)
      → check_paused pda key paused_slot ≡ ok tt
  check_paused_lem own = elim (Option-cases paused) [
    | inl free ↦ rw free refl
    | inr (p, held) ↦ rw held (ground (arith, own p held))
  ]

  check_graced_lem : check_graced pda key grace_slot ≡ ok tt
  check_graced_lem = elim (Option-cases graced) [
    | inl free ↦ rw free refl
    | inr (g, held) ↦ rw held (ground arith)
  ]

  cancel_accounts_succeeds :
      (t : ℤ) → IsOwn pda key subscriber s → CanCancel t → cancel_accounts pda context ≡ ok tt
  unfolding cancel_accounts
  cancel_accounts_succeeds t own can =
      ground (arith, own, can, check_graced_lem, check_paused_lem can.paused_own)

  handler_succeeds :
      (spl : SplToken) (t : ℤ)
      → SplLaws spl
      → IsSound s
      → IsOwn pda key subscriber s
      → CanCancel t
      → (c' : Cancel) × (events : List Event) × (cancel_handler spl context now ≡ ok (c', events))
  handler_succeeds spl t laws sound own can =
      cancel_handler_succeeds spl context now t laws sound (inl (sym own.owner)) can.cancellable
        can.until can.started can.started_by can.near can.drawn can.vault_not_merchant
        can.vault_not_subscriber can.merchant_not_subscriber
        (λ none_there. ground (arith, none_there, can.vault_held))
        (λ none_there. ground (arith, none_there, can.merchant_held))
        (λ none_there. ground (arith, none_there, can.subscriber_held)) (ground (arith, can))
        (ground (arith, can)) (ground (arith, can)) (ground (arith, can)) (ground (arith, can))

module _ (pda : Pda) (spl : SplToken) (plan : Account Plan) (key : Pubkey) (now : ℤ)
    (s : Subscription) (subscriber ata : Pubkey) (e : Escrow) where
  abbrev pub cancellation : Cancel
  cancellation = context pda key now s subscriber ata e.tokens e.graced e.paused

  abbrev pub MayCancel : ℤ → Type 0
  MayCancel t = CanCancel pda key now s subscriber ata e.tokens e.graced e.paused t

  abbrev pub own_vault : Pubkey
  own_vault = vault pda key now s subscriber ata e.tokens e.graced e.paused

  -- Funds go out as a cancellation up to the time `t` pays them, the vault is closed, and nothing
  -- but a tombstone and the pay sessions stays.
  pub record IsCancelled (t : ℤ) (e' : Escrow) : Type 0 where
    pub sub : Subscription
    pub cancel : Cancel
    pub stored : e'.subscription ≡ some sub
    pub tombstone : sub.state ≡ SubscriptionState.cancelled
    pub own : IsOwn pda key subscriber sub
    pub no_grace : e'.graced ≡ none
    pub no_pause : e'.paused ≡ none
    pub tokens : e'.tokens ≡ cancel.tokens
    pub paid : Distributed cancellation cancel t
    pub kept : e'.sessions ≡ e.sessions

  pub cancel_succeeds :
      (t : ℤ)
      → SplLaws spl
      → IsSound s
      → e.subscription ≡ some s
      → IsOwn pda key subscriber s
      → MayCancel t
      → (e' : Escrow) × (events : List Event) × (process pda spl plan key e now (
            cancel subscriber subscriber own_vault s.merchant_ata ata
              (is_some e.graced)
              (is_some e.paused))
          ≡ ok (e', events))
        × IsCancelled t e'
  unfolding process run_cancel
  cancel_succeeds t laws sound found own can =
      let (c', events, done) =
        handler_succeeds pda key now s subscriber ata e.tokens e.graced e.paused spl t laws sound
          own can in
      let (t', settled, refunded, outcome) =
        cancel_handler-Cancelled spl cancellation c' now events sound done in
      let (t'', at, paid) =
        cancel_handler-Distributed spl cancellation c' now events laws sound can.vault_not_merchant
          can.vault_not_subscriber can.merchant_not_subscriber done in
      (
        record e {
          subscription = some c'.subscription.info;
          graced = closed_if (is_some e.graced) e.graced;
          paused = closed_if (is_some e.paused) e.paused;
          tokens = c'.tokens;
        },
        events,
        ground (
          arith,
          found,
          load_optional_lem e.graced _,
          load_optional_lem e.paused _,
          cancel_accounts_succeeds pda key now s subscriber ata e.tokens e.graced e.paused t own
              can,
          done,
        ),
        record {
          sub = c'.subscription.info;
          cancel = c';
          stored = refl;
          tombstone = ap (λ w. w.state) outcome.written;
          own = record {
            owner = ap (λ w. w.subscriber) outcome.written ∙ own.owner;
            address = rw outcome.written own.address;
          };
          no_grace = closed_if_lem e.graced;
          no_pause = closed_if_lem e.paused;
          tokens = refl;
          paid =
              subst (λ u. Distributed cancellation c' u) (ok-injective t'' t (sym at ∙ can.until))
                paid;
          kept = refl;
        },
      )
