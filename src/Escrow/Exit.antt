-- ===== src/Escrow/Exit.antt =====
-- A subscriber can always leave: after any transactions the one that closes the sessions, cancels
-- and cleans up goes through.
use mathlib.Core.Path.{subst}
use nakama_sol_x.Prelude.{
  ℕ, ℤ, ◌≤ℤ◌, ◌<◌, ◌+◌, ◌≡◌, ◌≢◌, sym, none, some, is_some, true, ok, inl, inr, List, Option-cases,
  arith, u64_bound, i64_bound,
}
use nakama_sol_x.Program.State.{Pubkey, Plan, Subscription, SubscriptionState}
use nakama_sol_x.Program.Accounts.{Account, Pda, SplToken, SplLaws, TokenAccount, Tokens}
use nakama_sol_x.Stream.Bounds.{gap}
use nakama_sol_x.Instructions.Cancel.{Cancel, is_cancellable}
use nakama_sol_x.Instructions.Cancel.Payout.{Distributed}
use nakama_sol_x.Escrow.{Escrow, Request}
use nakama_sol_x.Escrow.Invariant.{vault_of, Live, IsEscrow-Live}
use nakama_sol_x.Escrow.Runs.{IsSetting, Inv, AreSteps, run, run-Inv}
use nakama_sol_x.Escrow.Exact.{Covers, IsExact, IsExactSlot}
use nakama_sol_x.Escrow.Ledger.{NoGifts, run-IsExact}
use nakama_sol_x.Escrow.Timely.{IsTimely, IsTimelySlot, IsTimelyEscrow, IsTimely-later}
use nakama_sol_x.Escrow.Timely.Moment.{open_states, moment_always}
use nakama_sol_x.Escrow.Timely.Runs.{AreOrdered, last_moment, run-IsTimely}
use nakama_sol_x.Escrow.Transactions.{commit, leaving}
use nakama_sol_x.Escrow.Transactions.Closing.{IsOwn, AreClosable, cleared}
use nakama_sol_x.Escrow.Transactions.Cancelling.{MayCancel, own_vault, cancellation}
use nakama_sol_x.Escrow.Transactions.Leaving.{leaving_commits}

-- The token accounts of the merchant and the subscriber are open and of the subscription's mint, they
-- differ from each other, the vault is not the subscriber's, and what they may receive fits.
pub record AreHeld (pda : Pda) (key : Pubkey) (s : Subscription) (ata : Pubkey) (tokens : Tokens)
    : Type 0 where
  pub at_merchant : TokenAccount
  pub at_subscriber : TokenAccount
  pub merchant_held : tokens s.merchant_ata ≡ some at_merchant
  pub subscriber_held : tokens ata ≡ some at_subscriber
  pub merchant_mint : at_merchant.mint ≡ s.token_mint
  pub subscriber_mint : at_subscriber.mint ≡ s.token_mint
  pub subscriber_owner : at_subscriber.authority ≡ s.subscriber
  pub vault_not_subscriber : vault_of pda key ≢ ata
  pub merchant_not_subscriber : s.merchant_ata ≢ ata
  pub merchant_room : at_merchant.amount + s.deposited_amount < u64_bound
  pub subscriber_room : at_subscriber.amount + s.deposited_amount < u64_bound

open-is_cancellable :
    (s : SubscriptionState)
    → s ≢ SubscriptionState.cancelled
    → s ≢ SubscriptionState.exhausted
    → is_cancellable s ≡ true
open-is_cancellable s on fed = elim (open_states s on fed) [
  | inl active ↦ ground (arith, active)
  | inr (inl stopped) ↦ ground (arith, stopped)
  | inr (inr grace) ↦ ground (arith, grace)
]

module _ (pda : Pda) (key : Pubkey) (now : ℤ) (s : Subscription) (e : Escrow)
    (live : Live pda key s e) (timely : IsTimely key s e.graced e.paused now) where
  may_cancel :
      (spl : SplToken) (plan : Account Plan) (subscriber ata : Pubkey)
      → s.state ≢ SubscriptionState.cancelled
      → Covers pda key s e.tokens
      → gap now s.stream_start < i64_bound
      → AreHeld pda key s ata e.tokens
      → (t : ℤ) × (t ≤ℤ now) × MayCancel pda spl plan key now s subscriber ata e t
  may_cancel spl plan subscriber ata on exact near held =
      let u = moment_always pda key now s e live timely on in
      let (before, minted) = exact on in
      let owned = live.vault_owned on in
      elim (Option-cases (e.tokens (vault_of pda key))) [
        | inl closed ↦ absurd (ground (arith, owned, closed))
        | inr (in_vault, kept) ↦ (
          u.t,
          u.earned.past,
          record {
            in_vault = in_vault;
            at_merchant = held.at_merchant;
            at_subscriber = held.at_subscriber;
            vault_held = rw live.vault_bump kept;
            merchant_held = held.merchant_held;
            subscriber_held = held.subscriber_held;
            vault_mint = ground (arith, minted, kept);
            merchant_mint = held.merchant_mint;
            subscriber_mint = held.subscriber_mint;
            vault_owner = ground (arith, owned, kept);
            subscriber_owner = held.subscriber_owner;
            vault_not_merchant = rw live.vault_bump (λ same. live.separate (sym same));
            vault_not_subscriber = rw live.vault_bump held.vault_not_subscriber;
            merchant_not_subscriber = held.merchant_not_subscriber;
            exact = ground (arith, before, kept);
            merchant_room = held.merchant_room;
            subscriber_room = held.subscriber_room;
            cancellable = open-is_cancellable s.state on live.never_exhausted;
            paused_own =
                λ p there. (timely.while_paused (ground (arith, there, live.paused_iff)) p there).1;
            until = u.until;
            started = omega (arith, u.earned.started, u.earned.past);
            started_by = u.earned.started;
            near = omega (arith, u.earned.past, near);
            drawn = u.earned.drawn;
          },
        )
      ]

-- Under the laws of the token program, for a plan with words in range whose merchant account is not
-- the vault, and after any transactions, successful or not, that the subscription's own address
-- does not sign, none of which is a plain transfer into the vault, at `i64` times that do not go
-- backwards, from an escrow in which the invariant holds and that is exact and timely: if there is
-- then a subscription that is not cancelled, its owner can leave it at any later moment whose
-- distance from the anchor of the stream fits an `i64`. With the token accounts of the two sides
-- open, of the subscription's mint, apart and with room for the payments, and different open
-- sessions to close, the transaction that closes these, cancels and cleans up goes through. It
-- leaves no subscription, no satellite and the same sessions less those closed; the merchant is paid
-- what the stream had earned by a moment `t` that is not in the future, less what was withdrawn,
-- and the subscriber what it had not earned.
pub run-leaving :
    (pda : Pda) (spl : SplToken) (plan : Account Plan) (key : Pubkey) (e : Escrow) (start : ℤ)
    (steps : List (ℤ × Request)) (e1 : Escrow) (now : ℤ) (s : Subscription)
    (subscriber ata : Pubkey) (ids : List ℕ)
    → SplLaws spl
    → IsSetting pda plan key
    → AreSteps pda spl plan key steps
    → AreOrdered start steps
    → NoGifts pda key steps
    → Inv pda key e
    → IsExact pda key e
    → IsTimelyEscrow key e start
    → last_moment start steps ≤ℤ now
    → gap now s.stream_start < i64_bound
    → s.state ≢ SubscriptionState.cancelled
    → run pda spl plan key e steps ≡ e1
    → e1.subscription ≡ some s
    → IsOwn pda key subscriber s
    → AreClosable pda key e1.sessions ids
    → AreHeld pda key s ata e1.tokens
    → (t : ℤ) × (e' : Escrow) × (done : Cancel) × (t ≤ℤ now)
      × (commit pda spl plan key now
            (leaving subscriber
              (own_vault pda spl plan key now s subscriber ata e1)
              s.merchant_ata
              ata
              (is_some e1.graced)
              (is_some e1.paused)
              ids)
            e1
          ≡ ok e')
      × (e'.subscription ≡ none)
      × (e'.graced ≡ none)
      × (e'.paused ≡ none)
      × (e'.sessions ≡ cleared e1.sessions ids)
      × (e'.tokens ≡ done.tokens)
      × Distributed (cancellation pda spl plan key now s subscriber ata e1) done t
run-leaving pda spl plan key e start steps e1 now s subscriber ata ids laws setting allowed ordered
      wanted inv exact timely later near on reached found own closable held =
    let inv1 =
      subst (λ x. Inv pda key x) reached
        (run-Inv pda spl plan key e steps laws setting allowed inv) in
    let live = IsEscrow-Live pda key e1 s inv1.0 found in
    let covered : Covers pda key s e1.tokens =
      subst (λ o. IsExactSlot pda key o e1.tokens) found
        (subst (λ x. IsExact pda key x) reached
          (run-IsExact pda spl plan key e steps laws setting allowed wanted inv exact)) in
    let last : IsTimely key s e1.graced e1.paused (last_moment start steps) =
      subst (λ o. IsTimelySlot key o e1.graced e1.paused (last_moment start steps)) found
        (subst (λ x. IsTimelyEscrow key x (last_moment start steps)) reached
          (run-IsTimely pda spl plan key e start steps laws setting allowed ordered inv timely)) in
    let timely1 =
      IsTimely-later key s e1.graced e1.paused (last_moment start steps) now live.sound later
        last in
    let (t, past, can) =
      may_cancel pda key now s e1 live timely1 spl plan subscriber ata on covered near held in
    let (e', done, runs, gone, no_grace, no_pause, kept, tokens, paid) =
      leaving_commits pda spl plan key now s subscriber ata e1 ids t laws live.sound found own
        closable can in
    (t, e', done, past, runs, gone, no_grace, no_pause, kept, tokens, paid)
