-- ===== src/Escrow/Transactions/Survivors.antt =====
-- The pay sessions that a renewal does not close.
use nakama_sol_x.Prelude.{
  ℕ, ℤ, ◌+◌, ◌*◌, ◌/◌, ◌≤◌, ◌<◌, ◌≤ℤ◌, ◌≡◌, refl, ap, ◌∙◌, ◌⊎◌, none, some, ok, arith, min, List,
  [], ◌∷◌, u64_bound, i64_bound, pos_part, Option,
}
use nakama_sol_x.Program.State.{Pubkey, Plan, PaySession}
use nakama_sol_x.Program.Events.{Event}
use nakama_sol_x.Program.Accounts.{Account, Pda, SplToken, SplLaws, Tokens, TokenAccount, balance}
use nakama_sol_x.Stream.Bounds.{gap, streamed}
use nakama_sol_x.Instructions.SettleUsage.{SettleUsage, settle_usage_accounts}
use nakama_sol_x.Instructions.SettleUsage.Progress.{settle_usage_handler_succeeds}
use nakama_sol_x.Escrow.{Escrow, settle_usage, update}
use nakama_sol_x.Escrow.Process.{process, run_settle_usage, session_key, settle_usage_context}
use nakama_sol_x.Escrow.Transactions.Closing.{IsClosable, Differs, cleared}
use nakama_sol_x.Escrow.Transactions.Renewal.{IsFresh}

-- The session can draw the amount at the time `later` from a stream with the terms of the plan
-- that starts at `start`, where its merchant's account has room.
pub record MayDraw (plan : Plan) (start later : ℤ) (deposit amount : ℕ) (x : PaySession)
    (t : Tokens) : Type 0 where
  pub receiver : TokenAccount
  pub some_amount : 0 < amount
  pub in_order : start ≤ℤ later
  pub near : gap later start < i64_bound
  pub unlocked : amount ≤ min (gap later start * plan.price / pos_part plan.period) deposit
  pub within : (x.reservation_cap ≡ 0) ⊎ (x.usage_amount + amount ≤ x.reservation_cap)
  pub counter : x.usage_amount + amount < u64_bound
  pub received : t x.merchant_ata ≡ some receiver
  pub receiver_mint : receiver.mint ≡ plan.token_mint
  pub room : receiver.amount + amount < u64_bound

module _ (pda : Pda) (spl : SplToken) (plan : Account Plan) (key : Pubkey) (now : ℤ)
    (subscriber vault : Pubkey) (periods : ℕ) (e : Escrow)
    (fresh : IsFresh pda spl plan key now subscriber vault periods e) (id : ℕ) (x : PaySession)
    (held : e.sessions id ≡ some x) (closable : IsClosable pda key id x) (later : ℤ) (amount : ℕ)
    (may : MayDraw plan.info now later (plan.info.price * periods) amount x e.tokens) where
  abbrev context : SettleUsage
  context =
      settle_usage_context pda spl plan key e later x.facilitator vault x.merchant_ata id fresh.sub
        x

  accounts_pass : settle_usage_accounts pda context ≡ ok tt
  unfolding settle_usage_accounts session_key
  accounts_pass = ground (arith, fresh.own, fresh, closable, may)

  stream_terms :
      streamed fresh.sub later
      ≡ min
          (gap later now * plan.info.price / pos_part plan.info.period)
          (plan.info.price * periods)
  stream_terms =
      rw fresh.started_now
        (rw fresh.price_snapshot (rw fresh.period_snapshot (rw fresh.deposit refl)))

  covered : amount ≤ balance e.tokens vault
  covered = omega (arith, may.unlocked, fresh.funded, fresh.deposit)

  fresh_settles :
      SplLaws spl
      → (e' : Escrow) × (events : List Event) × (process pda spl plan key e later
            (settle_usage x.facilitator vault x.merchant_ata id amount)
          ≡ ok (e', events))
  unfolding process run_settle_usage
  fresh_settles laws =
      let (c', events, done) =
        settle_usage_handler_succeeds spl context amount later laws fresh.sound may.some_amount
          fresh.active closable.unlocked (rw fresh.started_now may.in_order)
          (rw fresh.started_now may.near)
          (omega (arith, fresh.nothing_drawn, stream_terms, may.unlocked)) may.within may.counter
          (λ gone. ground (arith, gone, fresh.vault_held))
          (λ gone. ground (arith, gone, may.received))
          (ground (arith, fresh.vault_held, fresh.vault_mint, may.received, may.receiver_mint))
          covered (ground (arith, may.received, may.room)) in
      (
        record e {
          subscription = some c'.parent.info;
          sessions = update e.sessions id (some c'.pay_session.info);
          tokens = c'.tokens;
        },
        events,
        ground (arith, fresh.stored, held, accounts_pass, done),
      )

-- A session that is not among the closed ones is as it was.
cleared-Differs :
    (sessions : ℕ → Option PaySession) (id : ℕ) (ids : List ℕ)
    → Differs id ids
    → cleared sessions ids id ≡ sessions id
cleared-Differs sessions id [] apart = refl
cleared-Differs sessions id (j ∷ ids) (other, apart) =
    cleared-Differs (update sessions j none) id ids apart ∙ ground (arith, other)

module _ (pda : Pda) (spl : SplToken) (plan : Account Plan) (key : Pubkey) (now : ℤ)
    (subscriber : Pubkey) where
  -- A session that was opened under the old subscription and that a renewal does not close is live
  -- again under the new one: where the renewal has left a fresh subscription, the session's
  -- facilitator can settle any amount that the new stream has unlocked, within the session's cap,
  -- if the receiving account is open, of the plan's mint, and has room.
  pub renewal_keeps_session :
      (e e' : Escrow) (vault : Pubkey) (periods : ℕ) (ids : List ℕ) (id : ℕ) (x : PaySession)
      (later : ℤ) (amount : ℕ)
      → SplLaws spl
      → IsFresh pda spl plan key now subscriber vault periods e'
      → e'.sessions ≡ cleared e.sessions ids
      → e.sessions id ≡ some x
      → IsClosable pda key id x
      → Differs id ids
      → MayDraw plan.info now later (plan.info.price * periods) amount x e'.tokens
      → (e'' : Escrow) × (events : List Event) × (process pda spl plan key e' later
            (settle_usage x.facilitator vault x.merchant_ata id amount)
          ≡ ok (e'', events))
  renewal_keeps_session e e' vault periods ids id x later amount laws fresh kept held closable apart
        may =
      let still : e'.sessions id ≡ some x =
        ap (λ f. f id) kept ∙ (cleared-Differs e.sessions id ids apart ∙ held) in
      fresh_settles pda spl plan key now subscriber vault periods e' fresh id x still closable later
        amount may laws
