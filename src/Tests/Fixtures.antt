-- ===== src/Tests/Fixtures.antt =====
-- One subscription at its stations: two periods of 60 seconds at 3 million base units each.
use nakama_sol_x.Prelude.{ℕ, pos, Option, none, some, ok, err, arith}
use nakama_sol_x.Program.Errors.{Checked}
use nakama_sol_x.Program.State.{
  Pubkey, Plan, Subscription, SubscriptionState, GracedSubscription, PaySession,
}
use nakama_sol_x.Program.Accounts.{
  Account, Tokens, TokenAccount, plan_seeds, sub_seeds, vault_seeds, grace_seeds, paused_sub_seeds,
}
use nakama_sol_x.Stream.Bounds.{IsSound}
use nakama_sol_x.Tests.Token.{addresses, put}

abbrev pub subscriber : Pubkey
subscriber = 1

abbrev pub merchant : Pubkey
merchant = 2

abbrev pub mint : Pubkey
mint = 3

abbrev pub merchant_ata : Pubkey
merchant_ata = 4

abbrev pub subscriber_ata : Pubkey
subscriber_ata = 5

abbrev pub facilitator : Pubkey
facilitator = 6

abbrev pub keeper : Pubkey
keeper = 7

abbrev pub plan_key : Pubkey
plan_key = addresses.address (plan_seeds merchant 1) 255

abbrev pub sub_key : Pubkey
sub_key = addresses.address (sub_seeds subscriber plan_key) 255

abbrev pub vault_key : Pubkey
vault_key = addresses.address (vault_seeds sub_key) 255

abbrev pub grace_key : Pubkey
grace_key = addresses.address (grace_seeds sub_key) 255

abbrev pub paused_key : Pubkey
paused_key = addresses.address (paused_sub_seeds sub_key) 255

abbrev pub plan : Account Plan
plan = record {
  key = plan_key;
  info = record {
    merchant = merchant;
    plan_id = 1;
    price = 3000000;
    period = pos 60;
    token_mint = mint;
    merchant_ata = merchant_ata;
    bump = 255;
  };
}

-- As `subscribe` leaves it at second 1000, but for what is withdrawn.
abbrev pub running : ℕ → Subscription
running withdrawn = record {
  next_charge_at = pos 1060;
  subscriber = subscriber;
  plan = plan_key;
  price = 3000000;
  period = pos 60;
  token_mint = mint;
  merchant = merchant;
  merchant_ata = merchant_ata;
  state = SubscriptionState.active;
  bump = 255;
  vault_bump = 255;
  created_at = pos 1000;
  last_charge_at = pos 0;
  deposited_amount = 6000000;
  withdrawn_amount = withdrawn;
  rate_per_second = 50000;
  stream_start = pos 1000;
}

pub running-IsSound : IsSound (running 0)
running-IsSound = ground arith

pub drawn-IsSound : IsSound (running 1000000)
drawn-IsSound = ground arith

abbrev pub account : Pubkey → ℕ → Option TokenAccount
account owner n = some (record { mint = mint; authority = owner; amount = n })

abbrev pub nothing : Tokens
nothing k = none

-- The token accounts with the given balance of the vault.
abbrev pub funded : ℕ → Tokens
funded n =
    put
      (put (put nothing merchant_ata (account merchant 10)) subscriber_ata
        (account subscriber 9000000))
      vault_key (account sub_key n)

abbrev pub grace_account : Account GracedSubscription
grace_account = record {
  key = grace_key;
  info = record { subscription = sub_key; entered_grace_at = pos 1120; grace_until = pos 605920 };
}

abbrev pub session : PaySession
session = record {
  subscription = sub_key;
  merchant = merchant;
  merchant_ata = merchant_ata;
  facilitator = facilitator;
  session_id = 9;
  opened_at = pos 1000;
  last_settle_at = pos 0;
  usage_amount = 0;
  reservation_cap = 0;
  state = 0;
  bump = 255;
}

-- The result of a run, or a value to stand for it where the run fails.
abbrev pub result : {A : Type 0} → A → Checked A → A
result d (ok a) = a
result d (err x) = d
