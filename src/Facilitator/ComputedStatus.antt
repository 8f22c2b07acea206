-- ===== src/Facilitator/ComputedStatus.antt =====
-- handlers/computed_status.rs of the facilitator: it reads the subscription and its grace satellite
-- from the chain and serves the derived status.
use nakama_sol_x.Prelude.{
  ℕ, ℤ, ◌≡◌, ◌≢◌, refl, false, Option, none, some, String, Result, ok, ok_or, ◌>>=◌, List, arith,
  Option-cases, inl, inr,
}
use nakama_sol_x.Program.State.{Pubkey, Subscription}
use nakama_sol_x.Program.Accounts.{Pda, grace_seeds}
use nakama_sol_x.Escrow.{Escrow}
use nakama_sol_x.Escrow.Invariant.{Live}
use nakama_sol_x.Client.Views.{
  SubscriptionView, GracedSubscriptionView, view_of, graced_view, paused_view,
}
use nakama_sol_x.Client.Decode.{
  RawAccount, decode_program_owned, length, Encodes, Encodes-decode_program_owned,
}
use nakama_sol_x.Client.Addresses.{derive_grace_pda}
use nakama_sol_x.Client.Status.{ComputedStatus, derive_status}
use nakama_sol_x.Client.Status.Dispatch.{is_corrupt, derive_status-Live}
use nakama_sol_x.Facilitator.TopUp.{
  ApiError, AppState, Outside, read_subscription, decoded, bad_request,
}

-- Borsh with the discriminator of `GracedSubscription`.
pub record GracedCodec : Type 0 where
  pub discriminator : List ℕ
  pub try_from_slice : List ℕ → Option GracedSubscriptionView

abbrev graced_of :
    GracedCodec → Pubkey → Option RawAccount → Result ApiError (Option GracedSubscriptionView)
graced_of codec program_id none = ok none
graced_of codec program_id (some account) = do
  view ← decoded (decode_program_owned codec.try_from_slice account program_id codec.discriminator)
  ok (some view)

-- The satellite is always looked up; one that does not exist is none.
unfoldable pub read_graced :
    GracedCodec
    → Pda
    → Outside
    → AppState
    → Pubkey
    → Result ApiError (Option GracedSubscriptionView)
read_graced codec pda outside state sub_pda = do
  found ← outside.get_account (derive_grace_pda pda sub_pda)
  graced_of codec state.program_id found

-- `now` is the host's clock.
unfoldable pub handle :
    GracedCodec → Pda → Outside → AppState → String → ℤ → Result ApiError ComputedStatus
handle codec pda outside state path now = do
  sub_pda ← ok_or (outside.parse_pubkey path) bad_request
  subscription ← read_subscription outside state sub_pda
  graced ← read_graced codec pda outside state sub_pda
  ok (derive_status subscription graced none now)

-- The paused satellite plays no part in the status.
derive_status-paused :
    (v : SubscriptionView) (g : Option GracedSubscriptionView) (s : Subscription) (e : Escrow)
    (now : ℤ)
    → derive_status v g none now ≡ derive_status v g (paused_view e.paused) now
unfolding derive_status
derive_status-paused v g s e now = refl

-- The accounts of an escrow as the node answers with them: the subscription, and the grace satellite
-- at its derived address or no account there. Both are the program's own, with their discriminators.
pub record HasEscrow (codec : GracedCodec) (pda : Pda) (outside : Outside) (program_id key : Pubkey)
    (s : Subscription) (graced : Option GracedSubscriptionView) : Type 0 where
  pub account : RawAccount
  pub satellite : Option RawAccount
  pub found : outside.get_account key ≡ ok (some account)
  pub encoded :
      Encodes outside.try_from_slice program_id outside.subscription_discriminator account
        (view_of s)
  pub looked_up :
      outside.get_account (pda.address (grace_seeds key) (pda.canonical_bump (grace_seeds key)))
      ≡ ok satellite
  pub absent : graced ≡ none → satellite ≡ none
  pub present :
      (g : GracedSubscriptionView)
      → graced ≡ some g
      → (a : RawAccount) × (satellite ≡ some a)
        × Encodes codec.try_from_slice program_id codec.discriminator a g

module _ (codec : GracedCodec) (pda : Pda) (outside : Outside) (state : AppState) (key : Pubkey)
    (s : Subscription) (graced : Option GracedSubscriptionView)
    (held : HasEscrow codec pda outside state.program_id key s graced) where
  read_subscription_lem :
      length outside.subscription_discriminator ≡ 8
      → read_subscription outside state key ≡ ok (view_of s)
  unfolding read_subscription
  read_subscription_lem eight =
      rw
        (
          held.found,
          Encodes-decode_program_owned outside.try_from_slice state.program_id
              outside.subscription_discriminator eight held.account (view_of s) held.encoded,
        )
        refl

  read_graced_lem :
      length codec.discriminator ≡ 8 → read_graced codec pda outside state key ≡ ok graced
  unfolding read_graced
  read_graced_lem eight = elim (Option-cases graced) [
    | inl free ↦ rw (held.looked_up, held.absent free, free) refl
    | inr (g, there) ↦
        let (a, at, encoded) = held.present g there in
        rw
          (
            held.looked_up,
            at,
            Encodes-decode_program_owned codec.try_from_slice state.program_id codec.discriminator
                eight a g encoded,
            there,
          )
          refl
  ]

-- For discriminators of eight bytes: where the node answers with the accounts of an escrow that
-- satisfies the program's invariant, each the program's own with its discriminator before a body
-- that decodes to it, and with no account for a grace satellite that does not exist, the endpoint
-- serves the status derived from them, and it is neither `Corrupt` nor `Exhausted`.
pub handle-Live :
    (codec : GracedCodec) (pda : Pda) (outside : Outside) (state : AppState) (path : String)
    (now : ℤ) (key : Pubkey) (s : Subscription) (e : Escrow)
    → Live pda key s e
    → length outside.subscription_discriminator ≡ 8
    → length codec.discriminator ≡ 8
    → outside.parse_pubkey path ≡ some key
    → HasEscrow codec pda outside state.program_id key s (graced_view e.graced)
    → (status : ComputedStatus) × (handle codec pda outside state path now ≡ ok status)
      × (status ≡ derive_status (view_of s) (graced_view e.graced) (paused_view e.paused) now)
      × (is_corrupt status ≡ false)
      × (status ≢ ComputedStatus.exhausted)
unfolding handle
handle-Live codec pda outside state path now key s e live sub_tag graced_tag parsed held =
    let (sane, running) = derive_status-Live pda key s e now live in
    let same = derive_status-paused (view_of s) (graced_view e.graced) s e now in
    let sub =
      read_subscription_lem codec pda outside state key s (graced_view e.graced) held sub_tag in
    let graced =
      read_graced_lem codec pda outside state key s (graced_view e.graced) held graced_tag in
    (
      derive_status (view_of s) (graced_view e.graced) none now,
      ground (arith, parsed, sub, graced),
      same,
      rw same sane,
      rw same running,
    )
