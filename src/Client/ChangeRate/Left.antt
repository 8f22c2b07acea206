-- ===== src/Client/ChangeRate/Left.antt =====
-- The instructions that leave the old subscription, as the program declares them.
use mathlib.Core.List.{Memᴰ}
use nakama_sol_x.Prelude.{
  ℕ, ◌≤◌, ◌≡◌, refl, ap, ◌∙◌, ◌==◌, ltb, not, Bool, false, Bool-cases, inl, inr, is_some, Option,
  none, some, Result, ok, err, require, ◌>>◌, >>=-eq-ok, >>-eq-ok, arith, List, [], ◌∷◌, ◌++◌,
}
use nakama_sol_x.Program.State.{Pubkey}
use nakama_sol_x.Program.Accounts.{Pda}
use nakama_sol_x.Escrow.{Request}
use nakama_sol_x.Escrow.Wire.{instructions_of}
use nakama_sol_x.Escrow.Transactions.{closings}
use nakama_sol_x.Client.Views.{SubscriptionView, from_byte}
use nakama_sol_x.Client.Decode.{length}
use nakama_sol_x.Client.Addresses.{derive_pay_session_pda}
use nakama_sol_x.Client.Wire.{Crates, Rpc, Instruction}
use nakama_sol_x.Client.Sessions.{
  ResubscribeError, rpc, borsh, ui_account_decode, unsupported_legacy_binary_encoding,
  account_decode, subscription_alive, too_many_pay_sessions, envelope_too_large,
  list_alive_pay_sessions,
}
use nakama_sol_x.Client.Sessions.Listed.{list_alive_pay_sessions_iff}
use nakama_sol_x.Client.Sessions.Derived.{numbers, numbers-Mem, length-numbers, IsListed}
use nakama_sol_x.Client.Satellites.{
  ChangeRateError, too_many_alive_sessions, select_cancel_satellites,
}
use nakama_sol_x.Client.Resubscribe.{max_inline_pay_session_closes}
use nakama_sol_x.Client.ChangeRate.{
  ChangeRateOptions, close_derived, close_alive, leave_ixs, build_cleanup_ix, bridge,
}
use nakama_sol_x.Client.ChangeRate.Requests.{
  old_pda, spelled_old, closings-spelled, leaving_for, cancel-spelled, cancel-granted,
  declared_cancel, granted, granted-append,
}

bridge-eq-ok : {A : Type 0} {v : A} (r : Result ResubscribeError A) → bridge r ≡ ok v → r ≡ ok v
bridge-eq-ok (ok v) h = ground (arith, h)
bridge-eq-ok (err rpc) h = ground (arith, h)
bridge-eq-ok (err borsh) h = ground (arith, h)
bridge-eq-ok (err ui_account_decode) h = ground (arith, h)
bridge-eq-ok (err unsupported_legacy_binary_encoding) h = ground (arith, h)
bridge-eq-ok (err (account_decode x)) h = ground (arith, h)
bridge-eq-ok (err (subscription_alive b)) h = ground (arith, h)
bridge-eq-ok (err (too_many_pay_sessions n)) h = ground (arith, h)
bridge-eq-ok (err (envelope_too_large n)) h = ground (arith, h)

ltb-false : (n : ℕ) → require (not (ltb 4 n)) (too_many_alive_sessions n) ≡ ok tt → n ≤ 4
ltb-false n h = ground (arith, h)

ok→eq : {A : Type 0} (a b : A) → ◌≡◌ {A = Result ChangeRateError A} (ok a) (ok b) → a ≡ b
ok→eq a b h = cc

module _ (pda : Pda) (crates : Crates) (node : Rpc) (opts : ChangeRateOptions) where
  abbrev pub before : Pubkey
  before = old_pda pda crates node opts

  -- The options' sessions are closed where that is asked for.
  close_alive_lem :
      (closes : List Instruction)
      → close_alive pda crates node opts before ≡ ok closes
      → (ids : List ℕ) × (length ids ≤ 4)
        × ((id : ℕ) → Memᴰ id ids → IsListed pda crates node opts.program_id before id)
        × ((rest : List Request) (ixs : List Instruction)
            → spelled_old pda crates node opts rest ≡ some ixs
            → spelled_old pda crates node opts (closings opts.subscriber ids ++ rest)
              ≡ some (closes ++ ixs))
  unfolding close_alive
  close_alive_lem closes h = elim (Bool-cases opts.close_alive_pay_sessions) [
    | inr skipped ↦
        let none_closed : closes ≡ [] = ground (arith, h, skipped) in
        ([], omega arith, λ id m. elim m [ ], λ rest ixs e. rw none_closed e)
    | inl asked ↦
        let (alive, bridged, h1) =
          >>=-eq-ok {w = closes}
            (bridge (list_alive_pay_sessions crates node opts.program_id before))
            (λ alive.
              require (not (ltb max_inline_pay_session_closes (length alive)))
                (too_many_alive_sessions (length alive))
              >> ok (close_derived pda crates opts before alive))
            (ground (arith, asked, h)) in
        let (few, h2) =
          >>-eq-ok {w = closes}
            (require (not (ltb max_inline_pay_session_closes (length alive)))
              (too_many_alive_sessions (length alive)))
            (ok (close_derived pda crates opts before alive)) h1 in
        let are : closes ≡ close_derived pda crates opts before alive = ground (arith, h2) in
        let (listed, sent, exact) =
          list_alive_pay_sessions_iff crates node opts.program_id before alive
            (bridge-eq-ok _ bridged) in
        (
          numbers pda before alive,
          omega (arith, length-numbers pda before alive, ltb-false (length alive) few),
          λ id m.
              (let (view, at, same) = numbers-Mem pda before alive id m in
                (
                  listed,
                  view,
                  sent,
                  (exact (derive_pay_session_pda pda before id, view)).0 at,
                  same,
                )),
          λ rest ixs e. rw are (closings-spelled pda crates node opts alive rest ixs e),
        )
  ]

  -- What leaves the old subscription: nothing where there is none.
  abbrev pub left_requests : Option SubscriptionView → List ℕ → Bool → Bool → List Request
  left_requests none ids graced paused = []
  left_requests (some view) ids graced paused =
      leaving_for pda crates node opts view graced paused ids

  -- The instructions ask for what the requests do, with the access that the payer's account has.
  abbrev pub Asks : List Request → List Instruction → Type 0
  Asks requests ixs =
      (declared : List Instruction) × (spelled_old pda crates node opts requests ≡ some declared)
      × (granted opts.subscriber declared ≡ granted opts.subscriber ixs)

  -- The satellites that are attached are those that the state byte calls for.
  abbrev pub AreChosen : Option SubscriptionView → Bool → Bool → Type 0
  AreChosen none graced paused = Unit
  AreChosen (some view) graced paused =
      (graced ≡ (view.state == 2)) × (paused ≡ (view.state == 1)) × (view.state ≤ 4)

  satellites-AreChosen :
      (view : SubscriptionView) (g p : Option Pubkey)
      → select_cancel_satellites (from_byte view.state) pda before ≡ ok (g, p)
      → AreChosen (some view) (is_some g) (is_some p)
  unfolding select_cancel_satellites
  satellites-AreChosen view g p h = (ground arith, ground arith, ground arith)

  pub leave_ixs_lem :
      (view : Option SubscriptionView) (ixs : List Instruction)
      → leave_ixs pda crates node opts before view ≡ ok ixs
      → (ids : List ℕ) × (graced : Bool) × (paused : Bool) × (length ids ≤ 4)
        × ((id : ℕ) → Memᴰ id ids → IsListed pda crates node opts.program_id before id)
        × AreChosen view graced paused
        × Asks (left_requests view ids graced paused) ixs
  unfolding leave_ixs instructions_of
  leave_ixs_lem none ixs h =
      let nothing : [] ≡ ixs = ground (arith, h) in
      (
        [],
        false,
        false,
        omega arith,
        λ id m. elim m [ ],
        tt,
        ([], refl, ap (λ l. granted opts.subscriber l) nothing),
      )
  leave_ixs_lem (some view) ixs h =
      let (closes, closed, h1) = >>=-eq-ok (close_alive pda crates node opts before) _ h in
      let ((g, p), selected, h2) =
        >>=-eq-ok (select_cancel_satellites (from_byte view.state) pda before) _ h1 in
      let (ids, few, listed, spells) = close_alive_lem closes closed in
      let cleaned = build_cleanup_ix crates opts.program_id before opts.subscriber ∷ [] in
      (
        ids,
        is_some g,
        is_some p,
        few,
        listed,
        satellites-AreChosen view g p selected,
        (
          closes ++ declared_cancel pda crates node opts view g p ∷ cleaned,
          spells _ _ (cancel-spelled pda crates node opts view g p selected),
          granted-append opts.subscriber closes _ _
                (cancel-granted pda crates node opts view g p cleaned)
              ∙ ap (λ l. granted opts.subscriber l) (ok→eq _ _ h2),
        ),
      )
