-- ===== src/Client/Resubscribe/Sent.antt =====
-- What the client sends when it subscribes again.

use mathlib.Core.List.{Memᴰ}
use nakama_sol_x.Prelude.{
  ℕ, ◌+◌, ◌≤◌, ◌≡◌, refl, ap, ◌⊎◌, ltb, not, ◌&&◌, true, Bool-cases, inl, inr, Option, some, String,
  ok, ok_or, require, >>=-eq-ok, none, Result-cases, >>-eq-ok, ok_or-eq-ok, arith, List, [], ◌∷◌,
}
use nakama_sol_x.Program.State.{Pubkey}
use nakama_sol_x.Program.Accounts.{Pda}
use nakama_sol_x.Client.Views.{PaySessionView, SubscriptionView}
use nakama_sol_x.Client.Decode.{
  length, RawAccount, Encodes, decode_program_owned, decode_program_owned-Encodes,
}
use nakama_sol_x.Client.Addresses.{derive_pay_session_pda}
use nakama_sol_x.Client.Wire.{compute_account_discriminator, Crates, Rpc, Instruction, Message}
use nakama_sol_x.Client.Sessions.{list_alive_pay_sessions}
use nakama_sol_x.Client.Sessions.Listed.{list_alive_pay_sessions_iff}
use nakama_sol_x.Client.Sessions.Derived.{numbers, numbers-Mem, IsListed}
use nakama_sol_x.Client.Resubscribe.{
  ResubscribeArgs, keep_derived, alive_sessions, observe_state, refuse_alive, is_tombstone,
  build_resubscribe_ixs, resubscribe_or_subscribe, tx_size_limit_bytes,
}
use nakama_sol_x.Client.Resubscribe.Requests.{
  own_pda, requests_for, spelled, length-addresses_of, addresses_of, build_resubscribe_ixs-spelled,
}

module _ (pda : Pda) (crates : Crates) (node : Rpc) (args : ResubscribeArgs) where
  abbrev own : Pubkey
  own = own_pda pda crates args

  keep_derived-numbers :
      (listed : List (Pubkey × PaySessionView))
      → keep_derived pda own listed ≡ addresses_of pda crates args (numbers pda own listed)
  keep_derived-numbers [] = refl
  keep_derived-numbers ((address, view) ∷ rest) = ground (arith, keep_derived-numbers rest)

  alive_sessions_lem :
      (state : Option ℕ) (sessions : List Pubkey)
      → alive_sessions pda crates node args own state ≡ ok sessions
      → (ids : List ℕ) × (sessions ≡ addresses_of pda crates args ids)
        × ((id : ℕ) → Memᴰ id ids → IsListed pda crates node args.program_id own id)
        × (((args.close_alive_pay_sessions && is_tombstone state) ≡ true) ⊎ (ids ≡ []))
  unfolding alive_sessions
  alive_sessions_lem state sessions h =
      elim (Bool-cases (args.close_alive_pay_sessions && is_tombstone state)) [
        | inr skipped ↦ ([], ground (arith, skipped, h), λ id m. elim m [ ], inr refl)
        | inl asked ↦
            let (out, listing, kept) =
              >>=-eq-ok {w = sessions} (list_alive_pay_sessions crates node args.program_id own)
                (λ listed. ok (keep_derived pda own listed)) (ground (arith, asked, h)) in
            let (listed, sent, exact) =
              list_alive_pay_sessions_iff crates node args.program_id own out listing in
            (
              numbers pda own out,
              ground (arith, kept, keep_derived-numbers out),
              λ id m.
                  (let (view, at, same) = numbers-Mem pda own out id m in
                    (
                      listed,
                      view,
                      sent,
                      (exact (derive_pay_session_pda pda own id, view)).0 at,
                      same,
                    )),
              inl asked,
            )
      ]

  build-few :
      (state : Option ℕ) (sessions : List Pubkey) (ixs : List Instruction)
      → build_resubscribe_ixs pda crates args state sessions ≡ ok ixs
      → (args.close_alive_pay_sessions && is_tombstone state) ≡ true
      → length sessions ≤ 4
  unfolding build_resubscribe_ixs
  build-few state sessions ixs h asked = ground (arith, h, asked)

  abbrev own_tag : List ℕ
  own_tag = compute_account_discriminator crates "Subscription"

  -- The subscription account that was found, with the state byte that the rest goes by: there is
  -- none, or it is the program's own `Subscription` account and holds the byte of a cancelled one.
  abbrev pub Standing : Option RawAccount → Option ℕ → Type 0
  Standing none state = state ≡ none
  Standing (some account) state =
      (v : SubscriptionView) × Encodes crates.subscription_try_from_slice args.program_id own_tag
        account v
      × (v.state ≡ 4)
      × (state ≡ some 4)

  observe_state-Standing :
      (account : Option RawAccount) (state : Option ℕ)
      → observe_state crates args account ≡ ok state
      → refuse_alive state ≡ ok tt
      → Standing account state
  unfolding observe_state
  observe_state-Standing none state h not_alive = ground (arith, h)
  observe_state-Standing (some account) state h not_alive =
      elim (Result-cases
        (decode_program_owned crates.subscription_try_from_slice account args.program_id own_tag)) [
          | inr (x, failed) ↦ absurd (ground arith)
          | inl (v, read) ↦
              let seen : state ≡ some v.state = ground arith in
              let gone : v.state ≡ 4 = ground arith in
              (
                v,
                decode_program_owned-Encodes crates.subscription_try_from_slice args.program_id
                    own_tag account v read,
                gone,
                ground (arith, seen, gone),
              )
        ]

  -- What was sent.
  pub record Sent (signature : String) : Type 0 where
    pub account : Option RawAccount
    pub state : Option ℕ
    pub ids : List ℕ
    pub message : Message
    pub fetched : node.get_account own ≡ some account
    pub standing : Standing account state
    pub few : length ids ≤ 4
    pub listed : (id : ℕ) → Memᴰ id ids → IsListed pda crates node args.program_id own id
    pub composed :
        spelled pda crates args (requests_for pda crates args state ids) ≡ some message.instructions
    pub payer : message.payer ≡ args.subscriber
    pub fits : crates.message_size message + 65 ≤ 1232
    pub sent : node.send_and_confirm_transaction message ≡ some signature

  few_closed :
      (state : Option ℕ) (sessions : List Pubkey) (ids : List ℕ) (ixs : List Instruction)
      → build_resubscribe_ixs pda crates args state sessions ≡ ok ixs
      → sessions ≡ addresses_of pda crates args ids
      → ((args.close_alive_pay_sessions && is_tombstone state) ≡ true) ⊎ (ids ≡ [])
      → length ids ≤ 4
  few_closed state sessions ids ixs built are (inr e) = rw e (omega arith)
  few_closed state sessions ids ixs built are (inl asked) =
      let few = build-few state sessions ixs built asked in
      let same = length-addresses_of pda crates args ids in omega (arith, few, ap length are, same)

  composed_as :
      (state : Option ℕ) (sessions : List Pubkey) (ids : List ℕ) (ixs : List Instruction)
      → build_resubscribe_ixs pda crates args state sessions ≡ ok ixs
      → sessions ≡ addresses_of pda crates args ids
      → refuse_alive state ≡ ok tt
      → length ids ≤ 4
      → spelled pda crates args (requests_for pda crates args state ids) ≡ some ixs
  composed_as state sessions ids ixs built are not_alive few =
      let (ixs', again, same) =
        build_resubscribe_ixs-spelled pda crates args state ids not_alive few in
      cc

  -- Where the client reports a signature, it has sent a transaction of at most 1232 bytes, by its
  -- size plus one signature, that the subscriber pays for; the node had no account at the
  -- subscription's address, or there the program's own `Subscription` account, by its owner, its
  -- discriminator and its body, with the state byte 4 of a cancelled one; and the instructions spell, in the program's own account order, the
  -- requests to close at most four sessions, to clean up, and to subscribe, or only to subscribe.
  -- Each closed session is an open one of this subscription in the node's list, at the address that
  -- derives from its number.
  pub resubscribe_or_subscribe-Sent :
      (signature : String)
      → resubscribe_or_subscribe pda crates node args ≡ ok signature
      → Sent signature
  unfolding resubscribe_or_subscribe
  resubscribe_or_subscribe-Sent signature h =
      let (account, fetched, h1) = >>=-eq-ok (ok_or (node.get_account own) _) _ h in
      let (state, observed, h2) = >>=-eq-ok (observe_state crates args account) _ h1 in
      let (not_alive, h3) = >>-eq-ok (refuse_alive state) _ h2 in
      let (sessions, alive, h4) = >>=-eq-ok (alive_sessions pda crates node args own state) _ h3 in
      let (ixs, built, h5) =
        >>=-eq-ok (build_resubscribe_ixs pda crates args state sessions) _ h4 in
      let (hash, latest, h6) = >>=-eq-ok (ok_or node.get_latest_blockhash _) _ h5 in
      let message : Message = record {
        instructions = ixs;
        payer = args.subscriber;
        blockhash = hash;
      } in
      let (fits, h7) =
        >>-eq-ok (require (not (ltb tx_size_limit_bytes (crates.message_size message + 1 + 64))) _)
          _ h6 in
      let (ids, are, listed, reason) = alive_sessions_lem state sessions alive in
      let few = few_closed state sessions ids ixs built are reason in
      record {
        account = account;
        state = state;
        ids = ids;
        message = message;
        fetched = ok_or-eq-ok _ _ fetched;
        standing = observe_state-Standing account state observed not_alive;
        few = few;
        listed = listed;
        composed = composed_as state sessions ids ixs built are not_alive few;
        payer = refl;
        fits = ground (arith, fits);
        sent = ok_or-eq-ok _ _ h7;
      }
