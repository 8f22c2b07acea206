-- ===== src/Client/Sessions/Listed.antt =====
-- What the listing of the pay sessions returns.
use nakama_sol_x.Prelude.{
  ◌≡◌, sym, ◌↔◌, ◌⊎◌, inl, inr, ◌==◌, ◌&&◌, if◌then◌else◌, true, false, some, Bool, Result, ok,
  ok_or, ◌>>=◌, List, [], ◌∷◌, arith, ap, Bool-cases, >>=-eq-ok,
}
use mathlib.Core.Path.{subst}
use mathlib.Core.List.{Memᴰ}
use nakama_sol_x.Program.State.{Pubkey}
use nakama_sol_x.Client.Views.{PaySessionView}
use nakama_sol_x.Client.Decode.{try_decode}
use nakama_sol_x.Client.Wire.{Crates, Rpc, UiAccountData}
use nakama_sol_x.Client.Sessions.{
  ResubscribeError, decoded, decode_ui_account_data, collect_open, session_filters,
  list_alive_pay_sessions,
}

-- The session in a listed account.
abbrev pub read_session : Crates → UiAccountData → Result ResubscribeError PaySessionView
read_session crates ui = do
  raw ← decode_ui_account_data crates ui
  decoded (try_decode crates.pay_session_try_from_slice raw)

-- The entry is one of the listed accounts, decoded, and an open session of the subscription.
pub record IsOpenIn (crates : Crates) (subscription : Pubkey)
    (listed : List (Pubkey × UiAccountData)) (entry : Pubkey × PaySessionView) : Type 0 where
  pub encoded : UiAccountData
  pub listed_as : Memᴰ (entry.0, encoded) listed
  pub reads : read_session crates encoded ≡ ok entry.1
  pub own : entry.1.subscription ≡ subscription
  pub still_open : entry.1.state ≡ 0

pub Mem-cons_cases : {A : Type 0} {x y : A} {ys : List A} → Memᴰ x (y ∷ ys) → (x ≡ y) ⊎ Memᴰ x ys
Mem-cons_cases (Memᴰ.head e) = inl e
Mem-cons_cases (Memᴰ.tail m) = inr m

Mem-nil : {A : Type 0} {x : A} {C : Type 0} → Memᴰ x [] → C
Mem-nil m = elim m [ ]

pub if-true :
    {A : Type 0} (b : Bool) (x y : A) {z : A} → b ≡ true → z ≡ (if b then x else y) → z ≡ x
if-true true x y h e = e
if-true false x y h e = cc

pub if-false :
    {A : Type 0} (b : Bool) (x y : A) {z : A} → b ≡ false → z ≡ (if b then x else y) → z ≡ y
if-false true x y h e = cc
if-false false x y h e = e

module _ (crates : Crates) (subscription : Pubkey) where
  abbrev keeps : PaySessionView → Bool
  keeps view = view.subscription == subscription && view.state == 0

  collect_open_cons :
      (address : Pubkey) (ui : UiAccountData) (rest : List (Pubkey × UiAccountData))
      (out : List (Pubkey × PaySessionView))
      → collect_open crates subscription ((address, ui) ∷ rest) ≡ ok out
      → (view : PaySessionView) × (tail : List (Pubkey × PaySessionView)) × (read_session crates ui
          ≡ ok view)
        × (collect_open crates subscription rest ≡ ok tail)
        × (out ≡ (if keeps view then (address, view) ∷ tail else tail))
  unfolding collect_open
  collect_open_cons address ui rest out h =
      let (raw, is_raw, h1) = >>=-eq-ok (decode_ui_account_data crates ui) _ h in
      let (view, is_view, h2) =
        >>=-eq-ok (decoded (try_decode crates.pay_session_try_from_slice raw)) _ h1 in
      let (tail, is_tail, h3) = >>=-eq-ok (collect_open crates subscription rest) _ h2 in
      (view, tail, ground (arith, is_raw, is_view), is_tail, ground (arith, h3))

  weaken :
      (first : Pubkey × UiAccountData) (rest : List (Pubkey × UiAccountData))
      (entry : Pubkey × PaySessionView)
      → IsOpenIn crates subscription rest entry
      → IsOpenIn crates subscription (first ∷ rest) entry
  weaken first rest entry h = record {
    encoded = h.encoded;
    listed_as = Memᴰ.tail h.listed_as;
    reads = h.reads;
    own = h.own;
    still_open = h.still_open;
  }

  collect_open_sound :
      (listed : List (Pubkey × UiAccountData)) (out : List (Pubkey × PaySessionView))
      (entry : Pubkey × PaySessionView)
      → collect_open crates subscription listed ≡ ok out
      → Memᴰ entry out
      → IsOpenIn crates subscription listed entry
  unfolding collect_open
  collect_open_sound [] out entry h m = Mem-nil (subst (λ l. Memᴰ entry l) (ground (arith, h)) m)
  collect_open_sound ((address, ui) ∷ rest) out entry h m =
      let (view, tail, reads, collected, shape) = collect_open_cons address ui rest out h in
      let later = λ (m' : Memᴰ entry tail).
        weaken (address, ui) rest entry (collect_open_sound rest tail entry collected m') in
      elim (Bool-cases (keeps view)) [
        | inl kept ↦
            elim (Mem-cons_cases
              (subst (λ l. Memᴰ entry l) (if-true (keeps view) _ _ kept shape) m)) [
                | inl e ↦ record {
                  encoded = ui;
                  listed_as = Memᴰ.head (ap (λ p. (p.0, ui)) e);
                  reads = ground (arith, reads, e);
                  own = ground (arith, kept, e);
                  still_open = ground (arith, kept, e);
                }
                | inr m' ↦ later m'
              ]
        | inr dropped ↦
            later (subst (λ l. Memᴰ entry l) (if-false (keeps view) _ _ dropped shape) m)
      ]

  collect_open_complete :
      (listed : List (Pubkey × UiAccountData)) (out : List (Pubkey × PaySessionView))
      (entry : Pubkey × PaySessionView)
      → collect_open crates subscription listed ≡ ok out
      → IsOpenIn crates subscription listed entry
      → Memᴰ entry out
  unfolding collect_open
  collect_open_complete [] out entry h m = Mem-nil m.listed_as
  collect_open_complete ((address, ui) ∷ rest) out entry h m =
      let (view, tail, reads, collected, shape) = collect_open_cons address ui rest out h in
      elim (Mem-cons_cases m.listed_as) [
        | inl e ↦
            let same : entry.1 ≡ view = ground (arith, e, reads) in
            let kept : keeps view ≡ true = ground (arith, same) in
            subst (λ l. Memᴰ entry l) (sym (if-true (keeps view) _ _ kept shape))
              (Memᴰ.head (ground (arith, e, same)))
        | inr m' ↦
            let deep = collect_open_complete rest tail entry collected (record {
              encoded = m.encoded;
              listed_as = m';
              reads = m.reads;
              own = m.own;
              still_open = m.still_open;
            }) in
            elim (Bool-cases (keeps view)) [
              | inl kept ↦
                  subst (λ l. Memᴰ entry l) (sym (if-true (keeps view) _ _ kept shape))
                    (Memᴰ.tail deep)
              | inr dropped ↦
                  subst (λ l. Memᴰ entry l) (sym (if-false (keeps view) _ _ dropped shape)) deep
            ]
      ]

pub list_alive_pay_sessions_iff :
    (crates : Crates) (node : Rpc) (program_id subscription : Pubkey)
    (out : List (Pubkey × PaySessionView))
    → list_alive_pay_sessions crates node program_id subscription ≡ ok out
    → (listed : List (Pubkey × UiAccountData)) × (node.get_program_ui_accounts program_id
          (session_filters crates subscription)
        ≡ some listed)
      × ((entry : Pubkey × PaySessionView)
          → Memᴰ entry out ↔ IsOpenIn crates subscription listed entry)
unfolding list_alive_pay_sessions
list_alive_pay_sessions_iff crates node program_id subscription out h =
    let (listed, sent, collected) =
      >>=-eq-ok (ok_or (node.get_program_ui_accounts program_id _) _) _ h in
    (
      listed,
      ground (arith, sent),
      λ entry. (
        collect_open_sound crates subscription listed out entry collected,
        collect_open_complete crates subscription listed out entry collected,
      ),
    )
