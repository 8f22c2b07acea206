-- ===== src/Client/Sessions/Derived.antt =====
-- The listed sessions whose addresses derive from their numbers.
use mathlib.Core.Path.{subst}
use mathlib.Core.List.{Memᴰ}
use nakama_sol_x.Prelude.{
  ℕ, ◌≤◌, ◌≡◌, refl, sym, ◌==◌, Bool-cases, inl, inr, some, if◌then◌else◌, arith, List, [], ◌∷◌,
}
use nakama_sol_x.Program.State.{Pubkey}
use nakama_sol_x.Program.Accounts.{Pda}
use nakama_sol_x.Client.Views.{PaySessionView}
use nakama_sol_x.Client.Decode.{length}
use nakama_sol_x.Client.Addresses.{derive_pay_session_pda}
use nakama_sol_x.Client.Wire.{Crates, Rpc, UiAccountData}
use nakama_sol_x.Client.Sessions.{session_filters}
use nakama_sol_x.Client.Sessions.Listed.{IsOpenIn, Mem-cons_cases, if-true, if-false}

module _ (pda : Pda) (own : Pubkey) where
  -- The numbers of the listed sessions whose addresses derive from them.
  abbrev pub numbers : List (Pubkey × PaySessionView) → List ℕ
  numbers [] = []
  numbers ((address, view) ∷ rest) =
      let out = numbers rest in
      if derive_pay_session_pda pda own view.session_id == address
      then view.session_id ∷ out
      else out

  pub numbers-Mem :
      (listed : List (Pubkey × PaySessionView)) (id : ℕ)
      → Memᴰ id (numbers listed)
      → (view : PaySessionView) × Memᴰ (derive_pay_session_pda pda own id, view) listed
        × (view.session_id ≡ id)
  numbers-Mem [] id m = elim m [ ]
  numbers-Mem ((address, view) ∷ rest) id m =
      let derives = derive_pay_session_pda pda own view.session_id == address in
      let later : Memᴰ id (numbers rest)
          → (v : PaySessionView) × Memᴰ (derive_pay_session_pda pda own id, v)
              ((address, view) ∷ rest)
            × (v.session_id ≡ id) =
        λ m'. (let (v, deep, same) = numbers-Mem rest id m' in (v, Memᴰ.tail deep, same)) in
      elim (Bool-cases derives) [
        | inr other ↦ later (subst (λ l. Memᴰ id l) (if-false derives _ _ other refl) m)
        | inl derived ↦
            elim (Mem-cons_cases (subst (λ l. Memᴰ id l) (if-true derives _ _ derived refl) m)) [
              | inr m' ↦ later m'
              | inl e ↦ (view, Memᴰ.head (ground (arith, e, derived)), sym e)
            ]
      ]

  pub length-numbers :
      (listed : List (Pubkey × PaySessionView)) → length (numbers listed) ≤ length listed
  length-numbers [] = omega arith
  length-numbers ((address, view) ∷ rest) = ground (arith, length-numbers rest)

-- The session with this number is open on the chain, as the node lists it.
abbrev pub IsListed : Pda → Crates → Rpc → Pubkey → Pubkey → ℕ → Type 0
IsListed pda crates node program_id own id =
    (listed : List (Pubkey × UiAccountData)) × (view : PaySessionView)
    × (node.get_program_ui_accounts program_id (session_filters crates own) ≡ some listed)
    × IsOpenIn crates own listed (derive_pay_session_pda pda own id, view)
    × (view.session_id ≡ id)
