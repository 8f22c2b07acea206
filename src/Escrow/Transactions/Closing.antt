-- ===== src/Escrow/Transactions/Closing.antt =====
-- A transaction that starts by closing pay sessions.
use nakama_sol_x.Prelude.{
  ℕ, ℤ, ◌≡◌, refl, ◌==◌, false, Result-cases, inl, inr, Option, none, some, ok, arith, List, [],
  ◌∷◌, ◌++◌,
}
use nakama_sol_x.Program.State.{Pubkey, Plan, Subscription, PaySession, session_state_byte, opened}
use nakama_sol_x.Program.Events.{Event}
use nakama_sol_x.Program.Accounts.{Account, Pda, SplToken, sub_seeds, pay_session_seeds}
use nakama_sol_x.Instructions.CloseSession.{close_session_accounts, close_session_handler}
use nakama_sol_x.Escrow.{Escrow, Request, close_session, update}
use nakama_sol_x.Escrow.Process.{process, run_close_session, session_key}
use nakama_sol_x.Escrow.Transactions.{commit, closings}

-- The session at `id` can be closed: it is this subscription's, open, at its canonical address.
pub record IsClosable (pda : Pda) (key : Pubkey) (id : ℕ) (x : PaySession) : Type 0 where
  pub numbered : x.session_id ≡ id
  pub canonical : x.bump ≡ pda.canonical_bump (pay_session_seeds key id)
  pub parent : x.subscription ≡ key
  pub unlocked : x.state ≡ session_state_byte opened

-- Different sessions that can be closed.
abbrev pub Differs : ℕ → List ℕ → Type 0
Differs id [] = Unit
Differs id (j ∷ ids) = ((j == id) ≡ false) × Differs id ids

abbrev pub AreClosable : Pda → Pubkey → (ℕ → Option PaySession) → List ℕ → Type 0
AreClosable pda key sessions [] = Unit
AreClosable pda key sessions (id ∷ ids) =
    ((x : PaySession) × (sessions id ≡ some x) × IsClosable pda key id x)
    × Differs id ids
    × AreClosable pda key sessions ids

AreClosable-update :
    (pda : Pda) (key : Pubkey) (sessions : ℕ → Option PaySession) (id : ℕ) (ids : List ℕ)
    → Differs id ids
    → AreClosable pda key sessions ids
    → AreClosable pda key (update sessions id none) ids
AreClosable-update pda key sessions id [] different closable = tt
AreClosable-update pda key sessions id (j ∷ ids) (other, different) ((x, held, c), apart, rest) = (
  (x, ground (arith, other, held), c),
  apart,
  AreClosable-update pda key sessions id ids different rest,
)

-- The subscription account is the subscriber's, at its address.
pub record IsOwn (pda : Pda) (key subscriber : Pubkey) (s : Subscription) : Type 0 where
  pub owner : s.subscriber ≡ subscriber
  pub address : key ≡ pda.address (sub_seeds s.subscriber s.plan) s.bump

-- The sessions without those.
abbrev pub cleared : (ℕ → Option PaySession) → List ℕ → ℕ → Option PaySession
cleared sessions [] = sessions
cleared sessions (id ∷ ids) = cleared (update sessions id none) ids

abbrev pub without : Escrow → List ℕ → Escrow
without e ids = record e { sessions = cleared e.sessions ids }

module _ (pda : Pda) (spl : SplToken) (plan : Account Plan) (key : Pubkey) (now : ℤ)
    (s : Subscription) (subscriber : Pubkey) where
  close_session_succeeds :
      (e : Escrow) (id : ℕ) (x : PaySession)
      → e.subscription ≡ some s
      → IsOwn pda key subscriber s
      → e.sessions id ≡ some x
      → IsClosable pda key id x
      → (events : List Event) × (process pda spl plan key e now (close_session subscriber id)
          ≡ ok (without e (id ∷ []), events))
  unfolding process run_close_session session_key close_session_accounts close_session_handler
  close_session_succeeds e id x found own held closable =
      elim (Result-cases (run_close_session pda spl plan key e now subscriber id)) [
        | inl ((e', events), h) ↦ (events, ground (arith, found, own, held, closable, h))
        | inr (fault, h) ↦ absurd (ground (arith, found, own, held, closable, h))
      ]

  -- Closing sessions first leaves the rest of the transaction to run without them.
  pub commit-closings :
      (e : Escrow) (ids : List ℕ) (rest : List Request)
      → e.subscription ≡ some s
      → IsOwn pda key subscriber s
      → AreClosable pda key e.sessions ids
      → commit pda spl plan key now (closings subscriber ids ++ rest) e
        ≡ commit pda spl plan key now rest (without e ids)
  unfolding commit
  commit-closings e [] rest found own closable = refl
  commit-closings e (id ∷ ids) rest found own ((x, held, c), apart, others) =
      let (events, closed) = close_session_succeeds e id x found own held c in
      let later =
        commit-closings (without e (id ∷ [])) ids rest found own
          (AreClosable-update pda key e.sessions id ids apart others) in
      rw closed later
