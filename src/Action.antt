-- ===== src/Action.antt =====
-- A handler of the control plane: it changes the state, and it may raise. What it wrote and what
-- it asked of other systems stays so after a raise.
use chutes_miner.Prelude.{Bool, false, inl, inr, refl, true, ◌≡◌, ◌⊎◌}
use chutes_miner.Db.{Db}
use chutes_miner.State.{Effect, State, logged}

pub data Raised (A : Type 0) : Type 0 where
  return : A → Raised A
  raise : Raised A

pub Raised-cases : {A : Type 0} (m : Raised A) → ((a : A) × (m ≡ return a)) ⊎ (m ≡ raise)
Raised-cases (return a) = inl (a, refl)
Raised-cases raise = inr refl

abbrev pub Action : Type 0 → Type 0
Action A = State → Raised A × State

module _ {A : Type 0} where
  abbrev pub pure : A → Action A
  pure a s = (return a, s)

  abbrev pub throw : Action A
  throw s = (raise, s)

infixl 5 ◌>>=◌ ◌>>◌
abbrev pub ◌>>=◌ : {A B : Type 0} → Action A → (A → Action B) → Action B
◌>>=◌ m f s = let (r, s') = m s in elim r [ return a ↦ f a s' | raise ↦ (raise, s') ]

abbrev pub ◌>>◌ : {A B : Type 0} → Action A → Action B → Action B
m >> k = m >>= λ _. k

abbrev pub get : Action State
get s = (return s, s)

abbrev pub modify_db : (Db → Db) → Action (Unit {0})
modify_db f s = (return tt, record s { db = f s.db })

-- A call to another system.
abbrev pub call : Effect → Action (Unit {0})
call e s = (return tt, logged e s)

abbrev pub when : Bool → Action (Unit {0}) → Action (Unit {0})
when true m = m
when false m = pure tt
