-- ===== src/Application/Monad.antt =====
-- The `Service` struct of internal/application/service.go, and its methods' calls as actions. An
-- action threads the store's state, and counts how often the clock and the random source have been
-- read; what was written before an error stays written.
use review_workflow.Base.{arith, ◌≡◌, ℕ, suc, String, Bool, trim_space, if◌then◌else◌}
use review_workflow.Base.Int.{ℤ}
use review_workflow.Domain.{Time, Duration}
use review_workflow.Domain.Id.{RandomRead, new_id}
use review_workflow.Application.Errors.{Error, Result, ok, err}
use review_workflow.Application.Interfaces.{Op, Store, Executor}

-- What the program takes from outside: the readings of the clock and of the random source, in
-- order, the hexadecimal SHA-256 digest of a text, and strconv's quotation.
pub record Runtime : Type 0 where
  pub clock : ℕ → Time
  pub random : ℕ → RandomRead
  pub sha256_hex : String → String
  pub quote : String → String

pub record Service (S : Type 0) : Type 0 where
  pub store : Store S
  pub executor : Executor
  pub default_reviewer_id : String
  pub reminder_after : Duration
  pub execution_retry_base : Duration
  pub execution_max_attempts : ℤ
  pub runtime : Runtime

unfoldable pub new_service :
    {S : Type 0} → Store S → Executor → String → Duration → Duration → ℤ → Runtime → Service S
new_service store executor reviewer reminder_after retry_base max_attempts runtime = record {
  store = store;
  executor = executor;
  default_reviewer_id = trim_space reviewer;
  reminder_after = reminder_after;
  execution_retry_base = retry_base;
  execution_max_attempts = max_attempts;
  runtime = runtime;
}

pub record World (S : Type 0) : Type 0 where
  pub state : S
  pub ticks : ℕ
  pub draws : ℕ

abbrev pub M : Type 0 → Type 0 → Type 0
M S A = World S → Result A × World S

infixl 5 ◌>>=◌ ◌>>◌
abbrev pub ◌>>=◌ : {S A B : Type 0} → M S A → (A → M S B) → M S B
◌>>=◌ m f w = let (r, w') = m w in elim r [ ok a ↦ f a w' | err e ↦ (err e, w') ]

abbrev pub ◌>>◌ : {S A B : Type 0} → M S A → M S B → M S B
m >> k = m >>= λ _. k

module _ {S A : Type 0} where
  abbrev pub pure : A → M S A
  pure a w = (ok a, w)

  abbrev pub raise : Error → M S A
  raise e w = (err e, w)

  -- A call of the store.
  abbrev pub call : Op S A → M S A
  call op w = let (r, s) = op w.state in (r, record w { state = s })

  -- `v, err := m`, with the error at hand.
  abbrev pub attempt : M S A → M S (Result A)
  attempt m w = let (r, w') = m w in (ok r, w')

  -- `_ = m`
  abbrev pub ignore : M S A → M S (Unit {0})
  ignore m w = let (r, w') = m w in (ok tt, w')

abbrev pub guard : {S : Type 0} → Bool → Error → M S (Unit {0})
guard c e w = (if c then ok tt else err e, w)

-- `s.now().UTC()`
abbrev pub now_utc : {S : Type 0} → Runtime → M S Time
now_utc rt w = (ok (rt.clock w.ticks), record w { ticks = suc w.ticks })

-- `domain.NewID(prefix)`
abbrev pub fresh_id : {S : Type 0} → Runtime → String → M S String
fresh_id rt prefix w = (ok (new_id prefix (rt.random w.draws)), record w { draws = suc w.draws })

-- An action that ends well is followed by the next from where it has come to.
pub >>-ok :
    {S B : Type 0} (m : M S (Unit {0})) (k : M S B) (w : World S)
    → (m w).0 ≡ ok tt
    → (m >> k) w ≡ k (m w).1
>>-ok m k w e = ground arith

pub >>=-ok :
    {S A B : Type 0} {a : A} (m : M S A) (f : A → M S B) (w : World S)
    → (m w).0 ≡ ok a
    → (m >>= f) w ≡ f a (m w).1
>>=-ok m f w e = ground arith
