-- ===== src/Application/Contract/Keeps.antt =====
-- Actions of the service over a store, one rule for each way to build an action: those in which the
-- client changes no request, and those in which it changes at most one.
use review_workflow.Base.{◌≡◌, refl, Bool, true, false, String, if◌then◌else◌}
use review_workflow.Domain.{Time, Request}
use review_workflow.Application.Errors.{Error, Result, ok, err}
use review_workflow.Application.Interfaces.{Op, Store}
use review_workflow.Application.Monad.{
  Runtime, World, M, ◌>>=◌, ◌>>◌, pure, raise, call, attempt, ignore, guard, now_utc, fresh_id,
}
use review_workflow.Application.Contract.{Agrees}
use review_workflow.Application.Contract.Protocol.{Protocol, Waits}

module _ {S : Type 0} {store : Store S} (p : Protocol store) where
  -- In `m` the client changes no request, whether `m` returns or raises.
  pub record Keeps {A : Type 0} (m : M S A) : Type 0 where
    pub at : (w : World S) → p.Good w.state → p.Between w.state (m w).1.state

  module _ {A : Type 0} where
    pub Keeps-pure : (a : A) → Keeps (pure a)
    Keeps-pure a = record { at = λ w v. p.rest w.state v }

    pub Keeps-raise : (e : Error) → Keeps (raise {A = A} e)
    Keeps-raise e = record { at = λ w v. p.rest w.state v }

    pub Keeps-call : (op : Op S A) → Waits p.Good p.Between op → Keeps (call op)
    Keeps-call op q = record { at = λ w v. q w.state v }

    pub Keeps-attempt : (m : M S A) → Keeps m → Keeps (attempt m)
    Keeps-attempt m k = record { at = λ w v. k.at w v }

    pub Keeps-ignore : (m : M S A) → Keeps m → Keeps (ignore m)
    Keeps-ignore m k = record { at = λ w v. k.at w v }

    pub Keeps-if : (b : Bool) (m n : M S A) → Keeps m → Keeps n → Keeps (if b then m else n)
    Keeps-if true m n km kn = km
    Keeps-if false m n km kn = kn

  pub Keeps-guard : (b : Bool) (e : Error) → Keeps (guard b e)
  Keeps-guard b e = record { at = λ w v. p.rest w.state v }

  pub Keeps-now_utc : (rt : Runtime) → Keeps (now_utc rt)
  Keeps-now_utc rt = record { at = λ w v. p.rest w.state v }

  pub Keeps-fresh_id : (rt : Runtime) (prefix : String) → Keeps (fresh_id rt prefix)
  Keeps-fresh_id rt prefix = record { at = λ w v. p.rest w.state v }

  module _ {A B : Type 0} where
    Keeps-after :
        (f : A → M S B) (s : S) (x : Result A × World S)
        → p.Between s x.1.state
        → ((a : A) → Keeps (f a))
        → p.Between s (((λ _. x) >>= f) x.1).1.state
    Keeps-after f s (ok a, w) b k =
        p.trans s w.state (f a w).1.state b ((k a).at w (p.good s w.state b))
    Keeps-after f s (err e, w) b k = b

    pub Keeps->>= :
        (m : M S A) (f : A → M S B) → Keeps m → ((a : A) → Keeps (f a)) → Keeps (m >>= f)
    Keeps->>= m f km kf = record { at = λ w v. Keeps-after f w.state (m w) (km.at w v) kf }

  module _ (P : Request → Request → Type 0) where
    -- What `m` does from the world `w` on.
    pub record Does {A : Type 0} (m : M S A) (w : World S) : Type 0 where
      pub at : p.Good w.state → p.Ends P w.state (m w).1.state

    pub Does-Keeps : {A : Type 0} (m : M S A) (w : World S) → Keeps m → Does m w
    Does-Keeps m w k = record { at = λ v. p.ends-none P w.state (m w).1.state (k.at w v) }

    pub Does-ignore : {A : Type 0} (m : M S A) (w : World S) → Does m w → Does (ignore m) w
    Does-ignore m w d = record { at = λ v. d.at v }

    pub Does-attempt : {A : Type 0} (m : M S A) (w : World S) → Does m w → Does (attempt m) w
    Does-attempt m w d = record { at = λ v. d.at v }

    pub Does-if :
        {A : Type 0} (b : Bool) (m n : M S A) (w : World S)
        → (b ≡ true → Does m w)
        → (b ≡ false → Does n w)
        → Does (if b then m else n) w
    Does-if true m n w dm dn = dm refl
    Does-if false m n w dm dn = dn refl

    module _ {A B : Type 0} where
      Does-next :
          (f : A → M S B) (s : S) (x : Result A × World S)
          → p.Between s x.1.state
          → ((a : A) → x.0 ≡ ok a → Does (f a) x.1)
          → p.Ends P s (((λ _. x) >>= f) x.1).1.state
      Does-next f s (ok a, w) b d =
          p.ends-before P s w.state (f a w).1.state b ((d a refl).at (p.good s w.state b))
      Does-next f s (err e, w) b d = p.ends-none P s w.state b

      -- A first step in which the client changes no request. The rest may use what it returned.
      pub Does->>= :
          (m : M S A) (f : A → M S B) (w : World S)
          → Keeps m
          → (p.Good w.state
              → (a : A) → (m w).0 ≡ ok a
              → p.Between w.state (m w).1.state
              → Does (f a) (m w).1)
          → Does (m >>= f) w
      Does->>= m f w km kf = record {
        at = λ v. let b = km.at w v in Does-next f w.state (m w) b (λ a e. kf v a e b);
      }

      Does-rest :
          (f : A → M S B) (s : S) (x : Result A × World S)
          → p.Ends P s x.1.state
          → ((a : A) → Keeps (f a))
          → p.Ends P s (((λ _. x) >>= f) x.1).1.state
      Does-rest f s (ok a, w) m k =
          p.ends-after P s w.state (f a w).1.state m ((k a).at w (p.ends-good P s w.state m))
      Does-rest f s (err e, w) m k = m

      -- A first step in which the client changes at most one request, and a rest in which it
      -- changes none.
      pub Does-then :
          (m : M S A) (f : A → M S B) (w : World S)
          → Does m w
          → ((a : A) → Keeps (f a))
          → Does (m >>= f) w
      Does-then m f w d k = record { at = λ v. Does-rest f w.state (m w) (d.at v) k }

    -- An update of a request that is known.
    pub Does-update :
        (req old : Request) (w : World S)
        → p.Knows old w.state
        → req.id ≡ old.id
        → ((new : Request) → Agrees new req → P old new)
        → Does (call (store.update_request req old.version)) w
    Does-update req old w known same q = record {
      at = λ v. p.updates P req old w.state v known same q;
    }

    -- The change of a request that is known, at the time that is read first, and the records of it.
    pub Does-revise :
        {A : Type 0} (rt : Runtime) (change : Time → Request) (rest : Time → M S A) (old : Request)
        (w : World S)
        → p.Knows old w.state
        → ((at : Time) → (change at).id ≡ old.id)
        → ((at : Time) (new : Request) → Agrees new (change at) → P old new)
        → ((at : Time) → Keeps (rest at))
        → Does
            (now_utc rt >>= λ at. call (store.update_request (change at) old.version) >> rest at)
            w
    Does-revise rt change rest old w known same q tail =
        Does->>= (now_utc rt) (λ at. call (store.update_request (change at) old.version) >> rest at)
          w (Keeps-now_utc rt)
          (λ v at e b.
            Does-then (call (store.update_request (change at) old.version)) (λ _. rest at)
              (now_utc rt w).1 (Does-update (change at) old (now_utc rt w).1 known (same at) (q at))
              (λ _. tail at))

pub ruleset keeps_rules = (
  Keeps-pure, Keeps-raise, Keeps-call, Keeps-attempt, Keeps-ignore, Keeps-if, Keeps-guard,
  Keeps-now_utc, Keeps-fresh_id, Keeps->>=,
)
