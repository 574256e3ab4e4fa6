-- ===== src/Shell/Extends.antt =====
-- Which events a step adds to the history.
use nexus_link.Base.{List, Result, String, err, ok, ◌∷◌}
use nexus_link.Shell.{
  Event, Os, Step, Try, ask, asked, exists, io, proceed, pure, run, run_ignored, started, ◌&>◌,
  ◌>>=◌, ◌>>◌,
}

-- The history is the earlier one with events added that all have a property.
pub data Extends (P : Event → Type 0) (h : List Event) : List Event → Type 0 where
  nothing : Extends P h h
  add : {later : List Event} (e : Event) → P e → Extends P h later → Extends P h (e ∷ later)

pub Extends-trans :
    {P : Event → Type 0} {a b c : List Event} → Extends P a b → Extends P b c → Extends P a c
Extends-trans r nothing = r
Extends-trans r (add e p s) = add e p (Extends-trans r s)

pub Extends-map :
    {P Q : Event → Type 0}
    → ((e : Event) → P e → Q e)
    → {a b : List Event} → Extends P a b
    → Extends Q a b
Extends-map f nothing = nothing
Extends-map f (add e p s) = add e (f e p) (Extends-map f s)

-- A step adds only events with a property.
abbrev pub Only : {A : Type 0} → (Event → Type 0) → Step A → Type 0
Only P m = (h : List Event) → Extends P h (m h).1

pub Only-pure : {P : Event → Type 0} {A : Type 0} (a : A) → Only P (pure a)
unfolding pure
Only-pure a h = nothing

module _ {P : Event → Type 0} {A B : Type 0} where
  pub Only-bind :
      (m : Step A) (f : A → Step B) → Only P m → ((a : A) → Only P (f a)) → Only P (m >>= f)
  unfolding ◌>>=◌
  Only-bind m f p q h = Extends-trans (p h) (q (m h).0 (m h).1)

  pub Only-seq : (m : Step A) (k : Step B) → Only P m → Only P k → Only P (m >> k)
  unfolding ◌>>◌
  Only-seq m k p q h = Extends-trans (p h) (q (m h).1)

  pub Only-proceed :
      (f : A → Try B) → ((a : A) → Only P (f a)) → (r : Result A String) → Only P (proceed f r)
  unfolding proceed
  Only-proceed f q (ok a) h = q a h
  Only-proceed f q (err e) h = nothing

module _ {P : Event → Type 0} {A B : Type 0} where
  pub Only-chain : (m : Try A) (k : Try B) → Only P m → Only P k → Only P (m &> k)
  unfolding ◌&>◌
  Only-chain m k p q = Only-bind m (proceed λ _. k) p (Only-proceed (λ _. k) (λ _. q))

module _ {P : Event → Type 0} (os : Os) where
  pub Only-run : (args : List String) → P (started args) → Only P (run os args)
  unfolding run
  Only-run args p h = add (started args) p nothing

  pub Only-run_ignored : (args : List String) → P (started args) → Only P (run_ignored os args)
  unfolding run_ignored
  Only-run_ignored args p h = add (started args) p nothing

  pub Only-exists : (p : String) → Only P (exists os p)
  unfolding exists
  Only-exists p h = nothing

  pub Only-io : (e : Event) → P e → Only P (io os e)
  unfolding io
  Only-io e p h = add e p nothing

  pub Only-ask : P asked → Only P (ask os)
  unfolding ask
  Only-ask p h = add asked p nothing

-- What each added event keeps, the added history keeps.
pub Extends-keeps :
    {P : Event → Type 0} (Q : List Event → Type 0)
    → ((e : Event) (h : List Event) → P e → Q h → Q (e ∷ h))
    → {a b : List Event} → Extends P a b
    → Q a
    → Q b
Extends-keeps Q step nothing q = q
Extends-keeps Q step (add e p s) q = step e _ p (Extends-keeps Q step s q)
