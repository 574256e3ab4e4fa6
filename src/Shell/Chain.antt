-- ===== src/Shell/Chain.antt =====
-- Steps in a chain that succeeded.
use nexus_link.Base.{List, Result, String, arith, err, is_ok, ok, refl, true, ◌≡◌}
use nexus_link.Shell.{Event, Try, proceed, ◌&>◌, ◌>>=◌}

proceed-ok :
    {A B : Type 0} (k : Try B) (r : Result A String) (h : List Event)
    → is_ok (proceed (λ _. k) r h).0 ≡ true
    → (is_ok r ≡ true) × (proceed (λ _. k) r h ≡ k h)
unfolding proceed
proceed-ok k (ok a) h e = (refl, refl)
proceed-ok k (err x) h e = ground arith

pub chain-ok :
    {A B : Type 0} (m : Try A) (k : Try B) (h : List Event)
    → is_ok ((m &> k) h).0 ≡ true
    → (is_ok (m h).0 ≡ true) × ((m &> k) h ≡ k (m h).1)
unfolding ◌&>◌ ◌>>=◌
chain-ok m k h e = proceed-ok k (m h).0 (m h).1 e
