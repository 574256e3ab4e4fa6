-- ===== src/Core/Setup/Binaries/Nothing.antt =====
-- Where no binary was installed and no error met, nothing was run.
use nexus_link.Base.{
  Bool, List, Result, String, [], arith, err, false, ok, refl, true, ◌∙◌, ◌∷◌, ◌≡◌, ◌≢◌,
}
use nexus_link.Shell.{Event, Os, pure, ◌>>=◌}
use nexus_link.Core.Setup.{push, skipped}
use nexus_link.Core.Setup.Binaries.{
  Installed, install_each, install_one, install_unless, installed_step, is_passed, note_result,
}

abbrev pub IsEmpty : Installed → Type 0
IsEmpty i = (i.names ≡ []) × (i.errors ≡ [])

push-ne_empty : (ss : List String) (s : String) → push ss s ≢ []
unfolding push
push-ne_empty [] s e = ground arith
push-ne_empty (x ∷ xs) s e = ground arith

note_result-not-IsEmpty :
    (name : String) (i : Installed) (r : Result (Unit {0}) String)
    → ¬ IsEmpty (note_result name i r)
unfolding note_result
note_result-not-IsEmpty name i (ok u) (p, q) = push-ne_empty i.names name p
note_result-not-IsEmpty name i (err e) (p, q) = push-ne_empty i.errors _ q

install_unless-nothing :
    (os : Os) (name source target : String) (i : Installed) (passed : Bool) (h : List Event)
    → IsEmpty (install_unless os name source target i passed h).0
    → IsEmpty i × ((install_unless os name source target i passed h).1 ≡ h)
unfolding install_unless ◌>>=◌ pure
install_unless-nothing os name source target i true h e = (e, refl)
install_unless-nothing os name source target i false h e =
    absurd (note_result-not-IsEmpty name i _ e)

install_one-nothing :
    (os : Os) (dir name : String) (i : Installed) (h : List Event)
    → IsEmpty (install_one os dir name i h).0
    → IsEmpty i × ((install_one os dir name i h).1 ≡ h)
unfolding install_one
install_one-nothing os dir name i h = install_unless-nothing os name _ _ i (is_passed os _ _ h) h

pub install_each-nothing :
    (os : Os) (dir : String) (names : List String) (i : Installed) (h : List Event)
    → IsEmpty (install_each os dir names i h).0
    → IsEmpty i × ((install_each os dir names i h).1 ≡ h)
unfolding install_each ◌>>=◌ pure
install_each-nothing os dir [] i h e = (e, refl)
install_each-nothing os dir (name ∷ names) i h e =
    let (p, q) = install_each-nothing os dir names _ _ e in
    let (r, s) = install_one-nothing os dir name i h p in (r, q ∙ s)

installed_step-empty :
    (names errors : List String)
    → (installed_step (record { names = names; errors = errors })).status ≡ skipped
    → (names ≡ []) × (errors ≡ [])
unfolding installed_step
installed_step-empty [] [] e = (refl, refl)
installed_step-empty [] (x ∷ xs) e = ground arith
installed_step-empty (n ∷ ns) [] e = ground arith
installed_step-empty (n ∷ ns) (x ∷ xs) e = ground arith

pub installed_step-skipped : (i : Installed) → (installed_step i).status ≡ skipped → IsEmpty i
installed_step-skipped i e = installed_step-empty i.names i.errors e
