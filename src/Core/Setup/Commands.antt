-- ===== src/Core/Setup/Commands.antt =====
-- The commands that the setup runs with `sudo`: their documented behaviour, and chains of them.
use Prim.Native.String.{◌++◌}
use nexus_link.Base.{
  Bool, Bool-cases, List, String, [], ap, arith, err, false, inl, inr, is_ok, is_some, not, ok,
  refl, true, ◌&&◌, ◌==◌, ◌∙◌, ◌∷◌, ◌≡◌,
}
use nexus_link.Text.{starts_with}
use nexus_link.Fs.{Fs}
use nexus_link.Process.{Spawned, ran}
use nexus_link.Shell.{Event, Os, pure, run, started, ◌&>◌, ◌>>=◌}
use nexus_link.Shell.Chain.{chain-ok}
use nexus_link.Shell.Extends.{Only, Only-bind, Only-pure, Only-run}
use nexus_link.Core.Setup.{sudo, sudo_result}

abbrev pub cp : String → String → Event
cp source target = started ("sudo" ∷ "cp" ∷ "-p" ∷ source ∷ target ∷ [])

abbrev pub chown : String → String → Event
chown owner target = started ("sudo" ∷ "chown" ∷ owner ∷ target ∷ [])

abbrev pub chmod : String → String → Event
chmod digits target = started ("sudo" ∷ "chmod" ∷ digits ∷ target ∷ [])

-- One path has the same content and mode in both.
abbrev pub Same : Fs → Fs → String → Type 0
Same fs gs p = (fs.file p ≡ gs.file p) × (fs.mode p ≡ gs.mode p)

-- A path that is neither another one nor below it.
abbrev pub is_beside : String → String → Bool
is_beside p target = not (target == p) && not (starts_with p (target ++ "/"))

-- The documented behaviour of the commands that the migration runs.
pub record IsShell (os : Os) : Type 0 where
  -- A successful copy to a path that is no directory has the source's content there.
  pub cp-content :
      (h : List Event) (source target : String)
      → ran (os.run h ("sudo" ∷ "cp" ∷ "-p" ∷ source ∷ target ∷ [])) ≡ true
      → (os.fs h).dir target ≡ false
      → ((os.fs (cp source target ∷ h)).file target ≡ (os.fs h).file source)
        × (is_some ((os.fs h).file source) ≡ true)
  -- A copy changes only its target or what is below it.
  pub cp-beside :
      (h : List Event) (source target p : String)
      → is_beside p target ≡ true
      → Same (os.fs (cp source target ∷ h)) (os.fs h) p
  -- A change of the owner or the mode changes no content, and nothing of other paths.
  pub chown-file :
      (h : List Event) (owner target p : String)
      → (os.fs (chown owner target ∷ h)).file p ≡ (os.fs h).file p
  pub chown-beside :
      (h : List Event) (owner target p : String)
      → is_beside p target ≡ true
      → Same (os.fs (chown owner target ∷ h)) (os.fs h) p
  pub chmod-file :
      (h : List Event) (digits target p : String)
      → (os.fs (chmod digits target ∷ h)).file p ≡ (os.fs h).file p
  pub chmod-mode :
      (h : List Event) (target : String)
      → ran (os.run h ("sudo" ∷ "chmod" ∷ "644" ∷ target ∷ [])) ≡ true
      → (os.fs (chmod "644" target ∷ h)).mode target ≡ 0o644

sudo_result-ran :
    (args : List String) (r : Spawned) → is_ok (sudo_result args r) ≡ true → ran r ≡ true
unfolding sudo_result
sudo_result-ran args (ok o) e = elim (Bool-cases o.success) [ inl p ↦ p | inr p ↦ ground arith ]
sudo_result-ran args (err x) e = ground arith

pub sudo-ran :
    (os : Os) (args : List String) (h : List Event)
    → is_ok (sudo os args h).0 ≡ true
    → ran (os.run h ("sudo" ∷ args)) ≡ true
unfolding sudo ◌>>=◌ pure run
sudo-ran os args h e = sudo_result-ran args (os.run h ("sudo" ∷ args)) e

pub sudo-history :
    (os : Os) (args : List String) (h : List Event)
    → (sudo os args h).1 ≡ started ("sudo" ∷ args) ∷ h
unfolding sudo ◌>>=◌ pure run
sudo-history os args h = refl

pub Only-sudo :
    {P : Event → Type 0} (os : Os) (args : List String)
    → P (started ("sudo" ∷ args))
    → Only P (sudo os args)
unfolding sudo
Only-sudo os args p = Only-bind _ _ (Only-run os _ p) (λ r. Only-pure _)

abbrev pub sudo_event : List String → Event
sudo_event args = started ("sudo" ∷ args)

-- Three commands that succeeded one after the other.
pub sudo-chain :
    (os : Os) (a b c : List String) (h : List Event)
    → is_ok ((sudo os a &> sudo os b &> sudo os c) h).0 ≡ true
    → (ran (os.run h ("sudo" ∷ a)) ≡ true)
      × (ran (os.run (sudo_event b ∷ sudo_event a ∷ h) ("sudo" ∷ c)) ≡ true)
      × ((sudo os a &> sudo os b &> sudo os c) h).1 ≡ sudo_event c ∷ sudo_event b ∷ sudo_event a ∷ h
sudo-chain os a b c h e =
    let (p, q) = chain-ok (sudo os a &> sudo os b) (sudo os c) h e in
    let (p₁, q₁) = chain-ok (sudo os a) (sudo os b) h p in
    let before =
      ap (λ r. r.1) q₁
      ∙ sudo-history os b (sudo os a h).1
      ∙ ap (λ k. sudo_event b ∷ k) (sudo-history os a h) in
    let last = sudo-ran os c ((sudo os a &> sudo os b) h).1 (rw q at e) in
    (
      sudo-ran os a h p₁,
      rw before at last,
      ap (λ r. r.1) q
          ∙ sudo-history os c ((sudo os a &> sudo os b) h).1
          ∙ ap (λ k. sudo_event c ∷ k) before,
    )
