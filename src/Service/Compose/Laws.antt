-- ===== src/Service/Compose/Laws.antt =====
-- The write of a compose file over HTTP: what the files hold afterwards, on every failure.
use nexus_link.Base.{
  Bool, Bool-cases, String, eq_iff, err, false, if◌then◌else◌, inl, inr, is_ok, is_some, none, ok,
  refl, some, true, ◌==◌, ◌||◌, ◌∙◌, ◌≡◌, ◌≢◌, ◌⊎◌,
}
use nexus_link.Fs.{Fs, join, join_cancel}
use nexus_link.Service.Files.{compose_path, tmp_path}
use nexus_link.Service.Compose.{
  Git, added, commit_message, committed_sha, git_commit, is_git_repo, put_response, respond,
}
use nexus_link.Text.{starts_with}
use nexus_link.Process.{Spawned}

-- The paths inside the repository's own directory.
abbrev pub IsGitPath : String → String → Type 0
IsGitPath dir q =
    (rest : String) × (starts_with rest "/" ≡ false)
    × ((rest == ".git" || starts_with rest ".git/") ≡ true)
    × (q ≡ join dir rest)

abbrev pub Same : Fs → Fs → String → Type 0
Same a b q = (b.file q ≡ a.file q) × (b.mode q ≡ a.mode q)

-- Outside the repository's own directory all files are as they were.
abbrev pub IsKept : String → Fs → Fs → Type 0
IsKept dir a b = (q : String) → Same a b q ⊎ IsGitPath dir q

-- What is relied on of git: its commands change nothing outside the repository's own directory.
pub record IsGit (dir : String) (git : Git) : Type 0 where
  pub add-IsKept : (fs : Fs) → IsKept dir fs (git.add fs).1
  pub commit-IsKept : (message : String) (fs : Fs) → IsKept dir fs (git.commit message fs).1
  pub rev_parse-IsKept : (fs : Fs) → IsKept dir fs (git.rev_parse fs).1

-- What a write may do to the files of a directory: the compose file is as it was or holds the whole
-- content, the second exactly when the write succeeds, and then it has the mode of the temporary
-- file, a new one unless one was left over; the temporary file is gone then; and nothing else is
-- touched but what git keeps.
pub record IsReplaced (dir content : String) (written : Bool) (a b : Fs) : Type 0 where
  pub compose_file :
      b.file (compose_path dir) ≡ (if written then some content else a.file (compose_path dir))
  pub compose_mode : b.mode (compose_path dir) ≡ (
      if written
      then (if is_some (a.file (tmp_path dir)) then a.mode (tmp_path dir) else a.new_mode)
      else a.mode (compose_path dir))
  pub tmp_file : (if written then b.file (tmp_path dir) else none) ≡ none
  pub others :
      (q : String) → Same a b q ⊎ (q ≡ compose_path dir) ⊎ (q ≡ tmp_path dir) ⊎ IsGitPath dir q

pub compose_path-ne-tmp_path : (dir : String) → compose_path dir ≢ tmp_path dir
unfolding starts_with
compose_path-ne-tmp_path dir e =
    let same = join_cancel dir "docker-compose.yaml" "docker-compose.yaml.tmp" refl refl e in
    cc ((eq_iff "docker-compose.yaml" "docker-compose.yaml.tmp").1 same)

IsKept-trans : (dir : String) (a b c : Fs) → IsKept dir a b → IsKept dir b c → IsKept dir a c
IsKept-trans dir a b c p q x = elim (p x) [
  | inr g ↦ inr g
  | inl (f, m) ↦ elim (q x) [ inr g ↦ inr g | inl (f', m') ↦ inl (f' ∙ f, m' ∙ m) ]
]

module _ (dir : String) (git : Git) (law : IsGit dir git) where
  committed_sha-IsKept : (r : Spawned) (fs : Fs) → IsKept dir fs (committed_sha git (r, fs)).1
  unfolding committed_sha
  committed_sha-IsKept (err e) fs q = inl (refl, refl)
  committed_sha-IsKept (ok out) fs q = elim (Bool-cases out.success) [
    | inl s ↦ rw s (law.rev_parse-IsKept fs q)
    | inr s ↦ rw s (inl (refl, refl))
  ]

  added-IsKept :
      (message : String) (r : Spawned) (fs : Fs) → IsKept dir fs (added git message (r, fs)).1
  unfolding added
  added-IsKept message (err e) fs = λ q. inl (refl, refl)
  added-IsKept message (ok out) fs =
      let (r, after) = git.commit (commit_message message) fs in
      IsKept-trans dir fs after (committed_sha git (r, after)).1
        (law.commit-IsKept (commit_message message) fs) (committed_sha-IsKept r after)

  git_commit-IsKept : (message : String) (fs : Fs) → IsKept dir fs (git_commit git message fs).1
  unfolding git_commit
  git_commit-IsKept message fs =
      IsKept-trans dir fs (git.add fs).1 (git_commit git message fs).1 (law.add-IsKept fs)
        (added-IsKept message (git.add fs).0 (git.add fs).1)

  pub put_response-IsKept :
      (message : String) (fs : Fs)
      → IsKept dir fs (put_response git dir message fs).1
        × (is_ok (put_response git dir message fs).0 ≡ true)
  unfolding put_response respond
  put_response-IsKept message fs = at (is_git_repo fs dir)
    where
      at :
          (b : Bool)
          → IsKept dir fs (respond git message b fs).1 × (is_ok (respond git message b fs).0 ≡ true)
      at true = (git_commit-IsKept message fs, refl)
      at false = (λ q. inl (refl, refl), refl)
