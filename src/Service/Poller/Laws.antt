-- ===== src/Service/Poller/Laws.antt =====
-- The queue's commands against the HTTP handlers, and the cycle of the poll.
use Prim.Native.Char.{Char}
use nexus_link.Base.{
  Bool, Option, Option-cases, Result, String, arith, err, false, inl, inr, is_ok, ok, refl, some,
  sym, true, ◌∙◌, ◌≡◌,
}
use nexus_link.Fs.{Fs, continue, create_dir_all, remove_file, rename, write}
use nexus_link.Core.Config.{Config}
use nexus_link.Service.Files.{PutFaults}
use nexus_link.Service.Command.{Args, ComposeCommandStatus, completed, failed}
use nexus_link.Service.Compose.{
  Git, HttpError, PutComposeFileRequest, put_compose_file, put_response,
  replace_file as http_replace_file,
}
use nexus_link.Service.Poller.{execute_put_file, put_content, put_result, replace_file}
use nexus_link.Service.Compose.Laws.{IsGit, IsKept, put_response-IsKept}

abbrev pub is_completed : ComposeCommandStatus → Bool
is_completed completed = true
is_completed failed = false

replace_file-replace_file :
    (faults : PutFaults) (dir content : String) (fs : Fs)
    → ((replace_file faults dir content fs).1 ≡ (http_replace_file faults dir content fs).1)
      × (is_ok (replace_file faults dir content fs).0
          ≡ is_ok (http_replace_file faults dir content fs).0)
unfolding replace_file http_replace_file create_dir_all write rename remove_file
replace_file-replace_file faults dir content fs = ground arith

put_result-is_completed :
    (dir : String) (r : Result (Unit {0}) String) → is_completed (put_result dir r).status ≡ is_ok r
unfolding put_result
put_result-is_completed dir (ok u) = refl
put_result-is_completed dir (err e) = refl

-- A queued write with a content leaves the files that a PUT of that content leaves under the same
-- failures, but for the repository's own directory, outside which git changes nothing; and it is
-- completed exactly when the PUT succeeds.
pub execute_put_file-put_compose_file :
    (yaml_error : String → Option String) (git : Git) (faults : PutFaults) (dir : String)
    (args : Args) (body : PutComposeFileRequest) (fs : Fs)
    → IsGit dir git
    → args.text "content" ≡ some body.content
    → IsKept dir
        (execute_put_file yaml_error faults dir args fs).1
        (put_compose_file yaml_error git faults dir body fs).1
      × (is_completed (execute_put_file yaml_error faults dir args fs).0.status
          ≡ is_ok (put_compose_file yaml_error git faults dir body fs).0)
unfolding execute_put_file put_compose_file put_content
execute_put_file-put_compose_file yaml_error git faults dir args body fs law e =
    elim (Option-cases (yaml_error body.content)) [
      | inr (text, p) ↦
          rw (execute_put_file, put_content, put_compose_file, e, p) (λ q. inl (refl, refl), refl)
      | inl p ↦
          let (same, fine) = replace_file-replace_file faults dir body.content fs in
          let (kept, done) =
            written (http_replace_file faults dir body.content fs).0
              (http_replace_file faults dir body.content fs).1 in
          rw (execute_put_file, put_content, put_compose_file, e, p)
            (
              rw same kept,
              put_result-is_completed dir (replace_file faults dir body.content fs).0 ∙ fine ∙ done,
            )
    ]
  where
    written :
        (r : Result (Unit {0}) HttpError) (m : Fs)
        → let after = continue r (λ _. put_response git dir body.message) m in
          IsKept dir m after.1 × (is_ok r ≡ is_ok after.0)
    written (err x) m = (λ q. inl (refl, refl), refl)
    written (ok u) m =
        let (kept, fine) = put_response-IsKept dir git law body.message m in (kept, sym fine)
