-- ===== src/Service/Router/Laws.antt =====
-- Which requests change files, and which are commands.
use nexus_link.Base.{
  Bool-cases, Option, String, ap, arith, eq_iff, inl, inr, none, refl, some, ℕ, ◌==◌, ◌∙◌, ◌≡◌, ◌≢◌,
  ◌⊎◌,
}
use nexus_link.Fs.{Fs}
use nexus_link.Service.CmdAuth.{
  Method, NonceCache, Outcome, Request, next, post, put, reject, require_cmd_auth,
}
use nexus_link.Service.Router.{
  ComposeHandler, Surroundings, activate_handler, after_cmd_auth, compose_routes, get_handler,
  logs_handler, put_handler, serve, serve_route,
}

-- The requests that may change files: the write of the compose file, and `docker compose up -d`.
abbrev pub IsFileRoute : String → Method → Type 0
IsFileRoute path m =
    ((path ≡ "/compose/file") × (m ≡ put)) ⊎ ((path ≡ "/compose/activate") × (m ≡ post))

abbrev IsFileHandler : Option ComposeHandler → Type 0
IsFileHandler handler = (handler ≡ some put_handler) ⊎ (handler ≡ some activate_handler)

compose_routes-put :
    (path : String) (m : Method)
    → compose_routes path m ≡ some (some put_handler)
    → (path ≡ "/compose/file") × (m ≡ put)
unfolding compose_routes
compose_routes-put path m e = ground (arith, eq_iff path "/compose/file")

compose_routes-activate :
    (path : String) (m : Method)
    → compose_routes path m ≡ some (some activate_handler)
    → (path ≡ "/compose/activate") × (m ≡ post)
unfolding compose_routes
compose_routes-activate path m e = ground (arith, eq_iff path "/compose/activate")

compose_routes-IsFileRoute :
    (path : String) (m : Method) (handler : Option ComposeHandler)
    → compose_routes path m ≡ some handler
    → IsFileHandler handler
    → IsFileRoute path m
compose_routes-IsFileRoute path m handler e (inl p) =
    inl (compose_routes-put path m (e ∙ ap some p))
compose_routes-IsFileRoute path m handler e (inr p) =
    inr (compose_routes-activate path m (e ∙ ap some p))

module _ {Key Value : Type 0} (s : Surroundings Key Value) where
  -- Only two handlers change files, and only behind the layer.
  after_cmd_auth-files :
      (handler : Option ComposeHandler) (outcome : Outcome) (fs : Fs) (p : String)
      → (after_cmd_auth s handler outcome fs).1.file p ≢ fs.file p
      → IsFileHandler handler × ((passed : Request) × (outcome ≡ next passed))
  unfolding after_cmd_auth
  after_cmd_auth-files none (next passed) fs p ne = absurd (ne refl)
  after_cmd_auth-files (some get_handler) (next passed) fs p ne = absurd (ne refl)
  after_cmd_auth-files (some put_handler) (next passed) fs p ne = (inl refl, (passed, refl))
  after_cmd_auth-files (some activate_handler) (next passed) fs p ne = (inr refl, (passed, refl))
  after_cmd_auth-files (some logs_handler) (next passed) fs p ne = absurd (ne refl)
  after_cmd_auth-files handler (reject status text) fs p ne = absurd (ne refl)

  routed-files :
      (route : Option (Option ComposeHandler)) (req : Request) (now₁ now₂ : ℕ) (cache : NonceCache)
      (fs : Fs) (p : String)
      → (serve_route s route req now₁ now₂ cache fs).2.file p ≢ fs.file p
      → ((handler : Option ComposeHandler) × (route ≡ some handler) × IsFileHandler handler)
        × ((passed : Request) × ((require_cmd_auth s.lib s.crypto s.state req now₁ now₂ cache).0
              ≡ next passed))
  unfolding serve_route
  routed-files none req now₁ now₂ cache fs p ne = absurd (ne refl)
  routed-files (some handler) req now₁ now₂ cache fs p ne =
      let (changes, (passed, let_through)) =
        after_cmd_auth-files handler (require_cmd_auth s.lib s.crypto s.state req now₁ now₂ cache).0
          fs p ne in
      ((handler, refl, changes), (passed, let_through))

  -- A request that changes a file is a PUT of the compose file or a POST that activates it, which the
  -- command-token middleware let through, whatever git and docker do to files. Any other request, a
  -- refused one too, leaves the content of all files as it is.
  pub serve-files :
      (req : Request) (now₁ now₂ : ℕ) (cache : NonceCache) (fs : Fs) (p : String)
      → (serve s req now₁ now₂ cache fs).2.file p ≢ fs.file p
      → IsFileRoute req.path req.method
        × ((passed : Request) × ((require_cmd_auth s.lib s.crypto s.state req now₁ now₂ cache).0
              ≡ next passed))
  unfolding serve
  serve-files req now₁ now₂ cache fs p ne = elim (Bool-cases (req.path == "/health")) [
    | inl health ↦ absurd (ne (rw health refl))
    | inr not_health ↦ elim (Bool-cases (req.path == "/commands")) [
      | inl commands ↦ absurd (ne (rw (not_health, commands) refl))
      | inr compose ↦
          let ((handler, route, changes), (passed, let_through)) =
            routed-files (compose_routes req.path req.method) req now₁ now₂ cache fs p
              (rw (not_health, compose) at ne) in
          (
            compose_routes-IsFileRoute req.path req.method handler route changes,
            (passed, let_through),
          )
    ]
  ]
