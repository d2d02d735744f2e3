-- ===== src/Server/Cleanup.antt =====
-- The wiring gives the worker a client of every service that holds data of an account.
use beebase_auth_service.Prelude.{
  All-mono, if◌then◌else◌, ◌++◌, ℕ, ◌≡◌, refl, true, false, some, List, [], ◌∷◌, All, Text, codes,
  text_eq, exists, Bool-cases, inl, inr,
}
use beebase_auth_service.Errors.{failed}
use beebase_auth_service.World.{err, World, Env, JobRow, ok}
use beebase_auth_service.Platform.Clients
use beebase_auth_service.Platform.Clients.{Transport, HttpRequest, HttpResponse, is_success}
use beebase_auth_service.Config.{Config}
use beebase_auth_service.DeletionWorker.{Client, run_once}
use beebase_auth_service.DeletionWorker.Progress.{IsServed, IsCompleted, run_once-finishes}
use beebase_auth_service.Repository.Users.{has_id}
use beebase_auth_service.Repository.Deletion.{deletion_services}
use beebase_auth_service.Repository.DeletionJobs.{next_ready}
use beebase_auth_service.Server.{lookup, cleanup, cleanup_entries, deletion_client, trim_slashes}

-- What holds of every client in the map holds of the one that is found.
lookup-All :
    (P : Client → Type 0) (name : Text) (entries : List (Text × Client))
    → All (λ e. P e.1) entries
    → exists (λ e. text_eq name e.0) entries ≡ true
    → (client : Client) × (lookup name entries ≡ some client) × P client
unfolding exists
lookup-All P name [] h e = cc
lookup-All P name ((other, client) ∷ entries) (h, hs) e = elim (Bool-cases (text_eq name other)) [
  | inl same ↦ (client, rw same refl, h)
  | inr apart ↦
      let (found, runs, holds) = lookup-All P name entries hs (rw apart at e) in
      (found, rw apart runs, holds)
]

checked-ok :
    (status : ℕ)
    → is_success status ≡ true
    → (if is_success status then ok tt else err (failed "cleanup returned status")) ≡ ok tt
checked-ok status good = rw good refl

module _ (h : Transport) (cfg : Config) where
  -- Requests to delete a user's data can be built from the configured URL, and are answered with a
  -- status of the 200s.
  abbrev pub IsReachable : Text → Type 0
  IsReachable url =
      (n user_id : ℕ)
      → let path = trim_slashes url ++ (codes "/internal/api/v1/users/" ++ h.uuid_string user_id) in
        (h.is_valid path ≡ true)
        × (response : HttpResponse) × (h.send n (record {
          method = Clients.delete_method;
          url = path;
          token = cfg.internal_service_token;
        })
            ≡ some response)
        × (is_success response.status ≡ true)

  abbrev pub service_urls : List Text
  service_urls =
      cfg.apiary_service_url ∷ cfg.hive_service_url ∷ cfg.inspection_service_url
      ∷ cfg.harvest_service_url ∷ cfg.media_service_url ∷ cfg.notification_service_url
      ∷ cfg.subscription_service_url ∷ []

  deletion_client-answers :
      (url : Text) → IsReachable url → (n user_id : ℕ) → deletion_client h cfg url n user_id ≡ ok tt
  unfolding Clients.delete_user_data
  deletion_client-answers url reachable n user_id =
      let (valid, response, sent, good) = reachable n user_id in
      rw (valid, sent) (checked-ok response.status good)

  cleanup-IsServed :
      All IsReachable service_urls
      → (name : Text) → exists (text_eq name) deletion_services ≡ true
      → IsServed (cleanup h cfg name)
  unfolding cleanup exists
  cleanup-IsServed
        (apiary, (hive, (inspection, (harvest, (media, (notification, (subscription, _))))))) name
        wanted =
      let (client, found, good) =
        lookup-All (λ client. (n user_id : ℕ) → client n user_id ≡ ok tt) name
          (cleanup_entries h cfg)
          (
            deletion_client-answers cfg.apiary_service_url apiary,
            (
              deletion_client-answers cfg.hive_service_url hive,
              (
                deletion_client-answers cfg.inspection_service_url inspection,
                (
                  deletion_client-answers cfg.harvest_service_url harvest,
                  (
                    deletion_client-answers cfg.media_service_url media,
                    (
                      deletion_client-answers cfg.notification_service_url notification,
                      (deletion_client-answers cfg.subscription_service_url subscription, tt),
                    ),
                  ),
                ),
              ),
            ),
          )
          wanted in
      rw found good

  -- With the clients of main.go, where the database does not fail, the seven configured services can
  -- be asked to delete a user's data and answer with a status of the 200s, and the steps are of
  -- services that RequestDeletion names: one run of the worker deletes the user of the job that is
  -- due and completes the job.
  pub run_once-cleans_up :
      {S : Type 0} (env : Env) (w : World S) (j : JobRow)
      → ((n : ℕ) → env.fault n ≡ false)
      → All IsReachable service_urls
      → All (λ r. exists (text_eq r.service) deletion_services ≡ true) w.db.steps
      → next_ready (env.now w.event) w.db.jobs ≡ some j
      → ((run_once env (cleanup h cfg) w).0 ≡ ok tt)
        × (exists (has_id j.user_id) (run_once env (cleanup h cfg) w).1.db.users ≡ false)
        × IsCompleted j.id (run_once env (cleanup h cfg) w).1.db.jobs
  run_once-cleans_up env w j fine reachable named ready =
      run_once-finishes env (cleanup h cfg) w j fine ready
        (All-mono _ _ (λ r wanted. cleanup-IsServed reachable r.service wanted) w.db.steps named)
