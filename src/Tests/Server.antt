-- ===== src/Tests/Server.antt =====
-- Witnesses of the theorems on the configuration, the wiring and passwords.
use mathlib.Core.List.Permᴰ
use beebase_auth_service.Prelude.{
  All, ◌≡◌, refl, true, false, some, none, [], ◌∷◌, codes, exists, text_eq,
}
use beebase_auth_service.World.{ok}
use beebase_auth_service.Config.{Platform, Config, read, load}
use beebase_auth_service.Config.Required.{IsReport, load-IsReport}
use beebase_auth_service.Platform.Clients.{Transport}
use beebase_auth_service.Repository.Users.{has_id}
use beebase_auth_service.Repository.Deletion.{deletion_services}
use beebase_auth_service.Repository.DeletionJobs.{next_ready}
use beebase_auth_service.DeletionWorker.{run_once}
use beebase_auth_service.DeletionWorker.Progress.{IsCompleted}
use beebase_auth_service.Server.{cleanup}
use beebase_auth_service.Server.Cleanup.{IsReachable, service_urls, run_once-cleans_up}
use beebase_auth_service.Tests.{env, evaluation}
use beebase_auth_service.Tests.Jobs.{row, queued}

-- Every variable is set to the same text.
abbrev platform : Platform
platform = record {
  lookup_env = λ key. some (codes "x");
  parse_duration = λ v. none;
  parse_int = λ v. none;
  parse_bool = λ v. none;
  visit = λ entries. entries;
}

load-IsReport_example : IsReport platform (load platform tt)
load-IsReport_example = load-IsReport platform λ entries. Permᴰ.refl entries

abbrev config : Config
config = read platform tt

abbrev answering : Transport
answering = record {
  is_valid = λ url. elim url [ [] ↦ false | c ∷ rest ↦ true ];
  send = λ n request. some (record { status = 204; body = [] });
  count_items = λ body. none;
  uuid_string = λ id. id ∷ [];
}

due : next_ready (env.now queued.event) queued.db.jobs ≡ some row
unfolding evaluation
due = refl

media_named : exists (text_eq (codes "media")) deletion_services ≡ true
unfolding evaluation
media_named = refl

answering-IsReachable : IsReachable answering config (codes "x")
answering-IsReachable n user_id = (refl, record { status = 204; body = [] }, refl, refl)

all-IsReachable : All (IsReachable answering config) (service_urls answering config)
unfolding read
all-IsReachable = (
  answering-IsReachable,
  (
    answering-IsReachable,
    (
      answering-IsReachable,
      (
        answering-IsReachable,
        (answering-IsReachable, (answering-IsReachable, (answering-IsReachable, tt))),
      ),
    ),
  ),
)

run_once-cleans_up_example :
    ((run_once env (cleanup answering config) queued).0 ≡ ok tt)
    × (exists (has_id 1) (run_once env (cleanup answering config) queued).1.db.users ≡ false)
    × IsCompleted 20 (run_once env (cleanup answering config) queued).1.db.jobs
run_once-cleans_up_example =
    run_once-cleans_up answering config env queued row (λ n. refl) all-IsReachable (media_named, tt)
      due
