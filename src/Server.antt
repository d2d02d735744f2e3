-- ===== src/Server.antt =====
-- The wiring of cmd/server/main.go: the clients that the deletion worker calls, by the name of their
-- service, and the requester of clean-ups that the service is given.
pub mod Cleanup
use beebase_auth_service.Prelude.{
  ℕ, Bool, Option, none, some, List, [], ◌∷◌, Text, codes, ◌==◌, text_eq, if◌then◌else◌,
}
use beebase_auth_service.World.{Result}
use beebase_auth_service.Platform.Clients
use beebase_auth_service.Platform.Clients.{Transport}
use beebase_auth_service.Config.{Config}
use beebase_auth_service.DeletionWorker.{Client, Clients}

-- `strings.TrimRight(baseURL, "/")`.
abbrev pub drop_slash : ℕ → Text → Text
drop_slash c [] = if c == 47 then [] else c ∷ []
drop_slash c (d ∷ rest) = c ∷ d ∷ rest

abbrev pub trim_slashes : Text → Text
trim_slashes [] = []
trim_slashes (c ∷ rest) = drop_slash c (trim_slashes rest)

-- The entry of a map literal.
abbrev pub lookup : Text → List (Text × Client) → Option Client
lookup name [] = none
lookup name ((key, client) ∷ entries) =
    if text_eq name key then some client else lookup name entries

module _ (h : Transport) (cfg : Config) where
  -- `deletionclient.New(url, cfg.InternalServiceToken)`.
  abbrev pub deletion_client : Text → Client
  deletion_client url = Clients.delete_user_data h (trim_slashes url) cfg.internal_service_token

  abbrev pub cleanup_entries : List (Text × Client)
  cleanup_entries =
      (codes "apiary", deletion_client cfg.apiary_service_url)
      ∷ (codes "hive", deletion_client cfg.hive_service_url)
      ∷ (codes "inspection", deletion_client cfg.inspection_service_url)
      ∷ (codes "harvest", deletion_client cfg.harvest_service_url)
      ∷ (codes "media", deletion_client cfg.media_service_url)
      ∷ (codes "notification", deletion_client cfg.notification_service_url)
      ∷ (codes "subscription", deletion_client cfg.subscription_service_url)
      ∷ []

  -- The map `cleanup` of the worker.
  unfoldable pub cleanup : Clients
  cleanup name = lookup name cleanup_entries

  -- `sessionCleanupRequester.DeleteSessionData`.
  abbrev pub delete_session_data : ℕ → ℕ → ℕ → Result (Unit {0})
  delete_session_data n user_id session_id =
      Clients.delete_session_data h (trim_slashes cfg.notification_service_url)
        cfg.internal_service_token n user_id session_id
