-- ===== src/Stores/Page.antt =====
-- The requests, the queries and the views of the page of stores: web/src/pages/app/StoresPage.tsx.
use Prim.Native.String
use go_drive.Base.{
  ℕ, String, Bool, true, false, not, ◌&&◌, Option, none, some, List, [], ◌∷◌, map, truthy, ltb,
  ◌==◌, if◌then◌else◌, ◌≡◌, ◌↔◌, refl, Bool-cases, inl, inr,
}
use go_drive.Api.{Outcome, resolved, rejected}
use go_drive.Api.Calls.{text, Call}
use go_drive.Files.Cache.{Key, IsPrefix, reaches}
use go_drive.Files.Cache as Cache
use go_drive.Stores.Form.{Store}

-- The five mutations of the page, the first three on one store.
pub data PageRequest : Type 0 where
  test_store set_primary trigger_ingest : String → PageRequest
  trigger_sync : PageRequest
  set_storage_mode : String → PageRequest

abbrev store_path : String → String → String
store_path id action = String.◌++◌ (String.◌++◌ (String.◌++◌ "/api/t/stores/" id) "/") action

unfoldable pub call_of : PageRequest → Call
call_of (test_store id) = record { path = store_path id "test"; method = "POST"; body = [] }
call_of (set_primary id) = record { path = store_path id "primary"; method = "POST"; body = [] }
call_of (trigger_ingest id) = record { path = store_path id "ingest"; method = "POST"; body = [] }
call_of trigger_sync = record { path = "/api/t/stores/sync"; method = "POST"; body = [] }
call_of (set_storage_mode mode) = record {
  path = "/api/t/storage-mode";
  method = "PATCH";
  body = ("storage_mode", text mode) ∷ [];
}

-- The keys of the two queries, and `invalidateStores`.
abbrev pub stores_key : String → Key
stores_key org = Cache.text "t" ∷ Cache.text "stores" ∷ Cache.text org ∷ []

abbrev pub sync_key : String → Key
sync_key org = Cache.text "t" ∷ Cache.text "stores" ∷ Cache.text "sync" ∷ Cache.text org ∷ []

unfoldable pub invalidate_stores : String → List Key
invalidate_stores org = stores_key org ∷ sync_key org ∷ []

pub data Toast : Type 0 where
  success error : String → Toast

-- What an answer leads to: the keys that are invalidated, and the messages.
pub record Effects : Type 0 where
  pub invalidated : List Key
  pub toasts : List Toast

unfoldable pub answered {ℓ} : {T : Type ℓ} → String → PageRequest → Outcome T → Effects
answered org (test_store id) (resolved d) = record {
  invalidated = invalidate_stores org;
  toasts = success "stores.testConnected" ∷ [];
}
answered org (test_store id) (rejected e) = record {
  invalidated = [];
  toasts = error "stores.testFailed" ∷ [];
}
answered org _ (resolved d) = record { invalidated = invalidate_stores org; toasts = [] }
answered org _ (rejected e) = record { invalidated = []; toasts = [] }

-- `onValueChange={(v) => v && setStorageMode.mutate(v)}`.
abbrev mode_request : String → Option PageRequest
mode_request v = if truthy v then some (set_storage_mode v) else none

unfoldable pub choose_storage_mode : Option String → Option PageRequest
choose_storage_mode none = none
choose_storage_mode (some v) = mode_request v

-- The answers of the two queries.
pub record StoresData : Type 0 where
  pub stores : List Store
  pub primary_store_id : Option String
  pub storage_mode : Option String
  pub gdrive_redirect_uri : Option String

pub record Run : Type 0 where
  pub id : String
  pub kind : String
  pub status : String
  pub processed_items : ℕ
  pub total_items : ℕ
  pub failed_items : ℕ

abbrev stores_of : Option StoresData → List Store
stores_of none = []
stores_of (some d) = d.stores

abbrev mode_or_default : Option String → String
mode_or_default none = "cumulative"
mode_or_default (some m) = m

unfoldable pub storage_mode : Option StoresData → String
storage_mode none = "cumulative"
storage_mode (some d) = mode_or_default d.storage_mode

-- A line of the list of runs, with the number of failures if there are any.
pub record RunLine : Type 0 where
  pub kind : String
  pub processed : ℕ
  pub total : ℕ
  pub failed : Option ℕ
  pub status : String
  pub completed : Bool

unfoldable pub run_line : Run → RunLine
run_line r = record {
  kind = r.kind;
  processed = r.processed_items;
  total = r.total_items;
  failed = if ltb 0 r.failed_items then some r.failed_items else none;
  status = r.status;
  completed = r.status == "completed";
}

-- The card of synchronization: a hint, or a button and the list of runs.
pub data SyncCard : Type 0 where
  disabled_hint : SyncCard
  runs : Bool → List RunLine → SyncCard

abbrev is_empty {ℓ} : {A : Type ℓ} → List A → Bool
is_empty [] = true
is_empty (x ∷ xs) = false

abbrev runs_of : Option (List Run) → List Run
runs_of none = []
runs_of (some rs) = rs

unfoldable pub sync_card : Bool → Option StoresData → Option (List Run) → SyncCard
sync_card sync_pending data' rs =
    if storage_mode data' == "replicate"
    then runs (not sync_pending) (map run_line (runs_of rs))
    else disabled_hint

-- What the page shows above its cards.
pub record Notices : Type 0 where
  pub pending : Bool
  pub load_error : Bool
  pub connect_error : Bool
  pub no_stores : Bool

unfoldable pub notices : Bool → Bool → Bool → Option StoresData → Notices
notices is_pending is_error gdrive_error data' = record {
  pending = is_pending;
  load_error = is_error;
  connect_error = gdrive_error;
  no_stores = is_empty (stores_of data') && not is_pending;
}

-- Whether an answer is a success.
abbrev pub is_resolved {ℓ} : {T : Type ℓ} → Outcome T → Bool
is_resolved (resolved d) = true
is_resolved (rejected e) = false

module _ (matches : Key → Key → Bool)
    (documented : (f k : Key) → (matches f k ≡ true) ↔ IsPrefix f k) where
  stores_refreshed :
      (org : String) → reaches matches (invalidate_stores org) (stores_key org) ≡ true
  unfolding invalidate_stores
  stores_refreshed org =
      rw ((documented (stores_key org) (stores_key org)).1 (refl, (refl, (refl, tt)))) refl

  sync_refreshed : (org : String) → reaches matches (invalidate_stores org) (sync_key org) ≡ true
  unfolding invalidate_stores
  sync_refreshed org = elim (Bool-cases (matches (stores_key org) (sync_key org))) [
    | inl y ↦ rw y refl
    | inr n ↦
        rw (n, (documented (sync_key org) (sync_key org)).1 (refl, (refl, (refl, (refl, tt))))) refl
  ]

  -- Whatever the page asks of the server, a success refreshes both of its queries and a failure none.
  pub answered_lem :
      (org : String) (r : PageRequest) (o : Outcome (Unit {0}))
      → (reaches matches (answered org r o).invalidated (stores_key org) ≡ is_resolved o)
        × (reaches matches (answered org r o).invalidated (sync_key org) ≡ is_resolved o)
  unfolding answered
  answered_lem org (test_store id) (rejected e) = (refl, refl)
  answered_lem org (set_primary id) (rejected e) = (refl, refl)
  answered_lem org (trigger_ingest id) (rejected e) = (refl, refl)
  answered_lem org trigger_sync (rejected e) = (refl, refl)
  answered_lem org (set_storage_mode mode) (rejected e) = (refl, refl)
  answered_lem org (test_store id) (resolved d) = (stores_refreshed org, sync_refreshed org)
  answered_lem org (set_primary id) (resolved d) = (stores_refreshed org, sync_refreshed org)
  answered_lem org (trigger_ingest id) (resolved d) = (stores_refreshed org, sync_refreshed org)
  answered_lem org trigger_sync (resolved d) = (stores_refreshed org, sync_refreshed org)
  answered_lem org (set_storage_mode mode) (resolved d) = (stores_refreshed org, sync_refreshed org)
