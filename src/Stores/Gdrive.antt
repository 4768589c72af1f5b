-- ===== src/Stores/Gdrive.antt =====
-- Connecting a Google Drive store: the two effects and `handleGdriveConnect` of StoresPage.tsx.
use go_drive.Base.{
  String, Bool, true, false, not, ◌&&◌, ◌||◌, Option, none, some, List, [], ◌∷◌, ◌++◌, any, truthy,
  ◌==◌, if◌then◌else◌,
}
use go_drive.Api.{Outcome, resolved, rejected}

-- The address after the return from the consent screen.
pub record SearchParams : Type 0 where
  pub gdrive : Option String
  pub state : Option String

-- `gdriveError` and `handledGdriveStates`, and the OAuth states for which the complete endpoint
-- was called, oldest first.
pub record Connect : Type 0 where
  pub gdrive_error : Bool
  pub handled : List String
  pub calls : List String

abbrev pub fresh : Connect
fresh = record { gdrive_error = false; handled = []; calls = [] }

-- `text ?? ''`.
abbrev pub or_empty : Option String → String
or_empty none = ""
or_empty (some s) = s

-- A text that may be null, as a condition.
abbrev pub is_given : Option String → Bool
is_given none = false
is_given (some s) = truthy s

abbrev pub has : List String → String → Bool
has states state = any (λ s. s == state) states

-- The call of the complete endpoint, unless the state was handled before.
unfoldable pub complete : String → Connect → Connect
complete state c =
    if has c.handled state
    then c
    else record c { handled = c.handled ++ state ∷ []; calls = c.calls ++ state ∷ [] }

-- The effect that runs when the address or the organization changes (twice in strict mode).
unfoldable pub on_params : SearchParams → Option String → Connect → Connect
unfolding complete
on_params p org_slug c =
    if not (is_given p.gdrive) || not (is_given org_slug)
    then c
    else if or_empty p.gdrive == "error"
    then record c { gdrive_error = true }
    else if not (or_empty p.gdrive == "connected")
    then c
    else complete (or_empty p.state) c

-- The answer of the complete endpoint.
unfoldable pub on_completed {ℓ} : {T : Type ℓ} → Outcome T → Connect → Connect
on_completed (resolved d) c = record c { gdrive_error = false }
on_completed (rejected e) c = record c { gdrive_error = true }

abbrev gdrive_connected_key : String
gdrive_connected_key = "gdrive:connected"

-- Whether the `storage` event of another tab refreshes the stores.
unfoldable on_storage : Option String → Option String → Option String → Bool
on_storage key new_value org_slug =
    (or_empty key == gdrive_connected_key) && is_given new_value && is_given org_slug

-- The window that `window.open` gave: none when it was blocked, and whether the user closed it.
abbrev Popup : Type 0
Popup = Option Bool

-- Where the consent screen opens, or that the connecting failed.
pub data Destination : Type 0 where
  in_popup in_page : String → Destination
  failed : Destination

unfoldable pub connect : Popup → Outcome String → Destination
connect popup (rejected e) = failed
connect none (resolved url) = in_page url
connect (some closed) (resolved url) = if closed then in_page url else in_popup url

-- What happens on the page.
pub data Event : Type 0 where
  params : SearchParams → Option String → Event
  completed : Outcome (Unit {0}) → Event
  pressed_connect : Event
  connected : Popup → Outcome String → Event

unfoldable pub step : Connect → Event → Connect
step c (params p org_slug) = on_params p org_slug c
step c (completed r) = on_completed r c
step c pressed_connect = record c { gdrive_error = false }
step c (connected popup (resolved url)) = c
step c (connected popup (rejected e)) = record c { gdrive_error = true }

unfoldable pub run : Connect → List Event → Connect
run c [] = c
run c (e ∷ es) = run (step c e) es
