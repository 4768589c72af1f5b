-- ===== src/Stores/Flow.antt =====
-- The dialogs of the stores page: the handlers of StoresPage.tsx and StoreFormDialog.tsx.
use go_drive.Base.{
  String, Bool, true, false, not, ◌||◌, Option, none, some, truthy, ◌≡◌, refl, arith,
}
use go_drive.Api.{Outcome, resolved, rejected, Failure}
use go_drive.Stores.Form.{Store, StoreForm, StoreBody, new_form, form_of, update_body}

pub record StoresState : Type 0 where
  pub create_open : Bool
  pub edit_target : Option Store
  pub delete_target : Option Store
  pub show_gdrive_help : Bool
  pub show_local_help : Bool
  pub form : StoreForm
  pub create_pending : Bool
  pub update_pending : Bool
  pub delete_pending : Bool

abbrev pub initial : StoresState
initial = record {
  create_open = false;
  edit_target = none;
  delete_target = none;
  show_gdrive_help = false;
  show_local_help = false;
  form = new_form;
  create_pending = false;
  update_pending = false;
  delete_pending = false;
}

-- A request of the dialogs; a creation carries the form that was on show, as its closure does.
pub data StoreRequest : Type 0 where
  create : StoreForm → StoreRequest
  update : String → StoreBody → StoreRequest
  delete : String → StoreRequest

unfoldable pub open_create : StoresState → StoresState
open_create s = record s { edit_target = none; create_open = true }

unfoldable pub open_edit : Store → StoresState → StoresState
open_edit store s = record s { form = form_of store; edit_target = some store; create_open = true }

-- `onOpenChange(false)` of the dialog, and its Cancel button.
unfoldable pub close_dialog : StoresState → StoresState
close_dialog s = record s { create_open = false; edit_target = none }

-- `disabled={!form.name || createPending || updatePending}`.
unfoldable submit_enabled : StoresState → Bool
submit_enabled s = not (not (truthy s.form.name) || s.create_pending || s.update_pending)

abbrev submit_as : Option Store → StoresState → StoresState × StoreRequest
submit_as none s = (record s { create_pending = true }, create s.form)
submit_as (some store) s =
    (record s { update_pending = true }, update store.id (update_body s.form))

-- `submit` up to its request.
unfoldable pub submit : StoresState → StoresState × StoreRequest
submit s = submit_as s.edit_target s

abbrev confirm_as : Option Store → StoresState → StoresState × Option StoreRequest
confirm_as none s = (s, none)
confirm_as (some store) s = (record s { delete_pending = true }, some (delete store.id))

-- `confirmDelete` up to its request.
unfoldable pub confirm_delete : StoresState → StoresState × Option StoreRequest
confirm_delete s = confirm_as s.delete_target s

-- What follows a request that succeeds.
abbrev pub on_success : StoreRequest → StoresState → StoresState
on_success (create form) s = record s { form = record form { name = "" }; create_open = false }
on_success (update id body) s = record s { create_open = false; edit_target = none }
on_success (delete id) s = record s { delete_target = none }

-- The `finally` of a request.
abbrev no_longer_pending : StoreRequest → StoresState → StoresState
no_longer_pending (create form) s = record s { create_pending = false }
no_longer_pending (update id body) s = record s { update_pending = false }
no_longer_pending (delete id) s = record s { delete_pending = false }

unfoldable pub answered {ℓ} : {T : Type ℓ} → StoreRequest → Outcome T → StoresState → StoresState
answered req (resolved d) s = no_longer_pending req (on_success req s)
answered req (rejected e) s = no_longer_pending req s

module _ (s : StoresState) (x : Failure) (no_create : s.create_pending ≡ false)
    (no_update : s.update_pending ≡ false) where
  failed_as :
      (t : Option Store)
      → answered {T = Unit {0}} (submit_as t s).1 (rejected x) (submit_as t s).0 ≡ s
  unfolding answered
  failed_as none = ground arith
  failed_as (some store) = ground arith

  -- When nothing is on its way and a submission fails, the dialog and its form are as they were
  -- before the button was pressed, so that the user can try again; creating or updating alike.
  pub submit_failed : answered {T = Unit {0}} (submit s).1 (rejected x) (submit s).0 ≡ s
  unfolding submit
  submit_failed = failed_as s.edit_target

-- Attaching a store after an edit that was cancelled starts from the settings of the store that was
-- edited, its name and configuration included: they are what the request to create a store sends.
create_after_edit :
    (s : StoresState) (store : Store)
    → (submit (open_create (close_dialog (open_edit store s)))).1 ≡ create (form_of store)
unfolding submit open_create close_dialog open_edit
create_after_edit s store = refl
