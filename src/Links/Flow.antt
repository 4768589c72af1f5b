-- ===== src/Links/Flow.antt =====
-- The dialogs of the links page: the state and the handlers of LinksPage.tsx, and the condition of
-- the button of LinkFormDialog.tsx.
use go_drive.Base.{
  ℕ, String, Bool, true, false, not, ◌&&◌, ◌||◌, Option, none, some, List, [], ◌∷◌, Dict, truthy,
  ◌≡◌, refl,
}
use go_drive.Api.{Outcome, resolved, rejected}
use go_drive.Links.Form.{
  LinkKind, share, upload, tracked, LinkForm, AnyLink, TrackedLink, empty_form, default_access,
  id_of, form_of,
}
use go_drive.Links.Bodies.{Json, build_create_body, build_update_body}

pub record Target : Type 0 where
  pub kind : LinkKind
  pub id : String

pub record LinksState : Type 0 where
  pub active_tab : LinkKind
  pub create_open : Bool
  pub edit_target : Option Target
  pub delete_target : Option Target
  pub form : LinkForm
  pub events_for : Option String

abbrev pub initial : LinksState
initial = record {
  active_tab = share;
  create_open = false;
  edit_target = none;
  delete_target = none;
  form = empty_form;
  events_for = none;
}

-- `resourcePath`.
abbrev resource_path : LinkKind → String
resource_path share = "share-links"
resource_path upload = "upload-links"
resource_path tracked = "tracked-links"

-- A request of one of the three mutations.
pub data LinkRequest : Type 0 where
  post : String → Dict Json → LinkRequest
  patch : String → String → Dict Json → LinkRequest
  delete : String → String → LinkRequest

unfoldable pub open_create : LinkKind → LinksState → LinksState
open_create kind s = record s {
  edit_target = none;
  form = record empty_form { access = default_access kind };
  create_open = true;
}

unfoldable pub open_edit : (ℕ → String) → LinkKind → AnyLink → LinksState → LinksState
open_edit print kind link s = record s {
  create_open = true;
  edit_target = some (record { kind = kind; id = id_of link });
  form = form_of print kind link;
}

unfoldable close_create_dialog : LinksState → LinksState
close_create_dialog s = record s { create_open = false; edit_target = none; form = empty_form }

-- `disabled={isPending || (kind !== 'share' && !form.name)}` of the dialog's button.
abbrev is_share : LinkKind → Bool
is_share share = true
is_share _ = false

unfoldable save_enabled : Bool → LinksState → Bool
save_enabled pending s = not (pending || (not (is_share s.active_tab) && not (truthy s.form.name)))

module _ (number : String → Json) (iso : String → String) where
  abbrev save_as : LinkKind → LinkForm → Option Target → LinkRequest
  save_as kind form none = post (resource_path kind) (build_create_body number iso kind form)
  save_as kind form (some t) =
      patch (resource_path kind) t.id (build_update_body number iso kind form)

  -- `handleSave`: the request that it makes, with the kind of the active tab.
  unfoldable pub handle_save : LinksState → LinkRequest
  handle_save s = save_as s.active_tab s.form s.edit_target

-- The request of the delete dialog's button.
abbrev pub delete_of : Option Target → Option LinkRequest
delete_of none = none
delete_of (some t) = some (delete (resource_path t.kind) t.id)

unfoldable pub confirm_delete : LinksState → Option LinkRequest
confirm_delete s = delete_of s.delete_target

-- `onSuccess` of the three mutations.
unfoldable pub on_success : LinkRequest → LinksState → LinksState
on_success (post path body) s = record s { create_open = false; form = empty_form }
on_success (patch path id body) s = record s { edit_target = none; form = empty_form }
on_success (delete path id) s = record s { delete_target = none }

-- What the user does on the page, and the answers to requests.
pub data Action : Type 0 where
  press_create : Action
  press_edit : LinkKind → AnyLink → Action
  press_delete : LinkKind → AnyLink → Action
  close_delete : Action
  cancel : Action
  change_form : LinkForm → Action
  choose_tab : LinkKind → Action
  show_events : TrackedLink → Action
  close_events : Action
  answered : LinkRequest → Outcome (Unit {0}) → Action

module _ (print : ℕ → String) where
  unfoldable pub act : LinksState → Action → LinksState
  unfolding open_create open_edit close_create_dialog on_success
  act s press_create = open_create s.active_tab s
  act s (press_edit kind link) = open_edit print kind link s
  act s (press_delete kind link) = record s {
    delete_target = some (record { kind = kind; id = id_of link });
  }
  act s close_delete = record s { delete_target = none }
  act s cancel = close_create_dialog s
  act s (change_form form) = record s { form = form }
  act s (choose_tab kind) = record s { active_tab = kind }
  act s (show_events link) = record s { events_for = some link.id }
  act s close_events = record s { events_for = none }
  act s (answered req (resolved _)) = on_success req s
  act s (answered req (rejected _)) = s

  unfoldable pub acts : LinksState → List Action → LinksState
  acts s [] = s
  acts s (a ∷ as') = acts (act s a) as'

-- When the server accepts an edit, the dialog stays open without its link: saving once more is a
-- request that creates a link, of the active tab's kind, from the empty form.
pub edit_then_save_creates :
    (print : ℕ → String) (number : String → Json) (iso : String → String) (s : LinksState)
    (link : AnyLink) (path id : String) (body : Dict Json)
    → let s' =
        acts print s
          (press_edit s.active_tab link ∷ answered (patch path id body) (resolved tt) ∷ []) in
      (s'.create_open ≡ true)
      × (handle_save number iso s'
          ≡ post
              (resource_path s.active_tab)
              (build_create_body number iso s.active_tab empty_form))
unfolding acts act handle_save
edit_then_save_creates print number iso s link path id body = (refl, refl)
