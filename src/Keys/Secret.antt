-- ===== src/Keys/Secret.antt =====
-- How long the card of the S3 keys shows a secret: S3KeysCard.tsx.
use go_drive.Base.{some, List, [], ◌∷◌, ◌++◌, ◌≡◌, refl, ◌⊎◌, ◌↔◌, inl, inr, ap, ◌∙◌, sym, All}
use go_drive.Api.{resolved, rejected}
use go_drive.Keys.{KeysCard, initial, CreateKeyData, Action, act, acts, answered_create}
use go_drive.Keys as Keys

-- Neither the dialog of a created key is dismissed nor another key created.
abbrev pub Keeps : Action → Type 0
Keeps Keys.dismiss_created = ⊥
Keeps (answered_create (resolved d)) = ⊥
Keeps _ = Unit

-- A creation was answered with the key, and neither has happened since.
abbrev pub IsNew : CreateKeyData → List Action → Type 0
IsNew d as' =
    (before : List Action) × (after : List Action) × (as'
      ≡ before ++ answered_create (resolved d) ∷ after)
    × All Keeps after

act-Keeps : (s : KeysCard) (a : Action) → Keeps a → (act s a).created_data ≡ s.created_data
unfolding act
act-Keeps s Keys.press_create k = refl
act-Keeps s Keys.close_create k = refl
act-Keeps s Keys.dismiss_created k = absurd k
act-Keeps s Keys.close_delete k = refl
act-Keeps s Keys.open_help k = refl
act-Keeps s Keys.close_help k = refl
act-Keeps s (Keys.type_name value) k = refl
act-Keeps s (Keys.choose item) k = refl
act-Keeps s (Keys.press_delete key) k = refl
act-Keeps s (answered_create (resolved d)) k = absurd k
act-Keeps s (answered_create (rejected e)) k = refl
act-Keeps s (Keys.answered_delete (resolved d)) k = refl
act-Keeps s (Keys.answered_delete (rejected e)) k = refl

acts-Keeps :
    (s : KeysCard) (as' : List Action) → All Keeps as' → (acts s as').created_data ≡ s.created_data
unfolding acts
acts-Keeps s [] k = refl
acts-Keeps s (a ∷ as') k = acts-Keeps (act s a) as' k.1 ∙ act-Keeps s a k.0

Keeps-cases :
    (d : CreateKeyData) (s : KeysCard) (a : Action)
    → (act s a).created_data ≡ some d
    → Keeps a ⊎ (a ≡ answered_create (resolved d))
unfolding act
Keeps-cases d s Keys.dismiss_created h = cc
Keeps-cases d s (answered_create (resolved e)) h = inr (made h)
  where
    made : some e ≡ some d → answered_create (resolved e) ≡ answered_create (resolved d)
    made h = cc
Keeps-cases d s Keys.press_create h = inl tt
Keeps-cases d s Keys.close_create h = inl tt
Keeps-cases d s Keys.close_delete h = inl tt
Keeps-cases d s Keys.open_help h = inl tt
Keeps-cases d s Keys.close_help h = inl tt
Keeps-cases d s (Keys.type_name value) h = inl tt
Keeps-cases d s (Keys.choose item) h = inl tt
Keeps-cases d s (Keys.press_delete key) h = inl tt
Keeps-cases d s (answered_create (rejected e)) h = inl tt
Keeps-cases d s (Keys.answered_delete o) h = inl tt

-- A key that is on show was there before, or has been created on the way.
shown_from :
    (d : CreateKeyData) (s : KeysCard) (as' : List Action)
    → (acts s as').created_data ≡ some d
    → ((s.created_data ≡ some d) × All Keeps as') ⊎ IsNew d as'
unfolding acts
shown_from d s [] h = inl (h, tt)
shown_from d s (a ∷ as') h = elim (shown_from d (act s a) as' h) [
  | inr n ↦ inr (a ∷ n.0, n.1, ap (λ l. a ∷ l) n.2, n.3)
  | inl p ↦ elim (Keeps-cases d s a p.0) [
    | inl k ↦ inl (sym (act-Keeps s a k) ∙ p.0, (k, p.1))
    | inr e ↦ inr ([], as', ap (λ x. x ∷ as') e, p.1)
  ]
]

acts-append : (s : KeysCard) (xs ys : List Action) → acts s (xs ++ ys) ≡ acts (acts s xs) ys
unfolding acts
acts-append s [] ys = refl
acts-append s (x ∷ xs) ys = acts-append (act s x) xs ys

new_shown :
    (d : CreateKeyData) (s : KeysCard) (after : List Action)
    → All Keeps after
    → (acts s (answered_create (resolved d) ∷ after)).created_data ≡ some d
unfolding acts act
new_shown d s after k = acts-Keeps _ after k

-- The card shows the secret of a key exactly from the answer to its creation until its dialog is
-- dismissed or another key is created; nothing else the visitor does, and no other answer, hides it
-- or brings it back.
pub created_data_iff :
    (d : CreateKeyData) (as' : List Action)
    → ((acts initial as').created_data ≡ some d) ↔ IsNew d as'
created_data_iff d as' = (
  λ h. elim (shown_from d initial as' h) [ inl p ↦ cc p.0 | inr n ↦ n ],
  λ n.
      rw (n.2, acts-append initial n.0 (answered_create (resolved d) ∷ n.1))
        (new_shown d (acts initial n.0) n.1 n.3),
)
