-- ===== src/Public/UploadLink.antt =====
-- The page of an upload link: web/src/pages/public/UploadLinkPage.tsx.
-- A `URLSearchParams` and a `FormData` are the lists of their pairs; F stands for the browser's files.
use go_drive.Base.{
  String, Bool, true, false, Option, none, some, List, [], ◌∷◌, Dict, put?, if◌then◌else◌, ℕ, suc,
  ◌+◌, ◌≤◌, length, arith, Bool-cases, inl, inr,
}
use go_drive.Api.{Outcome, resolved, rejected}
use go_drive.Public.Shared.{given}

-- A part of the multipart body.
pub data Field (F : Type 0) : Type 0 where
  text : String → Field F
  file : F → Field F

pub record PublicUpload (F : Type 0) : Type 0 where
  pub params : Dict String
  pub form : Dict (Field F)

-- The page; `pending` is whether an upload waits for its answer.
pub record UploadPage (F : Type 0) : Type 0 where
  pub file : Option F
  pub password : String
  pub pending : Bool

module _ {F : Type 0} where
  unfoldable pub upload_of : String → F → UploadPage F → PublicUpload F
  upload_of token f s = record {
    params = put? [] "password" (given s.password);
    form = ("token", text token) ∷ ("file", file f) ∷ [];
  }

  -- The button: `disabled={!file || upload.isPending}`, and `file && upload.mutate(file)`.
  abbrev press_with : Option F → String → UploadPage F → UploadPage F × Option (PublicUpload F)
  press_with none token s = (s, none)
  press_with (some f) token s =
      if s.pending then (s, none) else (record s { pending = true }, some (upload_of token f s))

  unfoldable pub press : String → UploadPage F → UploadPage F × Option (PublicUpload F)
  press token s = press_with s.file token s

  unfoldable pub settled {ℓ} : {T : Type ℓ} → Outcome T → UploadPage F → UploadPage F
  settled (resolved d) s = record s { file = none; pending = false }
  settled (rejected e) s = record s { pending = false }

-- What the visitor does, and the answers to uploads.
pub data Action (F : Type 0) : Type 0 where
  choose : Option F → Action F
  type_password : String → Action F
  upload : Action F
  answered : Outcome (Unit {0}) → Action F

module _ {F : Type 0} where
  abbrev logged : Option (PublicUpload F) → List (PublicUpload F) → List (PublicUpload F)
  logged none us = us
  logged (some u) us = u ∷ us

  -- The page after an action, with the uploads that were sent, the last first.
  unfoldable pub act :
      String
      → UploadPage F × List (PublicUpload F)
      → Action F
      → UploadPage F × List (PublicUpload F)
  unfolding settled press
  act token p (choose f) = (record (p.0) { file = f }, p.1)
  act token p (type_password value) = (record (p.0) { password = value }, p.1)
  act token p upload = ((press token p.0).0, logged (press token p.0).1 p.1)
  act token p (answered o) = (settled o p.0, p.1)

  unfoldable pub acts :
      String
      → UploadPage F × List (PublicUpload F)
      → List (Action F)
      → UploadPage F × List (PublicUpload F)
  acts token p [] = p
  acts token p (a ∷ as') = acts token (act token p a) as'

  abbrev pub answers : List (Action F) → ℕ
  answers [] = 0
  answers (answered o ∷ as') = suc (answers as')
  answers (_ ∷ as') = answers as'

  abbrev pub waiting : UploadPage F → ℕ
  waiting s = if s.pending then 1 else 0

  press_log :
      (f : Option F) (token : String) (s : UploadPage F) (us : List (PublicUpload F))
      → length (logged (press_with f token s).1 us) + waiting s
        ≤ length us + waiting (press_with f token s).0
  press_log none token s us = omega arith
  press_log (some f) token s us = elim (Bool-cases s.pending) [
    | inl y ↦ rw y (omega arith)
    | inr n ↦ rw n (omega arith)
  ]

  sent_while :
      (token : String) (p : UploadPage F × List (PublicUpload F)) (as' : List (Action F))
      → length (acts token p as').1 + waiting p.0 ≤ length p.1 + answers as' + 1
  unfolding acts act press settled
  sent_while token p [] = ground arith
  sent_while token p (choose f ∷ as') = sent_while token (record (p.0) { file = f }, p.1) as'
  sent_while token p (type_password value ∷ as') =
      sent_while token (record (p.0) { password = value }, p.1) as'
  sent_while token p (upload ∷ as') =
      let q = press_with p.0.file token p.0 in
      let rest = sent_while token (q.0, logged q.1 p.1) as' in
      let now = press_log p.0.file token p.0 p.1 in omega arith
  sent_while token p (answered (resolved d) ∷ as') =
      let rest = sent_while token (record (p.0) { file = none; pending = false }, p.1) as' in
      ground (arith, rest)
  sent_while token p (answered (rejected e) ∷ as') =
      let rest = sent_while token (record (p.0) { pending = false }, p.1) as' in
      ground (arith, rest)

  -- However often the button is pressed, at most one upload waits for its answer: no more uploads have
  -- been sent than answers have come, but for one.
  pub sent_bound :
      (token : String) (s : UploadPage F) (as' : List (Action F))
      → length (acts token (s, []) as').1 ≤ answers as' + 1
  sent_bound token s as' = let h = sent_while token (s, []) as' in omega arith
