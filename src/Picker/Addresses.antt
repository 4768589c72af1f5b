-- ===== src/Picker/Addresses.antt =====
-- The object addresses of web/src/components/FilePicker.tsx.
use go_drive.Base.{
  ℕ, Option, none, some, List, [], ◌∷◌, ◌≡◌, ◌⊎◌, refl, inl, inr, true, Bool-cases, arith, ◌==◌,
}
use go_drive.Api.{resolved, rejected}
use go_drive.Picker.{
  File, Picker, Event, events, initial, handle_change, handle_clear, show, revoke, without, change,
  clear, same,
}

-- No address is in use but that of the preview.
abbrev pub IsTidy : Picker → Type 0
IsTidy s = (s.live ≡ []) ⊎ ((url : ℕ) × (s.preview_url ≡ some url) × (s.live ≡ url ∷ []))

without-nil : (url : Option ℕ) → without url [] ≡ []
without-nil none = refl
without-nil (some u) = refl

without-own : (url : ℕ) → without (some url) (url ∷ []) ≡ []
without-own url = let e : same url url ≡ true = ground arith in rw e refl

revoked : (s : Picker) → IsTidy s → (revoke s).live ≡ []
revoked s (inl h) = rw h (without-nil s.preview_url)
revoked s (inr h) = rw (h.1, h.2) (without-own h.0)

show-IsTidy : (f : File) (s : Picker) → s.live ≡ [] → IsTidy (show f s)
unfolding show
show-IsTidy f s h = elim (Bool-cases (f.mime_type == "application/pdf")) [
  | inl y ↦ rw y (inl h)
  | inr n ↦ rw n (inr (s.next, refl, rw h refl))
]

events-kept : (es : List Event) (s : Picker) → IsTidy s → IsTidy (events s es)
unfolding events handle_change handle_clear
events-kept [] s h = h
events-kept (change none ∷ es) s h = events-kept es (handle_change none s) (inl (revoked s h))
events-kept (change (some (f, resolved p)) ∷ es) s h =
    events-kept es (show p (revoke s)) (show-IsTidy p (revoke s) (revoked s h))
events-kept (change (some (f, rejected e)) ∷ es) s h = events-kept es (revoke s) (inl (revoked s h))
events-kept (clear ∷ es) s h = events-kept es (handle_clear s) (inl (revoked s h))

-- Whatever files are chosen, compressed or not, and cleared, one after the other, no address stays in
-- use but that of the preview.
pub events-IsTidy : (es : List Event) → IsTidy (events initial es)
events-IsTidy es = events-kept es initial (inl refl)
