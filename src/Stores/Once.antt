-- ===== src/Stores/Once.antt =====
-- The calls of the complete endpoint by the effects of web/src/pages/app/StoresPage.tsx.
use go_drive.Base.{
  String, Bool, true, false, not, ◌||◌, Option, List, [], ◌∷◌, ◌++◌, ◌==◌, ◌≡◌, ◌≢◌, refl, ap,
  arith, Bool-cases, inl, inr, All, DistinctBy, false→ne,
}
use go_drive.Api.{resolved, rejected}
use go_drive.Stores.Gdrive.{
  SearchParams, Connect, fresh, or_empty, is_given, has, complete, on_params, on_completed, Event,
  params, completed, pressed_connect, connected, step, run,
}

-- No text stands twice in the list.
abbrev Distinct : List String → Type 0
Distinct = DistinctBy (λ (s : String). s)

All-append :
    (s state : String) (states : List String)
    → s ≢ state
    → All (λ t. s ≢ t) states
    → All (λ t. s ≢ t) (states ++ state ∷ [])
All-append s state [] d h = (d, tt)
All-append s state (t ∷ states) d h = (h.0, All-append s state states d h.1)

append-Distinct :
    (state : String) (states : List String)
    → has states state ≡ false
    → Distinct states
    → Distinct (states ++ state ∷ [])
append-Distinct state [] n d = (tt, tt)
append-Distinct state (s ∷ states) n d = (
  All-append s state states (false→ne s state (ground (arith, n))) d.0,
  append-Distinct state states (ground (arith, n)) d.1,
)

-- The calls are those of the handled states.
pub record IsOnce (c : Connect) : Type 0 where
  pub same : c.calls ≡ c.handled
  pub distinct : Distinct c.handled

complete-IsOnce : (state : String) (c : Connect) → IsOnce c → IsOnce (complete state c)
unfolding complete
complete-IsOnce state c h = elim (Bool-cases (has c.handled state)) [
  | inl old ↦ rw old h
  | inr new ↦ rw new (record {
    same = ap (λ l. l ++ state ∷ []) h.same;
    distinct = append-Distinct state c.handled new h.distinct;
  })
]

error-IsOnce : (c : Connect) (b : Bool) → IsOnce c → IsOnce (record c { gdrive_error = b })
error-IsOnce c b h = record { same = h.same; distinct = h.distinct }

on_params-IsOnce :
    (p : SearchParams) (org : Option String) (c : Connect) → IsOnce c → IsOnce (on_params p org c)
unfolding on_params
on_params-IsOnce p org c h = elim (Bool-cases (not (is_given p.gdrive) || not (is_given org))) [
  | inl absent ↦ rw absent h
  | inr given ↦ rw given (elim (Bool-cases (or_empty p.gdrive == "error")) [
    | inl failed ↦ rw failed (error-IsOnce c true h)
    | inr fine ↦ rw fine (elim (Bool-cases (not (or_empty p.gdrive == "connected"))) [
      | inl other ↦ rw other h
      | inr reached ↦ rw reached (complete-IsOnce (or_empty p.state) c h)
    ])
  ])
]

step-IsOnce : (c : Connect) (e : Event) → IsOnce c → IsOnce (step c e)
unfolding step on_completed
step-IsOnce c (params p org) h = on_params-IsOnce p org c h
step-IsOnce c (completed (resolved d)) h = error-IsOnce c false h
step-IsOnce c (completed (rejected e)) h = error-IsOnce c true h
step-IsOnce c pressed_connect h = error-IsOnce c false h
step-IsOnce c (connected popup (resolved url)) h = h
step-IsOnce c (connected popup (rejected e)) h = error-IsOnce c true h

run-IsOnce : (c : Connect) (es : List Event) → IsOnce c → IsOnce (run c es)
unfolding run
run-IsOnce c [] h = h
run-IsOnce c (e ∷ es) h = run-IsOnce (step c e) es (step-IsOnce c e h)

-- While the page is mounted, whatever effects run, however often, and whatever is answered, the
-- complete endpoint is called at most once for each OAuth state, in the order in which the states
-- were first handled.
pub fresh-IsOnce : (es : List Event) → IsOnce (run fresh es)
fresh-IsOnce es = run-IsOnce fresh es (record { same = refl; distinct = tt })
