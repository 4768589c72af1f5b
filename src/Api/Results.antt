-- ===== src/Api/Results.antt =====
-- How the response envelope decides the outcome of a call of web/src/lib/api.ts.
use go_drive.Base.{
  String, ◌≡◌, ◌≢◌, ◌↔◌, true, Option, none, some, arith, eq_iff, refl, inl, inr, Bool-cases,
}
use go_drive.Api.{
  Response, Body, malformed, null_body, object, Failure, error, Outcome, resolved, rejected, is_ok,
  request_failed, api_result, unwrap, api_failure, message_or_default, or_text,
}

-- No failure is reported: the text is absent or empty.
abbrev pub Silent : Option String → Type 0
Silent none = Unit
Silent (some m) = m ≡ ""

pub request_failed-ne : request_failed ≢ ""
request_failed-ne = λ e. ground (arith, eq_iff request_failed "")

or_text-ne : (s other : String) → other ≢ "" → or_text s other ≢ ""
or_text-ne s other h = λ e. ground (arith, h, eq_iff s "")

pub message-ne : (m : Option String) → message_or_default m ≢ ""
message-ne none = request_failed-ne
message-ne (some m) = or_text-ne m request_failed request_failed-ne

error-injective : {m n : String} → error m ≡ error n → m ≡ n
error-injective h = cc

rejected-injective {ℓ} :
    (T : Type ℓ) {e f : Failure} → ◌≡◌ {A = Outcome T} (rejected e) (rejected f) → e ≡ f
rejected-injective T h = cc

module _ {T : Type 0} where
  unwrap_iff :
      (b : Body T) (d : Option T)
      → (unwrap b ≡ resolved d) ↔ ((m : Option String) × (b ≡ object m d) × Silent m)
  unfolding unwrap
  unwrap_iff malformed d = (λ h. cc, λ h. cc (h.1))
  unwrap_iff null_body d = (λ h. cc, λ h. cc (h.1))
  unwrap_iff (object none e) d = (λ h. (none, cc, tt), λ h. cc (h.1))
  unwrap_iff (object (some m) e) d = (
    λ h. (some m, ground (arith, eq_iff m ""), ground (arith, eq_iff m "")),
    λ h. silent h.0 h.1 h.2,
  )
    where
      silent :
          (n : Option String)
          → object (some m) e ≡ object n d
          → Silent n
          → unwrap (object (some m) e) ≡ resolved d
      silent none p q = cc
      silent (some n) p q = ground (arith, eq_iff m "")

  -- A call resolves exactly when the status is a success and the body is an object that reports no
  -- failure; it resolves to that object's payload.
  pub api_result_resolved_iff :
      (res : Response T) (d : Option T)
      → (api_result res ≡ resolved d)
        ↔ ((is_ok res.status ≡ true) × ((m : Option String) × (res.body ≡ object m d) × Silent m))
  unfolding api_result
  api_result_resolved_iff res d = elim (Bool-cases (is_ok res.status)) [
    | inl good ↦
        rw good (λ h. (refl, (unwrap_iff res.body d).0 h), λ h. (unwrap_iff res.body d).1 h.1)
    | inr bad ↦ rw bad (λ h. cc, λ h. cc (h.0))
  ]

  api_failure_message : (b : Body T) (m : String) → api_failure b ≡ error m → m ≢ ""
  unfolding api_failure
  api_failure_message malformed m h = rw (← error-injective h) request_failed-ne
  api_failure_message null_body m h = cc
  api_failure_message (object n d) m h = rw (← error-injective h) (message-ne n)

  unwrap_message : (b : Body T) (m : String) → unwrap b ≡ rejected (error m) → m ≢ ""
  unfolding unwrap
  unwrap_message malformed m h e = cc
  unwrap_message null_body m h e = cc
  unwrap_message (object none d) m h e = cc
  unwrap_message (object (some n) d) m h e = ground (arith, eq_iff m "", eq_iff n "")

  -- An error that the program raises itself never has an empty message.
  pub api_result_message :
      (res : Response T) (m : String) → api_result res ≡ rejected (error m) → m ≢ ""
  unfolding api_result
  api_result_message res m h = elim (Bool-cases (is_ok res.status)) [
    | inl good ↦ unwrap_message res.body m (rw good at h)
    | inr bad ↦ api_failure_message res.body m (rejected-injective (Option T) (rw bad at h))
  ]
