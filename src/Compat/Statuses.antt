-- ===== src/Compat/Statuses.antt =====
-- How src/agentpause/adapters/openai_compat.py maps an HTTP status to a result or a typed error.
use agentpause.Prelude.{
  ℕ, Bool, true, false, ◌&&◌, ◌||◌, Option, none, some, List, ◌≡◌, ◌≢◌, inl, inr, refl, Bool-cases,
  if◌then◌else◌,
}
use agentpause.Prelude.Int.{ℤ, pos, leb_ℤ}
use agentpause.Number.{Float}
use agentpause.Errors.{Error, Result, ok, raise, rate_limit_hit, backend_error, transient, verdict}
use agentpause.Text.{Text}
use agentpause.World.{Message, Clock}
use agentpause.Risk.{Budget}
use agentpause.Json.{Json, Reading}
use agentpause.Slots.{bind}
use agentpause.Compat.Header.{Headers, limits_of, retry_after}
use agentpause.Compat.{Post, Adapter, status_of, absorbed, checked, answered, call}

-- which of the three a status is: a success, a failure to try again, or a failure of the request
pub data Class : Type 0 where
  fine retry give_up : Class

abbrev limited : ℤ → Bool
limited status = leb_ℤ (pos 429) status && leb_ℤ status (pos 429)

abbrev failing : ℤ → Bool
failing status = leb_ℤ (pos 500) status && leb_ℤ status (pos 599)

abbrev pub class_of : ℤ → Class
class_of status =
    if limited status || failing status
    then retry
    else if leb_ℤ (pos 400) status
    then give_up
    else fine

module _ {F : Type 0} ⦃f : Float F⦄ where
  -- A rate limit or a failure of the provider: another try may help.
  abbrev pub IsTransient : {A : Type 0} → Result F A → Type 0
  IsTransient res = (e : Error F) × (res ≡ raise e) × (verdict e ≡ transient)

  abbrev pub IsFatal : {A : Type 0} → Result F A → Type 0
  IsFatal res = (e : Error F) × (res ≡ raise e) × (verdict e ≢ transient)

  -- A success has the body as its result, 429 and 5xx are transient errors, and any other status from
  -- 400 on is an error that another try does not help.
  abbrev pub Classified : Class → Json F → Result F (Json F) → Type 0
  Classified fine body res = res ≡ ok body
  Classified retry body res = IsTransient res
  Classified give_up body res = IsFatal res

  status_of-Classified :
      (status : ℤ) (ra : Option F) (body : Json F)
      → Classified (class_of status) body (status_of status (ok ra) body)
  unfolding status_of bind
  status_of-Classified status ra body = elim (Bool-cases (limited status)) [
    | inl h ↦ rw h (rate_limit_hit ra, refl, refl)
    | inr h ↦ elim (Bool-cases (failing status)) [
      | inl g ↦ rw (h, g) (backend_error true, refl, refl)
      | inr g ↦ elim (Bool-cases (leb_ℤ (pos 400) status)) [
        | inl k ↦ rw (h, g, k) (backend_error false, refl, λ e. cc)
        | inr k ↦ rw (h, g, k) refl
      ]
    ]
  ]

module _ {F W : Type 0} ⦃f : Float F⦄ (r : Reading F) (until : Text → Result F (Option F))
    (post : Post F W) (clock : Clock F W) where
  absorbed_result :
      (found : Option (Budget F)) (a : Adapter F) (w : W)
      → (absorbed r until post clock (ok found) a w).result ≡ ok tt
  unfolding absorbed
  absorbed_result none a w = refl
  absorbed_result (some b) a w = refl

  -- Every answer of the provider ends in exactly one way, by its status: the body for a success, a
  -- transient error for 429 and 5xx, and a fatal one for every other status from 400 on. The headers
  -- of the answer can be read.
  pub call-Classified :
      (messages : List Message) (max_tokens : Option ℕ) (a : Adapter F) (w w' : W) (status : ℤ)
      (headers : Headers) (body : Json F) (found : Option (Budget F)) (ra : Option F)
      → post messages max_tokens w ≡ (ok (status, headers, body), w')
      → limits_of r until headers ≡ ok found
      → retry_after r headers ≡ ok ra
      → Classified (class_of status) body (call r until post clock messages max_tokens a w).result
  unfolding call answered checked bind
  call-Classified messages max_tokens a w w' status headers body found ra sent read hint =
      let run = absorbed r until post clock (ok found) a w' in
      rw (sent, answered, read, absorbed_result found a w', hint)
        (status_of-Classified status ra body)
