-- ===== src/Slots.antt =====
-- The class `LlamaCppSlots` of src/agentpause/llamacpp_kv.py: the HTTP client of a llama.cpp server.
-- `get_fn` and `post_fn` are its transport, over the state `S` of the server and its directory.
mod Tests
use agentpause.Prelude.{
  ℕ, Bool, true, false, Option, none, some, List, [], ◌∷◌, ◌++◌, ◌==◌, if◌then◌else◌,
}
use agentpause.Prelude.Int.{ℤ, pos}
use agentpause.Number.{Float}
use agentpause.Errors.{Result, ok, raise, kv_error, foreign}
use agentpause.Text.{Text, codes, decimal}
use agentpause.Json.{
  Json, Items, null, int, str, array, object, no_items, item, no_fields, Reading, find, get, text,
  holds, either, to_int, equals,
}

pub record LlamaCppSlots (F S : Type 0) : Type 0 where
  -- `get_fn(url)`
  pub get_fn : Text → S → Result F (Json F) × S
  -- `post_fn(url, {"filename": filename})`
  pub post_fn : Text → Text → S → Result F (Json F) × S

-- `s.rstrip("/")`
unfoldable pub rstrip : Text → Text
rstrip [] = []
rstrip (c ∷ s) = go c (rstrip s)
  where
    go : ℕ → Text → Text
    go c [] = if c == 47 then [] else c ∷ []
    go c (d ∷ t) = c ∷ d ∷ t

module _ {F : Type 0} where
  -- `except Exception as exc: raise KVError`
  unfoldable pub as_kv_error : {A : Type 0} → Result F A → Result F A
  as_kv_error (ok a) = ok a
  as_kv_error (raise e) = raise kv_error

  unfoldable pub bind : {A B : Type 0} → Result F A → (A → Result F B) → Result F B
  bind (ok a) g = g a
  bind (raise e) g = raise e

module _ {F S : Type 0} ⦃f : Float F⦄ (r : Reading F) (slots : LlamaCppSlots F S) where
  unfoldable pub get_props : Text → S → Result F (Json F) × S
  unfolding as_kv_error
  get_props base_url s =
      let (body, s') = slots.get_fn (rstrip base_url ++ codes "/props") s in (as_kv_error body, s')

  -- the model named by a `/props` body: `model_path`, or the `model` of the default settings
  unfoldable pub model_of : Json F → Result F Text
  unfolding bind get either text holds
  model_of body = bind (get (codes "model_path") null body) λ path.
      if holds path
      then ok (text r path)
      else bind (get (codes "default_generation_settings") (object no_fields) body) λ settings.
        bind (get (codes "model") null (either settings (object no_fields)))
          λ model. ok (text r (either model (str [])))

  unfoldable pub fingerprint : Text → S → Result F Text × S
  unfolding bind
  fingerprint base_url s = let (body, s') = get_props base_url s in (bind body model_of, s')

  -- `body.get("slots", body)` of a dict
  unfoldable pub unwrap : Json F → Json F
  unfolding find
  unwrap (object d) = elim (find (codes "slots") d) [ none ↦ object d | some v ↦ v ]
  unwrap body = body

  -- `isinstance(slot, dict) and slot.get("id") == id_slot`
  unfoldable pub has_id : ℤ → Json F → Bool
  unfolding find equals
  has_id id_slot (object d) = elim (find (codes "id") d) [
    | none ↦ false
    | some v ↦ equals id_slot v
  ]
  has_id id_slot _ = false

  -- the loop over the entries
  unfoldable pub slot_in : ℤ → Items F → Result F (Json F)
  unfolding has_id
  slot_in id_slot no_items = raise kv_error
  slot_in id_slot (item slot rest) =
      let later = slot_in id_slot rest in if has_id id_slot slot then ok slot else later

  unfoldable pub pick : ℤ → Json F → Result F (Json F)
  pick id_slot (array slots) = slot_in id_slot slots
  pick id_slot _ = raise kv_error

  unfoldable pub get_slot : Text → ℤ → S → Result F (Json F) × S
  unfolding bind as_kv_error
  get_slot base_url id_slot s =
      let (body, s') = slots.get_fn (rstrip base_url ++ codes "/slots") s in
      (bind (as_kv_error body) λ b. pick id_slot (unwrap b), s')

  -- the URL of an action on a slot
  abbrev pub action_url : Text → ℕ → Text → Text
  action_url base_url id_slot action =
      rstrip base_url ++ (codes "/slots/" ++ (decimal id_slot ++ (codes "?action=" ++ action)))

  -- `int(body.get(counter, 0))`, which is not inside the `try`
  unfoldable pub counted : Text → Json F → Result F ℤ
  unfolding bind get to_int
  counted counter body = bind (get counter (int (pos 0)) body) (to_int r)

  unfoldable pub save_slot : Text → ℕ → Text → S → Result F ℤ × S
  unfolding bind as_kv_error
  save_slot base_url id_slot filename s =
      let (body, s') = slots.post_fn (action_url base_url id_slot (codes "save")) filename s in
      (bind (as_kv_error body) (counted (codes "n_saved")), s')

  unfoldable pub restore_slot : Text → ℕ → Text → S → Result F ℤ × S
  unfolding bind as_kv_error
  restore_slot base_url id_slot filename s =
      let (body, s') = slots.post_fn (action_url base_url id_slot (codes "restore")) filename s in
      (bind (as_kv_error body) (counted (codes "n_restored")), s')
