-- ===== src/Anthropic.antt =====
-- The class `AnthropicAdapter` of src/agentpause/adapters/anthropic.py: the Messages API on top of the
-- adapter of openai_compat.py, with breakpoints for the provider's prompt cache.
pub mod Messages
mod Tests
use agentpause.Prelude.{
  ℕ, Bool, true, false, Option, none, some, List, [], ◌∷◌, ◌++◌, if◌then◌else◌,
}
use agentpause.Prelude.Int.{ℤ, pos, ◌+ℤ◌}
use agentpause.Number.{Float}
use agentpause.Errors.{Result, ok, raise, foreign}
use agentpause.Text.{Text, codes, text_eq}
use agentpause.World.{Message, Clock}
use agentpause.Risk.{Budget}
use agentpause.Json.{
  Json, null, truth, int, real, str, array, object, Items, no_items, item, no_fields, Reading, get,
  either, to_int, read_int,
}
use agentpause.Slots.{bind}
use agentpause.Compat as Compat
use agentpause.Compat.Registry as Registry
use agentpause.Compat.{Post, Run, ran, sample_point, ping_message}
use agentpause.Compat.Header.{Headers}
use agentpause.Compat.Serving.{pinged, fresh_at, served_from, after_ping}

-- a text block, which may close the prefix that the provider is to cache
pub record Block : Type 0 where
  pub text : Text
  pub cache_control : Bool

-- the content of a message: a string, or a list of one block
pub data Content : Type 0 where
  plain : Text → Content
  blocks : Block → Content

pub record Sent : Type 0 where
  pub role : Text
  pub content : Content

-- The payload, but for the model and the extra fields.
pub record Request : Type 0 where
  pub max_tokens : ℕ
  pub messages : List Sent
  pub system : Option Block

abbrev pub unmarked : Message → Sent
unmarked m = record { role = m.role; content = plain m.content }

abbrev pub marked : Message → Sent
marked m = record {
  role = m.role;
  content = blocks (record { text = m.content; cache_control = true });
}

-- the messages, the last but one marked if the prompt is to be cached
unfoldable pub sent : Bool → List Message → List Sent
sent cache [] = []
sent cache (m ∷ []) = unmarked m ∷ []
sent cache (m ∷ n ∷ []) = (if cache then marked m else unmarked m) ∷ unmarked n ∷ []
sent cache (m ∷ n ∷ p ∷ rest) = unmarked m ∷ sent cache (n ∷ p ∷ rest)

-- the first message, if its role is `system`, and the others
unfoldable pub split_system : List Message → Option Text × List Message
split_system [] = (none, [])
split_system (m ∷ rest) =
    if text_eq m.role (codes "system") then (some m.content, rest) else (none, m ∷ rest)

unfoldable pub system_block : Bool → Option Text → Option Block
system_block cache none = none
system_block cache (some s) = some (record { text = s; cache_control = cache })

abbrev pub capped : ℕ → Option ℕ → ℕ
capped default_max none = default_max
capped default_max (some n) = n

-- the payload of `_call`
unfoldable pub request : Bool → ℕ → List Message → Option ℕ → Request
unfolding sent split_system system_block
request cache default_max messages max_tokens =
    let (system, rest) = split_system messages in
    record {
      max_tokens = capped default_max max_tokens;
      messages = sent cache rest;
      system = system_block cache system;
    }

pub record Adapter (F : Type 0) : Type 0 where
  -- the fields of `OpenAICompatAdapter`
  pub base : Compat.Adapter F
  pub cache_prompt : Bool
  pub default_max_tokens : ℕ
  pub cache_read_tokens : ℤ
  pub cache_write_tokens : ℤ

-- What a method leaves: its result, the adapter and the world.
pub record Left (F W A : Type 0) : Type 0 where
  pub result : Result F A
  pub adapter : Adapter F
  pub world : W

module _ {F : Type 0} ⦃f : Float F⦄ (r : Reading F) where
  -- `int(usage.get(key) or 0)`
  unfoldable pub usage_of : Text → Json F → Result F ℤ
  unfolding bind get either to_int
  usage_of key usage = bind (get key null usage) λ n. to_int r (either n (int (pos 0)))

  -- the counters of the cache, each of which is written before the next is read
  unfoldable pub tallied : Json F → Result F (Json F) → Adapter F → Result F (Json F) × Adapter F
  unfolding usage_of
  tallied body (raise e) a = (raise e, a)
  tallied body (ok usage) a = elim (usage_of (codes "cache_read_input_tokens") usage) [
    | raise e ↦ (raise e, a)
    | ok n ↦
        let a' = record a { cache_read_tokens = a.cache_read_tokens +ℤ n } in
        elim (usage_of (codes "cache_creation_input_tokens") usage) [
          | raise e ↦ (raise e, a')
          | ok k ↦ (ok body, record a' { cache_write_tokens = a.cache_write_tokens +ℤ k })
        ]
  ]

  -- `body.get("usage") or {}`
  unfoldable pub usage_in : Json F → Result F (Json F)
  unfolding bind get either
  usage_in body = bind (get (codes "usage") null body) λ usage. ok (either usage (object no_fields))

  unfoldable pub counted : Result F (Json F) → Adapter F → Result F (Json F) × Adapter F
  unfolding tallied usage_in
  counted (raise e) a = (raise e, a)
  counted (ok body) a = tallied body (usage_in body) a

  -- what `"".join` takes
  unfoldable pub joinable : Json F → Result F Text
  joinable (str s) = ok s
  joinable _ = raise foreign

  -- the text of a block, or the empty text of a block of another type
  unfoldable pub block_text : Json F → Json F → Result F Text
  unfolding bind get joinable
  block_text block (str kind) =
      if text_eq kind (codes "text")
      then bind (get (codes "text") (str []) block) joinable
      else ok []
  block_text block _ = ok []

  unfoldable pub joined_items : Items F → Result F Text
  unfolding bind get block_text
  joined_items no_items = ok []
  joined_items (item block rest) =
      bind (bind (get (codes "type") null block) (block_text block))
        λ s. bind (joined_items rest) λ t. ok (s ++ t)

  unfoldable pub joined : Json F → Result F Text
  unfolding joined_items
  joined (array xs) = joined_items xs
  joined _ = raise foreign

  -- True counts as 1
  abbrev numeral : Json F → Json F
  numeral (truth true) = int (pos 1)
  numeral (truth false) = int (pos 0)
  numeral null = null
  numeral (int n) = int n
  numeral (real x) = real x
  numeral (str s) = str s
  numeral (array xs) = array xs
  numeral (object d) = object d

  -- `int(a + b)`
  unfoldable pub summed : Json F → Json F → Result F ℤ
  unfolding read_int
  summed (int m) (int n) = ok (m +ℤ n)
  summed (int m) (real y) = read_int (r.int_of_real (f.add (f.of_int m) y))
  summed (real x) (int n) = read_int (r.int_of_real (f.add x (f.of_int n)))
  summed (real x) (real y) = read_int (r.int_of_real (f.add x y))
  summed (str s) (str t) = read_int (r.int_of (s ++ t))
  summed _ _ = raise foreign

  unfoldable pub used_in : Json F → Result F ℤ
  unfolding bind get either summed
  used_in usage = bind (get (codes "input_tokens") null usage) λ m.
      bind (get (codes "output_tokens") null usage)
        λ n. summed (numeral (either m (int (pos 0)))) (numeral (either n (int (pos 0))))

  unfoldable pub reply_in : Json F → Result F (Text × ℤ)
  unfolding bind get either joined usage_in used_in
  reply_in body = bind (get (codes "content") null body) λ content.
      bind (joined (either content (array no_items)))
        λ s. bind (usage_in body) λ usage. bind (used_in usage) λ used. ok (s, used)

module _ {F W : Type 0} ⦃f : Float F⦄ (r : Reading F) (until : Text → Result F (Option F))
    (post : Request → W → Result F (ℤ × Headers × Json F) × W) (clock : Clock F W) where
  -- the transport that `_post_and_check` sees
  unfoldable pub translated : Adapter F → Post F W
  unfolding request
  translated a messages max_tokens w =
      post (request a.cache_prompt a.default_max_tokens messages max_tokens) w

  -- `_call`
  unfoldable pub call : List Message → Option ℕ → Adapter F → W → Left F W (Json F)
  unfolding translated counted Compat.call
  call messages max_tokens a w =
      let run = Compat.call r until (translated a) clock messages max_tokens a.base w in
      let (result, a') = counted r run.result (record a { base = run.adapter }) in
      record { result = result; adapter = a'; world = run.world }

  unfoldable pub replied : Result F (Json F) → Adapter F → W → Left F W (Text × ℤ)
  unfolding reply_in sample_point
  replied (raise e) a w = record { result = raise e; adapter = a; world = w }
  replied (ok body) a w = record {
    result = reply_in r body;
    adapter = record a { base = record (a.base) { prev_ping = sample_point a.base } };
    world = w;
  }

  unfoldable pub backend : List Message → Adapter F → W → Left F W (Text × ℤ)
  unfolding replied call
  backend messages a w =
      let left = call messages none a w in replied left.result left.adapter left.world

  -- the methods that are inherited leave the fields of their own class alone
  abbrev inherited : {A : Type 0} → Adapter F → Run F W A → Left F W A
  inherited a run = record {
    result = run.result;
    adapter = record a { base = run.adapter };
    world = run.world;
  }

  -- `ping`, which is inherited and calls this class's `_call`
  unfoldable pub ping : Adapter F → W → Left F W Unit
  unfolding call pinged
  ping a w =
      let left = call ping_message (some 1) a w in
      let a' = left.adapter in
      inherited a'
        (pinged r until (translated a') clock a.base.prev_ping left.result a'.base left.world)

  unfoldable pub budget_if : Bool → Adapter F → W → Left F W (Budget F)
  unfolding ping served_from after_ping
  budget_if true a w = inherited a (served_from r until (translated a) clock a.base.cached a.base w)
  budget_if false a w =
      let left = ping a w in
      let a' = left.adapter in
      inherited a' (after_ping r until (translated a') clock left.result a'.base left.world)

  -- `budget`, which is inherited
  unfoldable pub budget : Adapter F → W → Left F W (Budget F)
  unfolding fresh_at budget_if
  budget a w =
      let (fresh, w') = fresh_at r until (translated a) clock a.base.max_age_s a.base.read_at w in
      budget_if fresh a w'

module _ {F : Type 0} ⦃f : Float F⦄ where
  unfoldable pub wrapped : Bool → ℕ → Result F (Compat.Adapter F) → Result F (Adapter F)
  wrapped cache default_max (raise e) = raise e
  wrapped cache default_max (ok base) = ok (record {
    base = base;
    cache_prompt = cache;
    default_max_tokens = default_max;
    cache_read_tokens = pos 0;
    cache_write_tokens = pos 0;
  })

  -- `__init__`
  unfoldable pub init : Option Text → Option Text → Option ℤ → F → Bool → ℕ → Result F (Adapter F)
  unfolding wrapped Registry.init
  init api_key env fallback max_age cache default_max =
      wrapped cache default_max (Registry.init api_key env fallback max_age)
