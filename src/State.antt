-- ===== src/State.antt =====
-- The class `Checkpoint` of src/agentpause/state.py: a session's logical state, and the two ways to
-- shrink its history. `X` is what `extra` holds.
pub mod Compact
pub mod Summary
mod Tests
use agentpause.Prelude.{
  ℕ, zero, suc, ◌+◌, ◌-◌, Bool, true, false, List, [], ◌∷◌, ◌++◌, map, if◌then◌else◌, ltb, leb,
  ◌||◌, length, take, drop,
}
use agentpause.Prelude.Int.{ℤ, pos}
use agentpause.Errors.{Result, ok, raise}
use agentpause.Text.{Text, codes, text_eq, join, decimal}
use agentpause.World.{Message}

pub record Checkpoint (X : Type 0) : Type 0 where
  pub session_id : Text
  pub step : ℕ
  pub messages : List Message
  pub idempotency_keys : List Text
  pub total_tokens_used : ℤ
  pub extra : X

-- `new_idempotency_key`, where `nonce` is the random suffix
pub new_idempotency_key : {X : Type 0} → Text → Text → Checkpoint X → Text × Checkpoint X
new_idempotency_key action nonce cp =
    let key = cp.session_id ++ (codes ":" ++ (action ++ (codes ":" ++ nonce))) in
    (key, record cp { idempotency_keys = cp.idempotency_keys ++ (key ∷ []) })

abbrev member : Text → List Text → Bool
member key [] = false
member key (k ∷ ks) = text_eq k key || member key ks

pub has_run : {X : Type 0} → Text → Checkpoint X → Bool
has_run key cp = member key cp.idempotency_keys

-- Values are immutable here, so a copy of a field is the field.
unfoldable pub fork : {X : Type 0} → Text → Checkpoint X → Checkpoint X
fork new_session_id cp = record cp { session_id = new_session_id }

-- `1 if messages and messages[0].get("role") == "system" else 0`
pub start_of : List Message → ℕ
start_of [] = 0
start_of (m ∷ ms) = if text_eq m.role (codes "system") then 1 else 0

-- Where the index `n - keep_last` falls in a list of `n`: a negative index counts from the end.
pub slice_index : ℕ → ℕ → ℕ
slice_index n keep_last = if leb keep_last n then n - keep_last else n + n - keep_last

-- `xs[start:stop]`
abbrev pub slice : {A : Type 0} → ℕ → ℕ → List A → List A
slice start stop xs = drop start (take stop xs)

-- `content[:max_chars - 1]`, where an index of -1 leaves out the last character
pub truncated : ℕ → Text → Text
truncated zero s = take (length s - 1) s
truncated (suc n) s = take n s

pub shorten : ℕ → Message → Message
shorten max_chars m =
    if ltb max_chars (length m.content)
    then record m { content = truncated max_chars m.content ++ codes "…" }
    else m

-- what the loop adds to `saved`
abbrev pub saved_by : ℕ → List Message → ℕ
saved_by max_chars [] = 0
saved_by max_chars (m ∷ ms) =
    (if ltb max_chars (length m.content) then length m.content - max_chars else 0)
    + saved_by max_chars ms

-- `messages[start:len(messages) - keep_last]`
abbrev pub old_messages : ℕ → List Message → List Message
old_messages keep_last ms = slice (start_of ms) (slice_index (length ms) keep_last) ms

-- the loop `for m in messages[start:stop]`, which changes those messages in place
pub map_slice : (Message → Message) → ℕ → ℕ → List Message → List Message
map_slice g zero zero xs = xs
map_slice g zero (suc t) [] = []
map_slice g zero (suc t) (x ∷ xs) = g x ∷ map_slice g zero t xs
map_slice g (suc s) zero xs = xs
map_slice g (suc s) (suc t) [] = []
map_slice g (suc s) (suc t) (x ∷ xs) = x ∷ map_slice g s t xs

pub compact_messages : ℕ → ℕ → List Message → List Message
compact_messages keep_last max_chars ms =
    map_slice (shorten max_chars) (start_of ms) (slice_index (length ms) keep_last) ms

unfoldable pub compact : {X : Type 0} → ℕ → ℕ → Checkpoint X → ℕ × Checkpoint X
compact keep_last max_chars cp = (
  saved_by max_chars (old_messages keep_last cp.messages),
  record cp { messages = compact_messages keep_last max_chars cp.messages },
)

-- `f"{role}: {content}"`
abbrev line : Message → Text
line m = m.role ++ (codes ": " ++ m.content)

-- the message that stands for `n` earlier ones
pub note : ℕ → Text → Message
note n summary = record {
  role = codes "system";
  content = codes "[Summary of " ++ (decimal n ++ (codes " earlier messages] " ++ summary));
}

abbrev pub transcript : List Message → Text
transcript ms = join (10 ∷ []) (map line ms)

pub with_note : {X : Type 0} → ℕ → List Message → Text → Checkpoint X → ℕ × Checkpoint X
with_note keep_last old summary cp =
    let ms = cp.messages in
    let n = note (length old) summary in
    (
      length (transcript old) - length n.content,
      record cp {
        messages = take (start_of ms) ms ++ (n ∷ drop (slice_index (length ms) keep_last) ms);
      },
    )

-- the body once `old` is known; the summarizer may raise, and then nothing has changed
pub summarize_old :
    {F X : Type 0}
    → (Text → Result F Text)
    → ℕ
    → List Message
    → Checkpoint X
    → Result F ℕ × Checkpoint X
summarize_old summarizer keep_last [] cp = (ok 0, cp)
summarize_old summarizer keep_last (m ∷ ms) cp = elim (summarizer (transcript (m ∷ ms))) [
  | ok summary ↦ let (saved, cp') = with_note keep_last (m ∷ ms) summary cp in (ok saved, cp')
  | raise e ↦ (raise e, cp)
]

pub summarize_with :
    {F X : Type 0} → (Text → Result F Text) → ℕ → Checkpoint X → Result F ℕ × Checkpoint X
summarize_with summarizer keep_last cp =
    summarize_old summarizer keep_last (old_messages keep_last cp.messages) cp
