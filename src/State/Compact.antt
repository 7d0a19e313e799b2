-- ===== src/State/Compact.antt =====
-- What `Checkpoint.compact` of src/agentpause/state.py does to a history.
use agentpause.Prelude.{
  ℕ, zero, suc, ◌+◌, ◌-◌, ◌<◌, ◌≤◌, false, List, [], ◌∷◌, map, ◌≡◌, refl, sym, ap, ◌∙◌, subst,
  arith, if◌then◌else◌, ltb, leb, length, length-append, length-take, take, drop,
}
use agentpause.Text.{Text, codes, text_eq}
use agentpause.World.{Message}
use agentpause.State.{
  Checkpoint, start_of, slice_index, slice, truncated, shorten, saved_by, old_messages, map_slice,
  compact_messages, compact,
}

-- The characters of a history.
abbrev pub chars : List Message → ℕ
chars [] = 0
chars (m ∷ ms) = length m.content + chars ms

abbrev pub roles : List Message → List Text
roles = map (λ m. m.role)

module _ (g : Message → Message) (keeps : (m : Message) → (g m).role ≡ m.role) where
  roles-map_slice : (s t : ℕ) (xs : List Message) → roles (map_slice g s t xs) ≡ roles xs
  unfolding map_slice
  roles-map_slice zero zero xs = refl
  roles-map_slice zero (suc t) [] = refl
  roles-map_slice zero (suc t) (x ∷ xs) = rw (keeps x, roles-map_slice zero t xs)
  roles-map_slice (suc s) zero xs = refl
  roles-map_slice (suc s) (suc t) [] = refl
  roles-map_slice (suc s) (suc t) (x ∷ xs) = rw (roles-map_slice s t xs)

module _ (g : Message → Message) where
  slice-map_slice :
      (s t : ℕ) (xs : List Message) → slice s t (map_slice g s t xs) ≡ map g (slice s t xs)
  unfolding map_slice
  slice-map_slice zero zero xs = refl
  slice-map_slice zero (suc t) [] = refl
  slice-map_slice zero (suc t) (x ∷ xs) = rw (slice-map_slice zero t xs)
  slice-map_slice (suc s) zero xs = refl
  slice-map_slice (suc s) (suc t) [] = refl
  slice-map_slice (suc s) (suc t) (x ∷ xs) = slice-map_slice s t xs

  -- Behind the slice nothing changes, and neither does anything before it.
  drop-map_slice : (s t : ℕ) (xs : List Message) → drop t (map_slice g s t xs) ≡ drop t xs
  unfolding map_slice
  drop-map_slice zero zero xs = refl
  drop-map_slice zero (suc t) [] = refl
  drop-map_slice zero (suc t) (x ∷ xs) = drop-map_slice zero t xs
  drop-map_slice (suc s) zero xs = refl
  drop-map_slice (suc s) (suc t) [] = refl
  drop-map_slice (suc s) (suc t) (x ∷ xs) = drop-map_slice s t xs

  take-map_slice : (s t : ℕ) (xs : List Message) → take s (map_slice g s t xs) ≡ take s xs
  unfolding map_slice
  take-map_slice zero t xs = refl
  take-map_slice (suc s) zero xs = refl
  take-map_slice (suc s) (suc t) [] = refl
  take-map_slice (suc s) (suc t) (x ∷ xs) = rw (take-map_slice s t xs)

  map_slice_twice :
      ((m : Message) → g (g m) ≡ g m)
      → (s t : ℕ) (xs : List Message) → map_slice g s t (map_slice g s t xs) ≡ map_slice g s t xs
  unfolding map_slice
  map_slice_twice e zero zero xs = refl
  map_slice_twice e zero (suc t) [] = refl
  map_slice_twice e zero (suc t) (x ∷ xs) = rw (e x, map_slice_twice e zero t xs)
  map_slice_twice e (suc s) zero xs = refl
  map_slice_twice e (suc s) (suc t) [] = refl
  map_slice_twice e (suc s) (suc t) (x ∷ xs) = rw (map_slice_twice e s t xs)

length-truncated : (n : ℕ) (s : Text) → 0 < n → n < length s → length (truncated n s) + 1 ≡ n
unfolding truncated
length-truncated zero s p h = absurd (omega arith)
length-truncated (suc n) s p h = omega (arith, length-take n s)

shorten-role : (n : ℕ) (m : Message) → (shorten n m).role ≡ m.role
unfolding shorten
shorten-role n m = ground arith

-- A message is brought down to `n` characters if it is longer, and left alone otherwise.
shorten-length :
    (n : ℕ) (m : Message)
    → 0 < n
    → length (shorten n m).content ≡ (if ltb n (length m.content) then n else length m.content)
unfolding shorten
shorten-length n m p =
    ground
      (arith, length-truncated n m.content p, length-append (truncated n m.content) (codes "…"))

shorten_twice : (n : ℕ) (m : Message) → 0 < n → shorten n (shorten n m) ≡ shorten n m
unfolding shorten
shorten_twice n m p =
    ground
      (arith, length-truncated n m.content p, length-append (truncated n m.content) (codes "…"))

module _ (n : ℕ) (positive : 0 < n) where
  chars-map_slice :
      (s t : ℕ) (xs : List Message)
      → chars (map_slice (shorten n) s t xs) + saved_by n (slice s t xs) ≡ chars xs
  unfolding map_slice
  chars-map_slice zero zero xs = omega arith
  chars-map_slice zero (suc t) [] = refl
  chars-map_slice zero (suc t) (x ∷ xs) =
      ground (arith, chars-map_slice zero t xs, shorten-length n x positive)
  chars-map_slice (suc s) zero xs = omega arith
  chars-map_slice (suc s) (suc t) [] = refl
  chars-map_slice (suc s) (suc t) (x ∷ xs) = omega (arith, chars-map_slice s t xs)

  saved_by-shorten : (xs : List Message) → saved_by n (map (shorten n) xs) ≡ 0
  saved_by-shorten [] = refl
  saved_by-shorten (x ∷ xs) = ground (arith, saved_by-shorten xs, shorten-length n x positive)

length-roles : (xs : List Message) → length (roles xs) ≡ length xs
length-roles [] = refl
length-roles (x ∷ xs) = ap suc (length-roles xs)

start_role : List Text → ℕ
start_role [] = 0
start_role (r ∷ rs) = if text_eq r (codes "system") then 1 else 0

start_of-roles : (xs : List Message) → start_of xs ≡ start_role (roles xs)
unfolding start_of start_role
start_of-roles [] = refl
start_of-roles (x ∷ xs) = refl

-- What the loop looks at does not change under it.
compact_messages_frame :
    (k n : ℕ) (ms : List Message)
    → let ms' = compact_messages k n ms in
      (roles ms' ≡ roles ms) × (length ms' ≡ length ms) × (start_of ms' ≡ start_of ms)
unfolding compact_messages
compact_messages_frame k n ms =
    let same =
      roles-map_slice (shorten n) (shorten-role n) (start_of ms) (slice_index (length ms) k) ms in
    (
      same,
      sym (length-roles _) ∙ ap length same ∙ length-roles ms,
      start_of-roles _ ∙ ap start_role same ∙ sym (start_of-roles ms),
    )

compact_again :
    (k n : ℕ) (ms : List Message)
    → 0 < n
    → compact_messages k n (compact_messages k n ms) ≡ compact_messages k n ms
unfolding compact_messages
compact_again k n ms p =
    let frame = compact_messages_frame k n ms in
    rw (frame.2, frame.1)
      (map_slice_twice (shorten n) (λ m. shorten_twice n m p) (start_of ms)
        (slice_index (length ms) k) ms)

saved_again :
    (k n : ℕ) (ms : List Message)
    → 0 < n
    → saved_by n (old_messages k (compact_messages k n ms)) ≡ 0
unfolding compact_messages
saved_again k n ms p =
    let frame = compact_messages_frame k n ms in
    let s = start_of ms in
    let t = slice_index (length ms) k in
    rw (frame.2, frame.1, slice-map_slice (shorten n) s t ms) (saved_by-shorten n p (slice s t ms))

module _ {X : Type 0} (keep_last max_chars : ℕ) (cp : Checkpoint X) where
  -- For a limit of at least one character, `compact` returns exactly the number of characters that
  -- the history has lost, and changes no role and no number of messages.
  pub compact_accounts :
      0 < max_chars
      → let (saved, cp') = compact keep_last max_chars cp in
        (chars cp'.messages + saved ≡ chars cp.messages)
        × (roles cp'.messages ≡ roles cp.messages)
        × (length cp'.messages ≡ length cp.messages)
  unfolding compact compact_messages
  compact_accounts p =
      let ms = cp.messages in
      let frame = compact_messages_frame keep_last max_chars ms in
      (
        chars-map_slice max_chars p (start_of ms) (slice_index (length ms) keep_last) ms,
        frame.0,
        frame.1,
      )

  -- If the history has at least `keep_last` messages, the last `keep_last` of them and a leading
  -- system message are as they were, and so is the rest of the checkpoint.
  pub compact_keeps :
      keep_last ≤ length cp.messages
      → let cp' = (compact keep_last max_chars cp).1 in
        let recent = length cp.messages - keep_last in
        (drop recent cp'.messages ≡ drop recent cp.messages)
        × (take (start_of cp.messages) cp'.messages ≡ take (start_of cp.messages) cp.messages)
        × (cp' ≡ record cp { messages = cp'.messages })
  unfolding compact compact_messages slice_index
  compact_keeps h =
      let ms = cp.messages in
      let recent = length ms - keep_last in
      let index : (if leb keep_last (length ms) then recent else length ms + length ms - keep_last)
          ≡ recent =
        ground arith in
      (
        rw index (drop-map_slice (shorten max_chars) (start_of ms) recent ms),
        take-map_slice (shorten max_chars) (start_of ms) _ ms,
        refl,
      )

  -- A second `compact` with the same settings saves nothing and changes nothing.
  pub compact_twice :
      0 < max_chars
      → let cp' = (compact keep_last max_chars cp).1 in compact keep_last max_chars cp' ≡ (0, cp')
  unfolding compact
  compact_twice p = λ i. (
    saved_again keep_last max_chars cp.messages p i,
    record cp { messages = compact_again keep_last max_chars cp.messages p i },
  )

short_index : (l k : ℕ) → l < k → k < l + l → (j : ℕ) × (slice_index l k ≡ suc j)
unfolding slice_index
short_index l k h1 h2 = (l + l - k - 1, ground arith)

short_saved :
    (k n : ℕ) (m : Message) (ms : List Message)
    → text_eq m.role (codes "system") ≡ false
    → length (m ∷ ms) < k
    → k < length (m ∷ ms) + length (m ∷ ms)
    → n < length m.content
    → 0 < saved_by n (old_messages k (m ∷ ms))
unfolding start_of
short_saved k n m ms r h1 h2 long =
    let (j, e) = short_index (length (m ∷ ms)) k h1 h2 in rw (r, e) (ground arith)

-- A history that is shorter than `keep_last`, but not half as short, is cut all the same, although all
-- of it belongs to the last `keep_last` messages: the index is negative and counts from the end.
-- A first message that is no system message and longer than the limit loses characters.
pub compact_cuts_short_history :
    {X : Type 0} (keep_last max_chars : ℕ) (m : Message) (ms : List Message) (cp : Checkpoint X)
    → cp.messages ≡ m ∷ ms
    → text_eq m.role (codes "system") ≡ false
    → length cp.messages < keep_last
    → keep_last < length cp.messages + length cp.messages
    → max_chars < length m.content
    → 0 < (compact keep_last max_chars cp).0
unfolding compact
compact_cuts_short_history k n m ms cp e r h1 h2 long =
    let len = ap length e in
    subst (λ xs. 0 < saved_by n (old_messages k xs)) (sym e)
      (short_saved k n m ms r (omega arith) (omega arith) long)
