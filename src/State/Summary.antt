-- ===== src/State/Summary.antt =====
-- What `summarize_with`, `fork` and the idempotency keys of src/agentpause/state.py guarantee.
use mathlib.Core.List.{append_assoc}
use agentpause.Prelude.{
  ℕ, ◌-◌, ◌≤◌, true, List, [], ◌∷◌, ◌++◌, ◌≡◌, ◌≢◌, refl, ap, ◌∙◌, arith, length, take, drop, inl,
  inr, ◌⊎◌,
}
use agentpause.Errors.{Error, Result, ok, raise}
use agentpause.Text.{Text, codes, text_eq_iff}
use agentpause.World.{Message}
use agentpause.State.{
  Checkpoint, new_idempotency_key, member, has_run, fork, start_of, slice_index, old_messages, note,
  transcript, with_note, summarize_old, summarize_with,
}

slice_index-le : (n k : ℕ) → k ≤ n → slice_index n k ≡ n - k
unfolding slice_index
slice_index-le n k h = ground arith

module _ {F X : Type 0} (summarizer : Text → Result F Text) (keep_last : ℕ)
    (cp : Checkpoint X) where
  summarize_old_lem :
      (summary : Text) (old : List Message)
      → old ≢ []
      → summarizer (transcript old) ≡ ok summary
      → let n = note (length old) summary in
        summarize_old summarizer keep_last old cp ≡ (
          ok (length (transcript old) - length n.content),
          record cp {
            messages =
                take (start_of cp.messages) cp.messages
                ++ (n ∷ drop (slice_index (length cp.messages) keep_last) cp.messages);
          },
        )
  unfolding summarize_old with_note
  summarize_old_lem summary [] h e = absurd (h refl)
  summarize_old_lem summary (m ∷ ms) h e = rw (e, summarize_old)

  summarize_old_unchanged :
      (old : List Message)
      → (old ≡ []) ⊎ ((e : Error F) × (summarizer (transcript old) ≡ raise e))
      → (summarize_old summarizer keep_last old cp).1 ≡ cp
  unfolding summarize_old
  summarize_old_unchanged [] h = refl
  summarize_old_unchanged (m ∷ ms) (inl h) = cc
  summarize_old_unchanged (m ∷ ms) (inr (e, h)) = rw (h, summarize_old)

  -- If there is something old to summarise, the history has at least `keep_last` messages and the
  -- summarizer answers, then the new history is the leading system message, one note that holds the
  -- summary and the last `keep_last` messages; nothing else of the checkpoint changes.
  pub summarize_with_lem :
      (summary : Text)
      → keep_last ≤ length cp.messages
      → old_messages keep_last cp.messages ≢ []
      → summarizer (transcript (old_messages keep_last cp.messages)) ≡ ok summary
      → let old = old_messages keep_last cp.messages in
        let n = note (length old) summary in
        summarize_with summarizer keep_last cp ≡ (
          ok (length (transcript old) - length n.content),
          record cp {
            messages =
                take (start_of cp.messages) cp.messages
                ++ (n ∷ drop (length cp.messages - keep_last) cp.messages);
          },
        )
  unfolding summarize_with
  summarize_with_lem summary h some_old e =
      let index : slice_index (length cp.messages) keep_last ≡ length cp.messages - keep_last =
        slice_index-le (length cp.messages) keep_last h in
      summarize_old_lem summary (old_messages keep_last cp.messages) some_old e
      ∙ ap
          (λ i. (
            ok (
                length (transcript (old_messages keep_last cp.messages))
                - length (note (length (old_messages keep_last cp.messages)) summary).content),
            record cp {
              messages =
                  take (start_of cp.messages) cp.messages
                  ++ (note (length (old_messages keep_last cp.messages)) summary
                      ∷ drop i cp.messages);
            },
          ))
          index

  -- If nothing is old, or the summarizer raises, the checkpoint is as it was.
  pub summarize_with_unchanged :
      (old_messages keep_last cp.messages ≡ [])
        ⊎ ((e : Error F) × (summarizer (transcript (old_messages keep_last cp.messages)) ≡ raise e))
      → (summarize_with summarizer keep_last cp).1 ≡ cp
  unfolding summarize_with
  summarize_with_unchanged h = summarize_old_unchanged (old_messages keep_last cp.messages) h

member-append_self : (key : Text) (ks : List Text) → member key (ks ++ (key ∷ [])) ≡ true
member-append_self key [] = rw ((text_eq_iff key key).1 refl)
member-append_self key (k ∷ ks) = rw (member-append_self key ks) (ground arith)

member-append_left :
    (key new : Text) (ks : List Text) → member key ks ≡ true → member key (ks ++ (new ∷ [])) ≡ true
member-append_left key new [] h = cc
member-append_left key new (k ∷ ks) h = ground (arith, member-append_left key new ks)

-- A key that was handed out is remembered, and so is every key from before; a fork under another id
-- remembers exactly the keys of its parent.
pub has_run-new_idempotency_key :
    {X : Type 0} (action nonce key id : Text) (cp : Checkpoint X)
    → let (new, cp') = new_idempotency_key action nonce cp in
      (has_run new cp' ≡ true)
      × (has_run key cp ≡ true → has_run key cp' ≡ true)
      × (has_run key (fork id cp) ≡ has_run key cp)
unfolding new_idempotency_key has_run fork
has_run-new_idempotency_key action nonce key id cp =
    let new = (new_idempotency_key action nonce cp).0 in
    (
      member-append_self new cp.idempotency_keys,
      member-append_left key new cp.idempotency_keys,
      refl,
    )

-- The session id does not separate the keys by itself: with the same random suffix, a session `s` that
-- runs the action `a:b` and a session `s:a` that runs `b` mint the same key.
pub new_idempotency_key_collides :
    {X : Type 0} (s a b nonce : Text) (cp : Checkpoint X)
    → (new_idempotency_key (a ++ (codes ":" ++ b)) nonce (fork s cp)).0
      ≡ (new_idempotency_key b nonce (fork (s ++ (codes ":" ++ a)) cp)).0
unfolding new_idempotency_key fork
new_idempotency_key_collides s a b nonce cp = simp append_assoc
