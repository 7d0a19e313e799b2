-- ===== src/State/Tests.antt =====
-- Runs of the checkpoint operations, and their theorems at a concrete history.
use agentpause.Prelude.{
  ℕ, ◌+◌, ◌-◌, ◌<◌, true, List, [], ◌∷◌, ◌++◌, ◌≡◌, refl, arith, length, take, drop, inr,
}
use agentpause.Prelude.Int.{pos}
use agentpause.Number.Fixed.{Milli}
use agentpause.Errors.{Result, ok, raise, foreign}
use agentpause.Text.{Text, codes}
use agentpause.World.{Message}
use agentpause.State.{
  Checkpoint, new_idempotency_key, has_run, fork, start_of, slice_index, truncated, shorten,
  map_slice, compact_messages, compact, old_messages, note, transcript, with_note, summarize_old,
  summarize_with,
}
use agentpause.State.Compact.{
  chars, roles, compact_accounts, compact_keeps, compact_twice, compact_cuts_short_history,
}
use agentpause.State.Summary.{
  summarize_with_lem, summarize_with_unchanged, has_run-new_idempotency_key,
  new_idempotency_key_collides,
}

abbrev message : Text → Text → Message
message r c = record { role = r; content = c }

abbrev history : List Message
history =
    message (codes "system") (codes "be brief")
    ∷ message (codes "user") (codes "a long question")
    ∷ message (codes "assistant") (codes "a long answer")
    ∷ message (codes "user") (codes "thanks a lot")
    ∷ []

abbrev saved : Checkpoint ℕ
saved = record {
  session_id = codes "task-1";
  step = 1;
  messages = history;
  idempotency_keys = [];
  total_tokens_used = pos 90;
  extra = 0;
}

abbrev short : Checkpoint ℕ
short = record saved { messages = drop 1 history }

program : Unit {0}
unfolding new_idempotency_key has_run fork start_of slice_index truncated shorten map_slice
    compact_messages compact note with_note summarize_old summarize_with
program = tt

compacts :
    (compact 1 6 saved).1.messages
    ≡ message (codes "system") (codes "be brief")
      ∷ message (codes "user") (codes "a lon…")
      ∷ message (codes "assistant") (codes "a lon…")
      ∷ message (codes "user") (codes "thanks a lot")
      ∷ []
unfolding program
compacts = refl

-- three messages, of which the last four are to be kept: two are cut
compacts_short : (compact 4 6 short).0 ≡ 16
unfolding program
compacts_short = refl

compact_accounts_example :
    let (n, cp') = compact 1 6 saved in
    (chars cp'.messages + n ≡ chars history)
    × (roles cp'.messages ≡ roles history)
    × (length cp'.messages ≡ 4)
compact_accounts_example = compact_accounts 1 6 saved (omega arith)

compact_keeps_example :
    let cp' = (compact 1 6 saved).1 in
    (drop 3 cp'.messages ≡ drop 3 history)
    × (take (start_of history) cp'.messages ≡ take (start_of history) history)
    × (cp' ≡ record saved { messages = cp'.messages })
compact_keeps_example = compact_keeps 1 6 saved (omega arith)

compact_twice_example : compact 1 6 (compact 1 6 saved).1 ≡ (0, (compact 1 6 saved).1)
compact_twice_example = compact_twice 1 6 saved (omega arith)

compact_cuts_short_history_example : 0 < (compact 4 6 short).0
compact_cuts_short_history_example =
    compact_cuts_short_history 4 6 (message (codes "user") (codes "a long question"))
      (drop 2 history) short refl refl (omega arith) (omega arith) (omega arith)

abbrev brief : Text → Result Milli Text
brief t = ok (codes "all well")

summarize_with_lem_example :
    let old = old_messages 1 history in
    let n = note (length old) (codes "all well") in
    summarize_with brief 1 saved ≡ (
      ok (length (transcript old) - length n.content),
      record saved { messages = take (start_of history) history ++ (n ∷ drop 3 history) },
    )
unfolding start_of slice_index
summarize_with_lem_example =
    summarize_with_lem brief 1 saved (codes "all well") (omega arith) (λ e. ground arith) refl

summarize_with_unchanged_example :
    (summarize_with {F = Milli} (λ t. raise foreign) 1 saved).1 ≡ saved
summarize_with_unchanged_example =
    summarize_with_unchanged {F = Milli} (λ t. raise foreign) 1 saved (inr (foreign, refl))

has_run-new_idempotency_key_example :
    let (new, cp') = new_idempotency_key (codes "mail") (codes "1f") saved in
    (has_run new cp' ≡ true)
    × (has_run (codes "k") saved ≡ true → has_run (codes "k") cp' ≡ true)
    × (has_run (codes "k") (fork (codes "b") saved) ≡ has_run (codes "k") saved)
has_run-new_idempotency_key_example =
    has_run-new_idempotency_key (codes "mail") (codes "1f") (codes "k") (codes "b") saved

new_idempotency_key_collides_example :
    (new_idempotency_key (codes "b:c") (codes "1f") (fork (codes "a") saved)).0
    ≡ (new_idempotency_key (codes "c") (codes "1f") (fork (codes "a:b") saved)).0
new_idempotency_key_collides_example =
    new_idempotency_key_collides (codes "a") (codes "b") (codes "c") (codes "1f") saved
