-- ===== src/Anthropic/Messages.antt =====
-- The payload that src/agentpause/adapters/anthropic.py makes of a conversation.
use agentpause.Prelude.{
  ℕ, Bool, true, false, Bool-cases, inl, inr, List, [], ◌∷◌, ◌++◌, map, Option, none, some, ◌≡◌,
  refl,
}
use agentpause.Text.{Text, codes, text_eq, text_eq_iff}
use agentpause.World.{Message}
use agentpause.Anthropic.{
  Block, Content, plain, blocks, Sent, Request, unmarked, marked, sent, split_system, system_block,
  request,
}

-- what is said, without the breakpoints
abbrev said : Content → Text
said (plain s) = s
said (blocks b) = b.text

abbrev heard : Sent → Message
heard m = record { role = m.role; content = said m.content }

abbrev told : Option Block → List Message → List Message
told none rest = rest
told (some b) rest = record { role = codes "system"; content = b.text } ∷ rest

-- the conversation in a payload
abbrev pub conversation : Request → List Message
conversation q = told q.system (map heard q.messages)

heard-sent : (cache : Bool) (messages : List Message) → map heard (sent cache messages) ≡ messages
unfolding sent
heard-sent cache [] = refl
heard-sent cache (m ∷ []) = refl
heard-sent true (m ∷ n ∷ []) = refl
heard-sent false (m ∷ n ∷ []) = refl
heard-sent cache (m ∷ n ∷ p ∷ rest) = rw (heard-sent cache (n ∷ p ∷ rest)) refl

-- The translation loses nothing: without the breakpoints, the system block and the messages of the
-- payload are the conversation that was passed, in its order, whether or not the prompt is cached.
pub conversation-request :
    (cache : Bool) (default_max : ℕ) (messages : List Message) (max_tokens : Option ℕ)
    → conversation (request cache default_max messages max_tokens) ≡ messages
unfolding request split_system system_block
conversation-request cache default_max [] max_tokens = heard-sent cache []
conversation-request cache default_max (m ∷ rest) max_tokens =
    elim (Bool-cases (text_eq m.role (codes "system"))) [
      | inl system ↦
          let role = (text_eq_iff m.role (codes "system")).0 system in
          rw (system, heard-sent cache rest, role) refl
      | inr other ↦ rw other (heard-sent cache (m ∷ rest))
    ]

sent-append :
    (pre : List Message) (x y : Message)
    → sent true (pre ++ (x ∷ y ∷ [])) ≡ map unmarked pre ++ (marked x ∷ unmarked y ∷ [])
unfolding sent
sent-append [] x y = refl
sent-append (m ∷ []) x y = refl
sent-append (m ∷ n ∷ []) x y = refl
sent-append (m ∷ n ∷ p ∷ pre) x y = rw (sent-append (n ∷ p ∷ pre) x y) refl

-- With caching on, the payload of a conversation of a system message and at least two more has the two
-- breakpoints that the adapter promises and no other: on the system block, and on the message before
-- the last.
pub request_breakpoints :
    (default_max : ℕ) (s : Message) (pre : List Message) (x y : Message) (max_tokens : Option ℕ)
    → s.role ≡ codes "system"
    → let q = request true default_max (s ∷ (pre ++ (x ∷ y ∷ []))) max_tokens in
      (q.system ≡ some (record { text = s.content; cache_control = true }))
      × (q.messages ≡ map unmarked pre ++ (marked x ∷ unmarked y ∷ []))
unfolding request split_system system_block
request_breakpoints default_max s pre x y max_tokens role =
    rw ((text_eq_iff s.role (codes "system")).1 role) (refl, sent-append pre x y)
