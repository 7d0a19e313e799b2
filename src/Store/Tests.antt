-- ===== src/Store/Tests.antt =====
-- Runs of the checkpoint store, and its theorems over a codec that keeps the checkpoint itself.
use agentpause.Prelude.{
  ℕ, false, Option, none, some, List, [], ◌∷◌, ◌≡◌, ◌≢◌, refl, arith, inl, inr,
}
use agentpause.Prelude.Int.{pos}
use agentpause.Number.Fixed.{Milli}
use agentpause.Errors.{ok, raise, checkpoint_error}
use agentpause.Text.{Text, codes}
use agentpause.State.{Checkpoint, fork}
use agentpause.Store.{
  Codec, IsFaithful, no_fault, at_write, join_path, path_of, Files, save, decode, load, clear,
  stored, fork_loaded, fork_stored, Bundle, bundle_format, bundle_of, export_bundle, import_state,
  import_bundle,
}
use agentpause.Store.Spec.{
  Op, to_save, to_load, to_clear, to_fork, spec_save, spec_fork, spec_step, spec_run, run,
}
use agentpause.Store.Refine.{run_refines}
use agentpause.Store.Paths.{IsPlain}
use agentpause.Store.Saves.{load-save, load-save_fault, load-save_ne, load-save_shared, load-clear}
use agentpause.Store.Migration.{
  fork_stored_lem, fork_stored_refuses, import-export_bundle, import_bundle_refuses,
}

-- A file holds a checkpoint, or nothing that can be read.
abbrev plain : Codec ℕ ℕ (Option (Checkpoint ℕ))
plain = record { dump = λ s cp. some cp; parse = λ c. c }

plain-IsFaithful : IsFaithful plain
plain-IsFaithful s cp = refl

abbrev empty : Files (Option (Checkpoint ℕ))
empty p = none

abbrev dir : Text
dir = codes ".agentpause"

abbrev task : Text → Checkpoint ℕ
task id = record {
  session_id = id;
  step = 3;
  messages = [];
  idempotency_keys = [];
  total_tokens_used = pos 90;
  extra = 0;
}

-- the directory after the session `a` has been saved
abbrev one : Files (Option (Checkpoint ℕ))
one = (save {F = Milli} plain dir no_fault 0 (task (codes "a")) empty).1

program : Unit {0}
unfolding fork join_path path_of save decode load clear stored fork_loaded fork_stored bundle_of
    export_bundle import_state import_bundle
program = tt

file_name : path_of dir (codes "a/b") ≡ codes ".agentpause/a_b.json"
unfolding program
file_name = refl

half_written :
    load {F = Milli} plain dir
      (codes "a")
      (save {F = Milli} plain dir (at_write none) 0 (record (task (codes "a")) { step = 4 }) one).1
    ≡ ok (some (task (codes "a")))
unfolding program
half_written = refl

unreadable : load {F = Milli} plain dir (codes "a") (λ p. some none) ≡ raise checkpoint_error
unfolding program
unreadable = refl

load-save_example :
    let (r, fs') = save {F = Milli} plain dir no_fault 0 (task (codes "a")) empty in
    (r ≡ ok (path_of dir (codes "a")))
    × (load {F = Milli} plain dir (codes "a") fs' ≡ ok (some (task (codes "a"))))
load-save_example =
    load-save Milli plain dir 0 (task (codes "a")) empty (codes "a") plain-IsFaithful refl

load-save_fault_example :
    let (r, fs') = save {F = Milli} plain dir (at_write none) 0 (task (codes "a")) one in
    (r ≡ raise checkpoint_error)
    × (load {F = Milli} plain dir (codes "a") fs' ≡ load plain dir (codes "a") one)
load-save_fault_example =
    load-save_fault Milli plain dir (at_write none) 0 (task (codes "a")) one (codes "a")
      (λ e. ground arith)

load-save_ne_example :
    load {F = Milli} plain dir
      (codes "a")
      (save {F = Milli} plain dir no_fault 0 (task (codes "b")) one).1
    ≡ load plain dir (codes "a") one
load-save_ne_example =
    load-save_ne Milli plain dir no_fault 0 (task (codes "b")) one (codes "a") (omega arith)
      (omega arith) (λ e. ground arith)

load-save_shared_example :
    load {F = Milli} plain dir
      (codes "a_b")
      (save {F = Milli} plain dir no_fault 0 (task (codes "a/b")) empty).1
    ≡ ok (some (task (codes "a/b")))
load-save_shared_example =
    load-save_shared Milli plain dir 0 (task (codes "a/b")) empty plain-IsFaithful

load-clear_example :
    (load {F = Milli} plain dir (codes "a") (clear dir (codes "a") one) ≡ ok none)
    × (load {F = Milli} plain dir (codes "b") (clear dir (codes "a") one)
        ≡ load plain dir (codes "b") one)
unfolding program
load-clear_example = load-clear Milli plain dir one (codes "a") (codes "b") (λ e. ground arith)

fork_stored_lem_example :
    let (r, fs') = fork_stored {F = Milli} plain dir no_fault 0 (codes "a") (codes "b") one in
    (r ≡ ok (task (codes "b")))
    × (load {F = Milli} plain dir (codes "b") fs' ≡ ok (some (task (codes "b"))))
    × (IsPlain (codes "a")
        → IsPlain (codes "b")
        → codes "a" ≢ codes "b"
        → load {F = Milli} plain dir (codes "a") fs' ≡ ok (some (task (codes "a"))))
unfolding program
fork_stored_lem_example =
    fork_stored_lem Milli plain dir 0 (codes "a") (codes "b") (task (codes "a")) one
      plain-IsFaithful refl refl

fork_stored_refuses_example :
    fork_stored {F = Milli} plain dir no_fault 0 (codes "c") (codes "b") one
    ≡ (raise checkpoint_error, one)
unfolding program
fork_stored_refuses_example =
    fork_stored_refuses Milli plain dir no_fault 0 (codes "c") (codes "b") none one refl (inl refl)

import-export_bundle_example :
    (b : Bundle ℕ ℕ) × (export_bundle {F = Milli} plain dir 7 (codes "a") one ≡ ok b)
    × (let (r, fs'') = import_bundle {F = Milli} plain (codes "b") no_fault 8 b false empty in
        (r ≡ ok (task (codes "a")))
        × (load {F = Milli} plain (codes "b") (codes "a") fs'' ≡ ok (some (task (codes "a")))))
unfolding program
import-export_bundle_example =
    import-export_bundle Milli plain dir (codes "b") 7 8 false (task (codes "a")) one empty
      plain-IsFaithful refl (inr refl)

import_bundle_refuses_example :
    import_bundle {F = Milli} plain dir no_fault 8
      (record { format = bundle_format; exported_at = 7; state = some (task (codes "a")) })
      false
      one
    ≡ (raise checkpoint_error, one)
unfolding program
import_bundle_refuses_example =
    import_bundle_refuses Milli plain dir no_fault 8
      (record { format = bundle_format; exported_at = 7; state = some (task (codes "a")) }) one
      (inr (inr (task (codes "a"), refl, refl)))

-- a save that fails, a fork whose id is taken under another spelling, and a load after a deletion
abbrev session : List (Op ℕ ℕ (Option (Checkpoint ℕ)))
session =
    to_save no_fault 0 (task (codes "a/b"))
    ∷ to_save (at_write none) 0 (record (task (codes "a/b")) { step = 4 })
    ∷ to_load (codes "a_b")
    ∷ to_fork no_fault 0 (codes "a/b") (codes "a_b")
    ∷ to_clear (codes "a_b")
    ∷ to_load (codes "a/b")
    ∷ []

replies :
    spec_run {F = Milli} session (λ k. none)
    ≡ ok (some (task (codes "a/b")))
      ∷ raise checkpoint_error
      ∷ ok (some (task (codes "a/b")))
      ∷ raise checkpoint_error
      ∷ ok none
      ∷ ok none
      ∷ []
unfolding program spec_run spec_step spec_save spec_fork
replies = refl

run_refines_example : run {F = Milli} plain dir session empty ≡ spec_run session (λ k. none)
unfolding program
run_refines_example =
    run_refines Milli plain dir plain-IsFaithful session empty (λ k. none) (λ id. refl)
