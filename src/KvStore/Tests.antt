-- ===== src/KvStore/Tests.antt =====
-- Runs of the store with a KV cache, and its theorems on a server that keeps one model and whose blobs
-- are the names in the directory.
use agentpause.Prelude.{
  Bool, ℕ, ◌≤◌, true, false, Option, none, some, [], ◌∷◌, ◌≡◌, ◌≢◌, refl, arith, ◌⊎◌,
}
use agentpause.Prelude.Int.{ℤ, pos}
use agentpause.Prelude.Dict.{lookup}
use agentpause.Number.Fixed.{Milli, milli_float}
use agentpause.Errors.{ok, raise, foreign, kv_error, ok-ne-raise}
use agentpause.Text.{Text, codes, text_instance}
use agentpause.State.{Checkpoint, fork}
use agentpause.Store.{
  Codec, IsFaithful, Fault, no_fault, load, save, stored, fork_stored, fork_loaded, decode,
  join_path, path_of,
}
use agentpause.Json.{
  Json, int, str, object, field, no_fields, Reading, find, get, text, holds, either, to_int,
  read_int,
}
use agentpause.Slots.{
  LlamaCppSlots, rstrip, as_kv_error, bind, get_props, model_of, fingerprint, counted, save_slot,
  restore_slot,
}
use agentpause.KvStore.{
  Kv, Extra, Blobs, Machine, Setup, blob_in, blob_name, with_kv, named, file_of_kv, file_of,
  file_loaded, delete_blob, add_reference, references, sweep, gc_orphans, collect, collect_all,
  gc_consumed, free_on, pruned, guard,
}
use agentpause.KvStore.Save.{
  SavedWith, delete_previous, commit, printed, posted, admitted, save_over, save_with_kv,
}
use agentpause.KvStore.Load.{
  Outcome, restored, kv_file_missing, unreachable, model_mismatch, answered, matched, load_kv,
  load_loaded, load_with_kv,
}
use agentpause.KvStore.Fork.{
  copied, copy_failed, add_blob, store_clone, fork_copy, fork_blob, forked, fork_with_kv,
}
use agentpause.KvStore.Saving.{save_with_kv_fault, save_with_kv_room}
use agentpause.KvStore.Committing.{IsReadOnly, fresh, save_with_kv_ok, save_with_kv_collects}
use agentpause.KvStore.Loading.{IsSound, load_with_kv_returns, load_with_kv_restored}
use agentpause.KvStore.Warming.{load-save_with_kv}
use agentpause.KvStore.Branching.{cloned, branched, fork_with_kv_own, fork_with_kv_shares}
use agentpause.KvStore.Collecting.{gc_orphans_exact}

abbrev Disk : Type 0
Disk = Option (Checkpoint (Extra ℕ))

abbrev plain : Codec (Extra ℕ) ℕ Disk
plain = record { dump = λ s cp. some cp; parse = λ c. c }

plain-IsFaithful : IsFaithful plain
plain-IsFaithful s cp = refl

abbrev reading : Reading Milli
reading = record {
  int_of = λ s. none;
  int_of_real = λ x. some (milli_float.trunc x);
  float_of = λ s. none;
  text_of = λ j. [];
}

abbrev counters : Json Milli
counters =
    object
      (field (codes "n_saved") (int (pos 5)) (field (codes "n_restored") (int (pos 5)) no_fields))

-- `S` is the model that is loaded
abbrev server : LlamaCppSlots Milli (Blobs × Text)
server = record {
  get_fn = λ url at. (ok (object (field (codes "model_path") (str at.1) no_fields)), at);
  post_fn = λ url name at. (ok counters, (add_blob name at.0, at.1));
}

-- a server whose model never changes
abbrev server_of : Text → LlamaCppSlots Milli (Blobs × Text)
server_of model = record server {
  get_fn = λ url at. (ok (object (field (codes "model_path") (str model) no_fields)), at);
}

abbrev down : LlamaCppSlots Milli (Blobs × Text)
down = record {
  get_fn = λ url at. (raise foreign, at);
  post_fn = λ url name at. (raise foreign, at);
}

abbrev setup : LlamaCppSlots Milli (Blobs × Text) → Setup Milli ℕ ℕ Disk Text
setup slots = record {
  codec = plain;
  directory = codes "d";
  slots = slots;
  reading = reading;
  base_url = codes "u/";
  id_slot = 0;
  min_free_bytes = some 10;
  prune_oldest = true;
  free = λ at. 100;
  stuck = λ name. false;
  sessions = λ fs. codes "a" ∷ [];
}

abbrev task : Checkpoint (Extra ℕ)
task = record {
  session_id = codes "a";
  step = 3;
  messages = [];
  idempotency_keys = [];
  total_tokens_used = pos 90;
  extra = record { kv = none; others = 7 };
}

abbrev empty : Machine Disk Text
empty = record { files = λ p. none; blobs = codes "junk" ∷ []; server = codes "m"; consumed = [] }

abbrev no_problem : Fault Disk
no_problem = no_fault

abbrev saved : SavedWith Milli ℕ Disk Text
saved = save_with_kv (setup server) no_fault 0 (codes "1") task empty

abbrev one : Machine Disk Text
one = saved.machine

abbrev entry : Kv
entry = fresh (codes "a_1.bin") (codes "m") (pos 5)

program : Unit {0}
unfolding fork join_path path_of load save stored fork_stored fork_loaded decode find get text holds
    either to_int read_int rstrip as_kv_error bind get_props model_of fingerprint counted save_slot
    restore_slot named file_of_kv file_of file_loaded delete_blob add_reference references sweep
    gc_orphans collect collect_all gc_consumed free_on pruned guard delete_previous commit printed
    posted admitted save_over save_with_kv answered matched load_kv load_loaded load_with_kv
    store_clone fork_copy fork_blob forked fork_with_kv
program = tt

saved_entry : saved.checkpoint.extra.kv ≡ some entry
unfolding program
saved_entry = refl

warm_start :
    (load_with_kv (setup server) (codes "a") one).0
    ≡ ok (some (with_kv (some (record entry { consumed = true })) task), restored (pos 5))
unfolding program
warm_start = refl

other_model :
    (load_with_kv (setup server) (codes "a") (record one { server = codes "other" })).0
    ≡ ok (some task, model_mismatch)
unfolding program
other_model = refl

no_server : (load_with_kv (setup down) (codes "a") one).0 ≡ ok (some task, unreachable)
unfolding program
no_server = refl

lost_blob :
    (load_with_kv (setup server) (codes "a") (record one { blobs = [] })).0
    ≡ ok (some task, kv_file_missing)
unfolding program
lost_blob = refl

swept : (gc_orphans (setup server) one).1.blobs ≡ codes "a_1.bin" ∷ []
unfolding program
swept = refl

-- Pruning also deletes a blob that was restored and that no caller has given up: the save is refused
-- all the same, and the next load has no blob to restore.
full_disk_loses_the_blob :
    let full = record (setup server) { free = λ at. 0 } in
    let after = (load_with_kv full (codes "a") one).1 in
    let out = save_with_kv full no_fault 0 (codes "2") task after in
    (out.result ≡ raise kv_error)
    × ((load_with_kv full (codes "a") out.machine).0 ≡ ok (some task, kv_file_missing))
unfolding program
full_disk_loses_the_blob = (refl, refl)

save_with_kv_fault_example :
    let out = save_with_kv (setup down) no_fault 0 (codes "2") task one in
    (load {F = Milli} plain (codes "d") (codes "a") out.machine.files
      ≡ load plain (codes "d") (codes "a") one.files)
    × ((no_problem ≢ no_problem) ⊎ (out.checkpoint ≡ task))
unfolding program
save_with_kv_fault_example =
    save_with_kv_fault (setup down) no_fault 0 (codes "2") (codes "a") task one kv_error refl

server-IsReadOnly : IsReadOnly server
server-IsReadOnly url at = refl

save_with_kv_ok_example :
    let out = save_with_kv (setup server) no_fault 0 (codes "2") task one in
    (n : ℤ) × (model : Text) × (at : Blobs × Text) × ((fingerprint reading server (codes "u/") at).0
      ≡ ok model)
    × (out.checkpoint ≡ with_kv (some (fresh (blob_name (codes "a") (codes "2")) model n)) task)
    × (load {F = Milli} plain (codes "d") (codes "a") out.machine.files ≡ ok (some out.checkpoint))
    × (blob_in (blob_name (codes "a") (codes "2")) out.machine.blobs ≡ true)
unfolding program
save_with_kv_ok_example =
    save_with_kv_ok (setup server) plain-IsFaithful server-IsReadOnly no_fault 0 (codes "2") task
      (some (with_kv (some entry) task)) one refl refl

save_with_kv_collects_example :
    let blobs = (save_with_kv (setup server) no_fault 0 (codes "2") task one).machine.blobs in
    (blob_in (codes "a_1.bin") blobs ≡ false)
    × (blob_in (blob_name (codes "a") (codes "2")) blobs ≡ true)
unfolding program
save_with_kv_collects_example =
    save_with_kv_collects (setup server) plain-IsFaithful server-IsReadOnly no_fault 0 (codes "2")
      task (some (with_kv (some entry) task)) (codes "a_1.bin") one refl refl (λ e. ground arith)
      (λ e. ground arith) refl refl

server-IsSound : IsSound (setup (server_of (codes "m")))
unfolding program
server-IsSound = (
  λ at e h. absurd (ok-ne-raise (codes "m") e h),
  λ name at e h. absurd (ok-ne-raise (pos 5) e h),
)

load_with_kv_returns_example :
    (c : Option (Checkpoint (Extra ℕ)) × Outcome) × ((load_with_kv
        (setup (server_of (codes "m")))
        (codes "a")
        one).0
      ≡ ok c)
unfolding program
load_with_kv_returns_example =
    load_with_kv_returns (setup (server_of (codes "m"))) (codes "a")
      (some (with_kv (some entry) task)) one server-IsSound refl

load_with_kv_restored_example :
    (cp : Checkpoint (Extra ℕ)) × (kv : Kv) × (load {F = Milli} plain
        (codes "d")
        (codes "a")
        one.files
      ≡ ok (some cp))
    × (cp.extra.kv ≡ some kv)
    × ((blob_in kv.file one.blobs ≡ true)
        × ((fingerprint reading server (codes "u/") (one.blobs, one.server)).0
            ≡ ok kv.model_fingerprint)
        × (some (with_kv (some (record entry { consumed = true })) task)
            ≡ some (with_kv (some (record kv { consumed = true })) cp))
        × (lookup (codes "a") (load_with_kv (setup server) (codes "a") one).1.consumed
            ≡ some kv.file))
unfolding program
load_with_kv_restored_example =
    load_with_kv_restored (setup server) (codes "a")
      (some (with_kv (some (record entry { consumed = true })) task)) (pos 5) one refl

load-save_with_kv_example :
    (n : ℤ) × ((load_with_kv
        (setup (server_of (codes "m")))
        (codes "a")
        (save_with_kv (setup (server_of (codes "m"))) no_fault 0 (codes "2") task one).machine).0
      ≡ ok (
        some (
            with_kv
              (some (record (fresh (blob_name (codes "a") (codes "2")) (codes "m") n) {
                consumed = true;
              }))
              task),
        restored (pos 5),
      ))
unfolding program
load-save_with_kv_example =
    load-save_with_kv (setup (server_of (codes "m"))) plain-IsFaithful (λ url at. refl) no_fault 0
      (codes "2") (codes "m") (pos 5) task (some (with_kv (some entry) task)) one (λ at. refl)
      (λ at there. refl) refl refl

fork_with_kv_own_example :
    let (r, m') =
      fork_with_kv
        (setup server)
        no_fault
        no_fault
        0
        copied
        (codes "2")
        (codes "a")
        (codes "b")
        one in
    let clone = branched (codes "b_2.bin") (codes "b") entry (with_kv (some entry) task) in
    (r ≡ ok clone)
    × (load {F = Milli} plain (codes "d") (codes "b") m'.files ≡ ok (some clone))
    × (load {F = Milli} plain (codes "d") (codes "a") m'.files
        ≡ ok (some (with_kv (some entry) task)))
    × (codes "a_1.bin" ≢ codes "b_2.bin")
    × (blob_in (codes "a_1.bin") m'.blobs ≡ true)
    × (blob_in (codes "b_2.bin") m'.blobs ≡ true)
unfolding program
fork_with_kv_own_example =
    fork_with_kv_own (setup server) 0 (codes "2") (codes "a") (codes "b")
      (with_kv (some entry) task) entry one plain-IsFaithful refl refl (λ e. ground arith) refl refl
      refl (omega arith) (omega arith) (λ e. ground arith)

fork_with_kv_shares_example :
    let (r, m') =
      fork_with_kv
        (setup server)
        no_fault
        no_fault
        0
        (copy_failed true)
        (codes "2")
        (codes "a")
        (codes "b")
        one in
    let clone = cloned (codes "b") (with_kv (some entry) task) in
    (r ≡ raise foreign)
    × (load {F = Milli} plain (codes "d") (codes "b") m'.files ≡ ok (some clone))
    × (clone.extra.kv ≡ some entry)
unfolding program
fork_with_kv_shares_example =
    fork_with_kv_shares (setup server) 0 (codes "2") (codes "a") (codes "b")
      (with_kv (some entry) task) entry one plain-IsFaithful refl refl (λ e. ground arith) refl refl
      no_fault true

gc_orphans_exact_example :
    let m' = (gc_orphans (setup server) one).1 in
    ((id : Text) (cp : Checkpoint (Extra ℕ))
      → blob_in id (codes "a" ∷ []) ≡ true
      → load {F = Milli} plain (codes "d") id one.files ≡ ok (some cp)
      → file_of (some cp) ≡ some (codes "junk")
      → blob_in (codes "junk") m'.blobs ≡ blob_in (codes "junk") one.blobs)
    × (((id : Text) (cp : Checkpoint (Extra ℕ))
          → blob_in id (codes "a" ∷ []) ≡ true
          → load {F = Milli} plain (codes "d") id one.files ≡ ok (some cp)
          → file_of (some cp) ≢ some (codes "junk"))
        → ◌≡◌ {A = Bool} false false
        → blob_in (codes "junk") m'.blobs ≡ false)
    × (m'.files ≡ one.files)
    × (m'.consumed ≡ one.consumed)
    × (m'.server ≡ one.server)
gc_orphans_exact_example = gc_orphans_exact (setup server) (codes "junk") one (λ e. ground arith)

save_with_kv_room_example : 10 ≤ free_on (setup server) (pruned (setup server) 10 empty)
unfolding program
save_with_kv_room_example =
    save_with_kv_room (setup server) no_fault 0 (codes "1") 10 task empty refl refl
