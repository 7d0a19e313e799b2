-- ===== src/KvStore/Names.antt =====
-- The names in `kv_dir` of src/agentpause/llamacpp_kv.py: what removing and collecting blobs leaves.
use agentpause.Prelude.{
  Bool, true, not, ◌&&◌, Option, none, some, List, [], ◌∷◌, ◌≡◌, ◌≢◌, refl, arith,
}
use agentpause.Text.{Text, text_eq, text_eq_iff}
use agentpause.KvStore.{Blobs, blob_in, without, delete_blob, add_reference}

pub blob_in-without :
    (b name : Text) (bs : Blobs)
    → blob_in b (without name bs) ≡ (blob_in b bs && not (text_eq name b))
blob_in-without b name [] = refl
blob_in-without b name (c ∷ bs) =
    ground
      (arith, blob_in-without b name bs, text_eq_iff c name, text_eq_iff c b, text_eq_iff name b)

-- Removing one blob leaves every other one.
pub blob_in-delete_blob_ne :
    (stuck : Text → Bool) (b name : Text) (bs : Blobs)
    → name ≢ b
    → blob_in b (delete_blob stuck name bs) ≡ blob_in b bs
unfolding delete_blob
blob_in-delete_blob_ne stuck b [] bs h = refl
blob_in-delete_blob_ne stuck b (c ∷ name) bs h =
    ground (arith, blob_in-without b (c ∷ name) bs, text_eq_iff (c ∷ name) b)

-- A removed blob is gone, unless the removal raises.
pub blob_in-delete_blob :
    (stuck : Text → Bool) (b : Text) (bs : Blobs)
    → b ≢ []
    → blob_in b (delete_blob stuck b bs) ≡ (blob_in b bs && stuck b)
unfolding delete_blob
blob_in-delete_blob stuck [] bs h = absurd (h refl)
blob_in-delete_blob stuck (c ∷ b) bs h =
    ground (arith, blob_in-without (c ∷ b) (c ∷ b) bs, text_eq_iff (c ∷ b) (c ∷ b))

pub blob_in-add_reference :
    (b : Text) (o : Option Text) (names : List Text)
    → blob_in b names ≡ true
    → blob_in b (add_reference o names) ≡ true
unfolding add_reference
blob_in-add_reference b none names h = h
blob_in-add_reference b (some n) names h = ground arith
