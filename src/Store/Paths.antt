-- ===== src/Store/Paths.antt =====
-- The file names of src/agentpause/state.py: which sessions share a file, and that no checkpoint is
-- ever a temporary file.
use mathlib.Core.List.{append_assoc, append_cancel_left, append_cancel_right}
use agentpause.Prelude.{
  ℕ, ◌==◌, [], ◌∷◌, ◌++◌, ◌≡◌, ◌≢◌, refl, sym, ap, ◌∙◌, arith, All, Bool-cases, inl, inr,
}
use agentpause.Text.{Text, codes, last, last-append}
use agentpause.Store.{join_path, safe, path_of, tmp_of}

last-append_two : (d s : Text) (c : ℕ) (t : Text) → last (d ++ (s ++ (c ∷ t))) ≡ last (c ∷ t)
last-append_two d s c t = ap last (sym (append_assoc d s (c ∷ t))) ∙ last-append (d ++ s) c t

last-join_path : (d s : Text) (c : ℕ) (t : Text) → last (join_path d (s ++ (c ∷ t))) ≡ last (c ∷ t)
unfolding join_path
last-join_path [] s c t = last-append s c t
last-join_path (a ∷ d) s c t = elim (Bool-cases (last (a ∷ d) == 47)) [
  | inl slash ↦ rw slash (last-append_two (a ∷ d) s c t)
  | inr plain ↦ rw plain (last-append_two (a ∷ d) (47 ∷ s) c t)
]

-- No checkpoint has the name of a temporary file.
pub path_of-ne-tmp_of : (d s t : Text) → path_of d s ≢ tmp_of (path_of d t)
unfolding path_of
path_of-ne-tmp_of d s t e =
    let ours : last (path_of d s) ≡ 110 = last-join_path d (safe s) 46 (codes "json") in
    let theirs = last-append (path_of d t) 46 (codes "tmp") in
    let same = sym ours ∙ ap last e ∙ theirs in absurd (omega arith)

safe_twice : (s : Text) → safe (safe s) ≡ safe s
safe_twice [] = refl
safe_twice (c ∷ s) = ground (arith, safe_twice s)

-- An id and the id with its separators replaced by underscores have the same file.
pub path_of-safe : (d s : Text) → path_of d (safe s) ≡ path_of d s
unfolding path_of
path_of-safe d s = ap (λ x. join_path d (x ++ codes ".json")) (safe_twice s)

join_path-cancel : (d s t : Text) → join_path d s ≡ join_path d t → s ≡ t
unfolding join_path
join_path-cancel [] s t e = e
join_path-cancel (a ∷ d) s t e = elim (Bool-cases (last (a ∷ d) == 47)) [
  | inl slash ↦ append_cancel_left (a ∷ d) s t (rw slash at e)
  | inr plain ↦
      append_cancel_left (47 ∷ []) s t
        (append_cancel_left (a ∷ d) (47 ∷ s) (47 ∷ t) (rw plain at e))
]

-- An id with no path separator.
abbrev pub IsPlain : Text → Type 0
IsPlain = All (λ c. c ≢ 47)

safe_plain : (s : Text) → IsPlain s → safe s ≡ s
safe_plain [] p = refl
safe_plain (c ∷ s) (p, ps) = ground (arith, safe_plain s ps)

-- Ids that have the same file are the same once their separators are replaced.
pub path_of-cancel : (d s t : Text) → path_of d s ≡ path_of d t → safe s ≡ safe t
unfolding path_of
path_of-cancel d s t e =
    append_cancel_right (safe s) (safe t) (codes ".json") (join_path-cancel d _ _ e)

-- Two ids with no separator have different files unless they are one.
pub path_of-injective : (d s t : Text) → IsPlain s → IsPlain t → path_of d s ≡ path_of d t → s ≡ t
path_of-injective d s t p q e = sym (safe_plain s p) ∙ path_of-cancel d s t e ∙ safe_plain t q
