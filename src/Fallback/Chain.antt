-- ===== src/Fallback/Chain.antt =====
-- Which backend of the chain in src/agentpause/fallback.py serves a call.
use agentpause.Prelude.{
  ℕ, suc, ◌+◌, Option, none, some, List, [], ◌∷◌, ◌++◌, ◌≡◌, ◌≢◌, refl, sym, ap, ◌∙◌, subst, arith,
  length, List-cases, ◌-◌, length-append, inl, inr,
}
use agentpause.Prelude.Int.{ℤ}
use agentpause.Errors.{Error, Result, ok, raise, transient, fatal, verdict}
use agentpause.Text.{Text}
use agentpause.World.{Message, Backend}
use agentpause.Fallback.{Fallback, report, serve, call}

append-ne-nil {ℓ} : {A : Type ℓ} (xs : List A) (y : A) (ys : List A) → xs ++ (y ∷ ys) ≢ []
append-ne-nil [] y ys = λ e. cc
append-ne-nil (x ∷ xs) y ys = λ e. cc

module _ {F W : Type 0} (messages : List Message) where
  -- the world once each of the backends has been tried
  abbrev pub after : List (Backend F W) → W → W
  after [] w = w
  after (b ∷ bs) w = after bs (b messages w).1

  -- Each of the backends, tried in order, fails transiently.
  abbrev pub AllTransient : List (Backend F W) → W → Type 0
  AllTransient [] w = Unit
  AllTransient (b ∷ bs) w =
      ((e : Error F) × ((b messages w).0 ≡ raise e) × (verdict e ≡ transient))
      × AllTransient bs (b messages w).1

  -- the error of the last backend, where there is one
  abbrev pub last_error : Option (Error F) → List (Backend F W) → W → Option (Error F)
  last_error e [] w = e
  last_error e (b ∷ bs) w = elim (b messages w).0 [
    | ok x ↦ last_error e bs (b messages w).1
    | raise e' ↦ last_error (some e') bs (b messages w).1
  ]

  -- What a decisive answer makes of the call: a reply, or an error that is fatal.
  abbrev pub Decided :
      ℕ → Result F (Text × ℤ) → Fallback F W → Result F (Text × ℤ) × Fallback F W × W → Type 0
  Decided i (ok reply) c (r, c', _) = (r ≡ ok reply) × (c'.last_index ≡ some i)
  Decided i (raise e) c (r, c', _) =
      verdict e ≡ fatal → (r ≡ raise e) × (c'.last_index ≡ c.last_index)

  report_frame :
      (i : ℕ) (e : Error F) (bs : List (Backend F W)) (c : Fallback F W)
      → let c' = report i e bs c in
        (c'.last_index ≡ c.last_index)
        × (bs ≢ [] → length c'.switched ≡ suc (length c.switched))
        × (bs ≡ [] → c' ≡ c)
  unfolding report
  report_frame i e [] c = (refl, λ h. absurd (h refl), λ h. refl)
  report_frame i e (b ∷ bs) c =
      (refl, λ h. omega (arith, length-append c.switched ((i + 1, e) ∷ [])), λ h. cc)

  serve_step :
      (b : Backend F W) (bs : List (Backend F W)) (i : ℕ) (last : Option (Error F))
      (c : Fallback F W) (w : W) (e : Error F)
      → (b messages w).0 ≡ raise e
      → verdict e ≡ transient
      → serve messages (b ∷ bs) i last c w
        ≡ serve messages bs (suc i) (some e) (report i e bs c) (b messages w).1
  unfolding serve
  serve_step b bs i last c w e h t = ground arith

  Decided-shift :
      (r : Result F (Text × ℤ)) (i j : ℕ) (c c' : Fallback F W)
      (out : Result F (Text × ℤ) × Fallback F W × W)
      → i ≡ j
      → c.last_index ≡ c'.last_index
      → Decided i r c out
      → Decided j r c' out
  Decided-shift (ok x) i j c c' out p q (d, l) = (d, rw (← p) l)
  Decided-shift (raise e) i j c c' out p q d = λ h. let (a, l) = d h in (a, l ∙ q)

  -- the answer of the first backend, if it is decisive
  serve_here :
      (b : Backend F W) (post : List (Backend F W)) (i : ℕ) (last : Option (Error F))
      (c : Fallback F W) (w : W) (r : Result F (Text × ℤ))
      → (b messages w).0 ≡ r
      → ((e : Error F) → r ≡ raise e → verdict e ≡ fatal)
      → let out = serve messages (b ∷ post) i last c w in
        Decided i r c out × (out.2 ≡ (b messages w).1) × (length out.1.switched ≡ length c.switched)
  unfolding serve
  serve_here b post i last c w (ok x) h d = ground arith
  serve_here b post i last c w (raise e) h d = ground (arith, d e refl)

  serve-Decided :
      (pre : List (Backend F W)) (b : Backend F W) (post : List (Backend F W)) (i : ℕ)
      (last : Option (Error F)) (c : Fallback F W) (w : W)
      → AllTransient pre w
      → ((e : Error F) → (b messages (after pre w)).0 ≡ raise e → verdict e ≡ fatal)
      → let out = serve messages (pre ++ (b ∷ post)) i last c w in
        Decided (i + length pre) (b messages (after pre w)).0 c out
        × (out.2 ≡ (b messages (after pre w)).1)
        × (length out.1.switched ≡ length c.switched + length pre)
  serve-Decided [] b post i last c w h d =
      let (a, x, n) = serve_here b post i last c w (b messages w).0 refl d in
      (Decided-shift _ i (i + 0) c c _ (omega arith) refl a, x, omega (arith, n))
  serve-Decided (a ∷ pre) b post i last c w ((e, r, t), h) d =
      let rest = pre ++ (b ∷ post) in
      let c' = report i e rest c in
      let frame = report_frame i e rest c in
      let more : rest ≢ [] = append-ne-nil pre b post in
      let (x, y, n) = serve-Decided pre b post (suc i) (some e) c' (a messages w).1 h d in
      rw (serve_step a rest i last c w e r t) (
        Decided-shift _ (suc i + length pre) (i + suc (length pre)) c' c _ (omega arith) frame.0 x,
        y,
        omega (arith, n, frame.1 more),
      )

  abbrev Served :
      List (Backend F W)
      → Backend F W
      → Fallback F W
      → W
      → Result F (Text × ℤ) × Fallback F W × W
      → Type 0
  Served pre b c w out =
      Decided (length pre) (b messages (after pre w)).0 c out
      × (out.2 ≡ (b messages (after pre w)).1)
      × (length out.1.switched ≡ length c.switched + length pre)

  -- What a chain without an answer comes to.
  abbrev Exhausted :
      Option (Error F)
      → List (Backend F W)
      → Fallback F W
      → W
      → Result F (Text × ℤ) × Fallback F W × W
      → Type 0
  Exhausted last bs c w (r, c', w') =
      ((e : Error F) × (last_error last bs w ≡ some e) × (r ≡ raise e))
      × (c'.last_index ≡ c.last_index)
      × (w' ≡ after bs w)
      × (length c'.switched ≡ length c.switched + (length bs - 1))

  Exhausted-step :
      (b : Backend F W) (bs : List (Backend F W)) (i : ℕ) (last : Option (Error F))
      (c : Fallback F W) (w : W) (e : Error F)
      → (b messages w).0 ≡ raise e
      → verdict e ≡ transient
      → Exhausted
          (some e)
          bs
          (report i e bs c)
          (b messages w).1
          (serve messages bs (suc i) (some e) (report i e bs c) (b messages w).1)
      → Exhausted last (b ∷ bs) c w (serve messages (b ∷ bs) i last c w)
  Exhausted-step b bs i last c w e r t ((e', l, x), j, y, n) =
      let frame = report_frame i e bs c in
      rw (serve_step b bs i last c w e r t) (
        (e', rw r l, x),
        j ∙ frame.0,
        y,
        elim (List-cases bs) [
          | inl none_left ↦ ground (arith, frame.2 none_left)
          | inr (b', bs', more) ↦ omega (arith, n, ap length more, frame.1 (λ z. ground arith))
        ],
      )

  serve-Exhausted :
      (bs : List (Backend F W)) (i : ℕ) (last : Error F) (c : Fallback F W) (w : W)
      → AllTransient bs w
      → Exhausted (some last) bs c w (serve messages bs i (some last) c w)
  unfolding serve
  serve-Exhausted [] i last c w h = ((last, refl, refl), refl, refl, omega arith)
  serve-Exhausted (b ∷ bs) i last c w ((e, r, t), h) =
      Exhausted-step b bs i (some last) c w e r t
        (serve-Exhausted bs (suc i) e (report i e bs c) (b messages w).1 h)

  -- The first backend that does not fail transiently decides: its reply is the result and its
  -- place in the chain is noted, its fatal error is raised and nothing is noted. The backends after it
  -- are not called, and each switch before it has been reported once.
  pub call-Decided :
      (pre : List (Backend F W)) (b : Backend F W) (post : List (Backend F W)) (c : Fallback F W)
      (w : W)
      → c.backends ≡ pre ++ (b ∷ post)
      → AllTransient pre w
      → ((e : Error F) → (b messages (after pre w)).0 ≡ raise e → verdict e ≡ fatal)
      → let out = call messages c w in
        Decided (length pre) (b messages (after pre w)).0 c out
        × (out.2 ≡ (b messages (after pre w)).1)
        × (length out.1.switched ≡ length c.switched + length pre)
  unfolding call
  call-Decided pre b post c w e h d =
      let (x, y, n) = serve-Decided pre b post 0 none c w h d in
      subst (λ bs. Served pre b c w (serve messages bs 0 none c w)) (sym e)
        (Decided-shift _ (0 + length pre) (length pre) c c _ (omega arith) refl x, y, n)

  -- If every backend of a chain fails transiently, the error of the last one is raised, no backend is
  -- noted and each switch has been reported once.
  pub call_exhausted :
      (b : Backend F W) (bs : List (Backend F W)) (c : Fallback F W) (w : W)
      → c.backends ≡ b ∷ bs
      → AllTransient (b ∷ bs) w
      → let (r, c', w') = call messages c w in
        ((x : Error F) × (last_error none (b ∷ bs) w ≡ some x) × (r ≡ raise x))
        × (c'.last_index ≡ c.last_index)
        × (w' ≡ after (b ∷ bs) w)
        × (length c'.switched ≡ length c.switched + (length (b ∷ bs) - 1))
  unfolding call
  call_exhausted b bs c w e ((x, r, t), h) =
      subst (λ cs. Exhausted none (b ∷ bs) c w (serve messages cs 0 none c w)) (sym e)
        (Exhausted-step b bs 0 none c w x r t
          (serve-Exhausted bs 1 x (report 0 x bs c) (b messages w).1 h))
