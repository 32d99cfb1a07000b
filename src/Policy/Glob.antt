-- ===== src/Policy/Glob.antt =====
-- mcp/services/PolicyDslEvaluator.ts, matchGlob: the pattern is written as a regular expression and
-- tested. A text is its code units; `.` meets any of them but a line terminator.
use peta_core.Prelude.{
  ℕ, List, Bool, Bool-cases, [], arith, false, if◌then◌else◌, inl, inr, length, ltb, map, nat_beq,
  not, true, ◌&&◌, ◌||◌, ◌∷◌, ◌≡◌, ◌≢◌, ltb→le, refl, subst, tests, ◌↔◌, ◌≤◌,
}

pub data Piece : Type 0 where
  any_run any_char : Piece
  literal : ℕ → Piece

abbrev pub star : ℕ
star = b'*'

abbrev pub question : ℕ
question = b'?'

abbrev pub max_glob_length : ℕ
max_glob_length = 512

-- A character that is special in an expression is escaped, so it stands for itself.
unfoldable pub piece_of : ℕ → Piece
piece_of c = if nat_beq c star then any_run else if nat_beq c question then any_char else literal c

abbrev pub is_line_end : ℕ → Bool
is_line_end c = nat_beq c 10 || nat_beq c 13 || nat_beq c 8232 || nat_beq c 8233

-- `.*` before the rest of an expression
unfoldable pub skip_run : (List ℕ → Bool) → List ℕ → Bool
skip_run rest [] = rest []
skip_run rest (c ∷ cs) =
    let later = skip_run rest cs in rest (c ∷ cs) || (not (is_line_end c) && later)

unfoldable pub accepts : List Piece → List ℕ → Bool
unfolding skip_run
accepts [] [] = true
accepts [] (c ∷ cs) = false
accepts (any_run ∷ ps) cs = skip_run (accepts ps) cs
accepts (any_char ∷ ps) [] = false
accepts (any_char ∷ ps) (c ∷ cs) = not (is_line_end c) && accepts ps cs
accepts (literal d ∷ ps) [] = false
accepts (literal d ∷ ps) (c ∷ cs) = nat_beq c d && accepts ps cs

unfoldable pub match_glob : List ℕ → List ℕ → Bool
unfolding accepts piece_of
match_glob pattern value =
    if ltb max_glob_length (length pattern) then false else accepts (map piece_of pattern) value

-- What a glob means: `*` stands for a run of characters, `?` for one, another character for itself.
pub data Glob : List ℕ → List ℕ → Type 0 where
  done : Glob [] []
  stop : {c : ℕ} {ps vs : List ℕ} → c ≡ star → Glob ps vs → Glob (c ∷ ps) vs
  more :
      {c v : ℕ} {ps vs : List ℕ}
      → c ≡ star
      → is_line_end v ≡ false
      → Glob (c ∷ ps) vs
      → Glob (c ∷ ps) (v ∷ vs)
  one :
      {c v : ℕ} {ps vs : List ℕ}
      → c ≡ question
      → is_line_end v ≡ false
      → Glob ps vs
      → Glob (c ∷ ps) (v ∷ vs)
  same :
      {c v : ℕ} {ps vs : List ℕ}
      → c ≢ star
      → c ≢ question
      → v ≡ c
      → Glob ps vs
      → Glob (c ∷ ps) (v ∷ vs)

-- A run is accepted only where the rest accepts what follows it.
run-Glob :
    (c : ℕ) (ps : List ℕ) (rest : List ℕ → Bool) (vs : List ℕ)
    → c ≡ star
    → ((ws : List ℕ) → rest ws ≡ true → Glob ps ws)
    → skip_run rest vs ≡ true
    → Glob (c ∷ ps) vs
unfolding skip_run
run-Glob c ps rest [] s f h = stop s (f [] h)
run-Glob c ps rest (v ∷ vs) s f h = elim (Bool-cases (rest (v ∷ vs))) [
  | inl e ↦ stop s (f (v ∷ vs) e)
  | inr e ↦ more s (ground arith) (run-Glob c ps rest vs s f (ground arith))
]

piece_of-star : (c : ℕ) → c ≡ star → piece_of c ≡ any_run
unfolding piece_of
piece_of-star c e = ground arith

piece_of-question : (c : ℕ) → c ≡ question → piece_of c ≡ any_char
unfolding piece_of
piece_of-question c e = ground arith

piece_of_other : (c : ℕ) → c ≢ star → c ≢ question → piece_of c ≡ literal c
unfolding piece_of
piece_of_other c n m = ground arith

accepts-pieces :
    (c : ℕ) (ps vs : List ℕ)
    → ((ws : List ℕ) → accepts (map piece_of ps) ws ≡ true → Glob ps ws)
    → accepts (map piece_of (c ∷ ps)) vs ≡ true
    → Glob (c ∷ ps) vs
unfolding accepts
accepts-pieces c ps vs f h = elim (Bool-cases (nat_beq c star)) [
  | inl s ↦
      run-Glob c ps (accepts (map piece_of ps)) vs (ground arith) f
        (subst (λ q. accepts (q ∷ map piece_of ps) vs ≡ true) (piece_of-star c (ground arith)) h)
  | inr n ↦ elim (Bool-cases (nat_beq c question)) [
    | inl q ↦ one_piece vs (ground arith) (
        subst (λ q. accepts (q ∷ map piece_of ps) vs ≡ true) (piece_of-question c (ground arith)) h)
    | inr m ↦ same_piece vs (ground arith) (ground arith) (
        subst (λ q. accepts (q ∷ map piece_of ps) vs ≡ true)
          (piece_of_other c (ground arith) (ground arith)) h)
  ]
]
  where
    one_piece :
        (ws : List ℕ)
        → c ≡ question
        → accepts (any_char ∷ map piece_of ps) ws ≡ true
        → Glob (c ∷ ps) ws
    one_piece [] q k = cc
    one_piece (w ∷ ws) q k = one q (ground arith) (f ws (ground arith))

    same_piece :
        (ws : List ℕ)
        → c ≢ star
        → c ≢ question
        → accepts (literal c ∷ map piece_of ps) ws ≡ true
        → Glob (c ∷ ps) ws
    same_piece [] n m k = cc
    same_piece (w ∷ ws) n m k = same n m (ground arith) (f ws (ground arith))

accepts-Glob : (ps vs : List ℕ) → accepts (map piece_of ps) vs ≡ true → Glob ps vs
unfolding accepts
accepts-Glob [] [] h = done
accepts-Glob [] (v ∷ vs) h = cc
accepts-Glob (c ∷ ps) vs h = accepts-pieces c ps vs (accepts-Glob ps) h

skip_run_here : (rest : List ℕ → Bool) (vs : List ℕ) → rest vs ≡ true → skip_run rest vs ≡ true
unfolding skip_run
skip_run_here rest [] h = h
skip_run_here rest (v ∷ vs) h = rw h refl

skip_run_on :
    (rest : List ℕ → Bool) (v : ℕ) (vs : List ℕ)
    → is_line_end v ≡ false
    → skip_run rest vs ≡ true
    → skip_run rest (v ∷ vs) ≡ true
unfolding skip_run
skip_run_on rest v vs n h = ground arith

Glob-accepts : {ps vs : List ℕ} → Glob ps vs → accepts (map piece_of ps) vs ≡ true
unfolding accepts
Glob-accepts done = refl
Glob-accepts (stop {ps = ps} {vs = vs} s g) =
    rw (piece_of-star _ s) (skip_run_here (accepts (map piece_of ps)) vs (Glob-accepts g))
Glob-accepts (more {c = c} {v = v} {ps = ps} {vs = vs} s n g) = rw (piece_of-star c s) (
    skip_run_on (accepts (map piece_of ps)) v vs n
      (subst (λ p. accepts (p ∷ map piece_of ps) vs ≡ true) (piece_of-star c s) (Glob-accepts g)))
Glob-accepts (one {c = c} q n g) = rw (piece_of-question c q) (ground (arith, n, Glob-accepts g))
Glob-accepts (same {c = c} {v = v} n m e g) =
    rw (piece_of_other c n m) (ground (arith, e, Glob-accepts g))

-- A rule's pattern meets a text exactly when it has at most 512 characters and the text is what the
-- glob means.
pub match_glob-Glob :
    (pattern value : List ℕ)
    → (match_glob pattern value ≡ true) ↔ ((length pattern ≤ max_glob_length) × Glob pattern value)
unfolding match_glob
match_glob-Glob pattern value = elim (Bool-cases (ltb max_glob_length (length pattern))) [
  | inl e ↦ rw e (λ h. cc, λ h. absurd (omega tests))
  | inr e ↦ rw e (
    λ h. (ltb→le max_glob_length (length pattern) e, accepts-Glob pattern value h),
    λ h. Glob-accepts h.1,
  )
]
