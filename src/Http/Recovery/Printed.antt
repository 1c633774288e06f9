-- ===== src/Http/Recovery/Printed.antt =====
-- What the names of functions and the printed stack are.
use j7f.Base.{
  ℕ, suc, ◌≡◌, refl, ap, ◌∙◌, true, false, List, [], ◌∷◌, ◌++◌, Option, none, some, Text, same_text,
  same_text_iff, arith, All, drop, map, append_assoc, append-nil, Bool-cases, Option-cases, ◌⊎◌,
  inl, inr,
}
use j7f.Base.Int.{pos, negsuc}
use j7f.Strings.{index, last_index, split}
use j7f.Errors.Frames.{Symbols, Function, after_slash, after_dot, funcname}
use j7f.Http.Recovery.{
  behind, with_dot, short_name, function, Caller, place_line, source_line, stack_from, stack,
}

after_slash-index :
    (acc t : Text)
    → after_slash acc t ≡ elim (last_index b'/' t) [ pos i ↦ drop (suc i) t | negsuc n ↦ acc ]
unfolding after_slash last_index
after_slash-index acc [] = refl
after_slash-index acc (c ∷ t) = ground (arith, after_slash-index acc t, after_slash-index t t)

after_dot-index :
    (t : Text)
    → after_dot t ≡ elim (index b'.' t) [ pos i ↦ some (drop (suc i) t) | negsuc n ↦ none ]
unfolding after_dot index
after_dot-index [] = refl
after_dot-index (c ∷ t) = ground (arith, after_dot-index t)

-- The name that is printed is that of components/errors/stack.go, with dots for the middle dots.
function-funcname :
    (symbols : Symbols) (pc : ℕ) (fn : Function)
    → symbols pc ≡ some fn
    → function symbols pc ≡ map with_dot (funcname fn.name)
function-funcname symbols pc fn e =
    let base : behind (last_index b'/' fn.name) fn.name ≡ after_slash fn.name fn.name =
      unfold behind in ground (arith, after_slash-index fn.name fn.name) in
    let rest : (t : Text) → behind (index b'.' t) t ≡ elim (after_dot t) [ none ↦ t | some u ↦ u ] =
      λ t. unfold behind in ground (arith, after_dot-index t) in
    unfold short_name in
    unfold funcname in unfold function in ground (arith, rest (after_slash fn.name fn.name))

module _ (symbols : Symbols) (read_file : Text → Option Text) where
  -- What is printed of a frame whose file is read anew.
  abbrev pub frame_text : Caller → Text
  frame_text c = place_line c ++ elim (read_file c.file) [
    | none ↦ []
    | some text ↦ source_line symbols (split b'\n' text) c
  ]

  abbrev pub frames_text : List Caller → Text
  frames_text [] = []
  frames_text (c ∷ cs) = frame_text c ++ frames_text cs

  abbrev pub HasFile : Caller → Type 0
  HasFile c = same_text c.file [] ≡ false

  -- No file was read yet, or the lines are those of the last one.
  abbrev IsCached : List Text → Text → Type 0
  IsCached lines last_file =
      (last_file ≡ [])
      ⊎ ((text : Text) × (read_file last_file ≡ some text) × (lines ≡ split b'\n' text))

  -- The loop's round, by the three ways that it goes.
  module _ (lines : List Text) (last_file : Text) (c : Caller) (cs : List Caller) where
    round_cached :
        same_text c.file last_file ≡ true
        → stack_from symbols read_file lines last_file (c ∷ cs)
          ≡ place_line c
            ++ (source_line symbols lines c ++ stack_from symbols read_file lines last_file cs)
    unfolding stack_from
    round_cached s = ground arith

    round_failed :
        same_text c.file last_file ≡ false
        → read_file c.file ≡ none
        → stack_from symbols read_file lines last_file (c ∷ cs)
          ≡ place_line c ++ stack_from symbols read_file lines last_file cs
    unfolding stack_from
    round_failed s e = ground arith

    round_loaded :
        (text : Text)
        → same_text c.file last_file ≡ false
        → read_file c.file ≡ some text
        → stack_from symbols read_file lines last_file (c ∷ cs)
          ≡ place_line c
            ++ (source_line symbols (split b'\n' text) c
                ++ stack_from symbols read_file (split b'\n' text) c.file cs)
    unfolding stack_from
    round_loaded text s e = ground arith

  stack_from_lem :
      (lines : List Text) (last_file : Text) (cs : List Caller)
      → IsCached lines last_file
      → All HasFile cs
      → stack_from symbols read_file lines last_file cs ≡ frames_text cs
  stack_from_lem lines last_file [] h k = unfold stack_from in refl
  stack_from_lem lines last_file (c ∷ cs) h k =
      let place = place_line c in
      let later : (ls : List Text) (f : Text)
          → IsCached ls f
          → stack_from symbols read_file ls f cs ≡ frames_text cs =
        λ ls f i. stack_from_lem ls f cs i k.1 in
      elim (Bool-cases (same_text c.file last_file)) [
        | inl s ↦
            let same : c.file ≡ last_file = (same_text_iff c.file last_file).0 s in
            elim h [
              | inl e ↦ absurd (ground (arith, k.0, (same_text_iff c.file []).1))
              | inr (text, r, l) ↦
                  let read : read_file c.file ≡ some text = ap read_file same ∙ r in
                  ground (
                    arith,
                    round_cached lines last_file c cs s,
                    later lines last_file (inr (text, r, l)),
                    append_assoc place (source_line symbols lines c) (frames_text cs),
                  )
            ]
        | inr s ↦ elim (Option-cases (read_file c.file)) [
          | inl e ↦ ground (
            arith,
            round_failed lines last_file c cs s e,
            later lines last_file h,
            append-nil place,
          )
          | inr (text, e) ↦
              let ls = split b'\n' text in
              ground (
                arith,
                round_loaded lines last_file c cs text s e,
                later ls c.file (inr (text, e, refl)),
                append_assoc place (source_line symbols ls c) (frames_text cs),
              )
        ]
      ]

  -- Where every frame behind those skipped has a file's name, `stack`, which keeps the lines of
  -- the last file, prints what a loop does that reads the file of each frame anew.
  pub stack_lem :
      (skip : ℕ) (cs : List Caller)
      → All HasFile (drop skip cs)
      → stack symbols read_file skip cs ≡ frames_text (drop skip cs)
  unfolding stack
  stack_lem skip cs h = stack_from_lem [] [] (drop skip cs) (inl refl) h
