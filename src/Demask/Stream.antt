-- ===== src/Demask/Stream.antt =====
-- The demasker over a stream of chunks, against the reference on the whole text.
use privy_gate.Common.{
  ℕ, zero, suc, ◌+◌, ◌<◌, ◌≡◌, ◌≢◌, refl, sym, ap, ◌∙◌, Bool, true, false, inl, inr, List, [], ◌∷◌,
  ◌++◌, append_assoc, append-nil, Option, none, some, Text, arith, length, drop, take, In,
  find-split, length-append, drop-append, take-append,
}
use privy_gate.Common.Dict
use privy_gate.Common.Dict.{Dict, keys}
use privy_gate.Demask.{
  StreamingDemasker, new_demasker, matches, min_match, drain_rest, Drained, drain_loop, drain, feed,
  flush, demask,
}
use privy_gate.Demask.Scan.{scan, is_separate, filled}
use privy_gate.Demask.Matches.{matches-found, min_match-In}
use privy_gate.Demask.Drain.{
  Restores, drain_rest-Restores, list_cases, get-In, drain_loop-hit, drain_loop-miss, scan-match,
}

-- The placeholder of the least match, and the buffer around it.
record Found (m : Dict Text) (buffer : Text) (x : ℕ × Text) (ms : List (ℕ × Text)) : Type 0 where
  before : Text
  after : Text
  value : Text
  key : In (min_match x ms).1 (keys m)
  got : Dict.get (min_match x ms).1 m ≡ some value
  around : buffer ≡ before ++ (min_match x ms).1 ++ after
  position : (min_match x ms).0 ≡ length before

nonempty : (p : Text) → p ≢ [] → 0 < length p
nonempty [] h = absurd (h refl)
nonempty (c ∷ p) h = omega arith

min_match-Found :
    (m : Dict Text) (buffer : Text) (x : ℕ × Text) (ms : List (ℕ × Text))
    → matches buffer (keys m) ≡ x ∷ ms
    → Found m buffer x ms
min_match-Found m buffer x ms found =
    let best = min_match x ms in
    let i : In (best.0, best.1) (matches buffer (keys m)) = rw found (min_match-In x ms) in
    let (k, f) = matches-found buffer (keys m) best.0 best.1 i in
    let (value, got) = get-In m best.1 k in
    let (a, r, e, n) = find-split best.1 buffer f in
    record {
      before = a;
      after = r;
      value = value;
      key = k;
      got = got;
      around = e;
      position = sym n;
    }

module _ (m : Dict Text) (buffer : Text) (x : ℕ × Text) (ms : List (ℕ × Text))
    (f : Found m buffer x ms) where
  take-Found : take (min_match x ms).0 buffer ≡ f.before
  take-Found =
      ap (λ n. take n buffer) f.position
      ∙ ap (take (length f.before)) (f.around ∙ append_assoc f.before (min_match x ms).1 f.after)
      ∙ take-append f.before ((min_match x ms).1 ++ f.after)

  drop-Found : drop ((min_match x ms).0 + length (min_match x ms).1) buffer ≡ f.after
  drop-Found =
      let p = (min_match x ms).1 in
      let n : (min_match x ms).0 + length p ≡ length (f.before ++ p) =
        omega (arith, f.position, length-append f.before p) in
      ap (λ k. drop k buffer) n
      ∙ ap (drop (length (f.before ++ p))) f.around
      ∙ drop-append (f.before ++ p) f.after

  after_shorter : is_separate (keys m) ≡ true → length f.after < length buffer
  after_shorter sep =
      let p = (min_match x ms).1 in
      let filled_p : 0 < length p = nonempty p (filled m sep p f.key) in
      omega
        (arith, ap length f.around, length-append (f.before ++ p) f.after, length-append f.before p)

module _ (m : Dict Text) (sep : is_separate (keys m) ≡ true) (final : Bool) where
  -- One round with a match, and what the rest of the loop gives.
  round-Restores :
      (buffer : Text) (x : ℕ × Text) (ms : List (ℕ × Text)) (d : Drained)
      (found : matches buffer (keys m) ≡ x ∷ ms) (f : Found m buffer x ms)
      → Restores m final f.after d
      → Restores m final buffer
          (record { output = (f.before ++ f.value) ++ d.output; left = d.left })
  round-Restores buffer x ms d found f later =
      let p = (min_match x ms).1 in
      let hit : (rest : Text)
          → scan m 0 (buffer ++ rest) ≡ (f.before ++ f.value) ++ scan m 0 (f.after ++ rest) =
        λ rest.
          ap (λ b. scan m 0 (b ++ rest)) f.around
          ∙ scan-match m sep f.before p f.after rest x ms
              (ap (λ b. matches b (keys m)) (sym f.around) ∙ found) f.key f.position f.got in
      record {
        goes_on = λ rest h.
            hit rest
            ∙ ap (◌++◌ (f.before ++ f.value)) (later.goes_on rest h)
            ∙ sym (append_assoc (f.before ++ f.value) d.output (scan m 0 (d.left ++ rest)));
        ends = λ h. (
          (later.ends h).0,
          sym (
              ap (scan m 0) (sym (append-nil buffer))
              ∙ hit []
              ∙ ap (λ r. (f.before ++ f.value) ++ scan m 0 r) (append-nil f.after)
              ∙ ap (◌++◌ (f.before ++ f.value)) (sym (later.ends h).1)),
        );
      }

  drain_loop-Restores :
      (fuel : ℕ) (buffer : Text)
      → length buffer < fuel
      → (d : Drained) × (drain_loop fuel m final buffer ≡ some d) × Restores m final buffer d
  drain_loop-Restores zero buffer h = absurd (omega arith)
  drain_loop-Restores (suc fuel) [] h = (
    record { output = []; left = [] },
    unfold drain_loop in refl,
    record { goes_on = λ rest _. refl; ends = λ _. (refl, unfold scan in refl) },
  )
  drain_loop-Restores (suc fuel) (c ∷ s) h = elim (list_cases (matches (c ∷ s) (keys m))) [
    | inl free ↦ (
      drain_rest final (c ∷ s) (keys m),
      drain_loop-miss fuel m final c s free,
      drain_rest-Restores m final (c ∷ s) free,
    )
    | inr (x, ms, found) ↦
        let f = min_match-Found m (c ∷ s) x ms found in
        let p = (min_match x ms).1 in
        let next = drop-Found m (c ∷ s) x ms f in
        let front = take-Found m (c ∷ s) x ms f in
        let (d, e, later) =
          drain_loop-Restores fuel f.after (omega (arith, after_shorter m (c ∷ s) x ms f sep)) in
        (
          record { output = (f.before ++ f.value) ++ d.output; left = d.left },
          drain_loop-hit fuel m final c s x ms found f.got ∙ rw (next, front, e),
          round-Restores (c ∷ s) x ms d found f later,
        )
  ]

abbrev pub buffer_of : Option (Text × StreamingDemasker) → Text
buffer_of none = []
buffer_of (some (out, d)) = d.buffer

-- The loop of `_iter_text_demasked`: every chunk is fed, and the demasker flushed at the end; the
-- texts that are given out are joined.
unfoldable pub stream_from : List Text → StreamingDemasker → Option Text
stream_from [] d = elim (flush d) [ none ↦ none | some (tail, d') ↦ some tail ]
stream_from (chunk ∷ chunks) d = elim (feed chunk d) [
  | none ↦ none
  | some (out, d') ↦ elim (stream_from chunks d') [ none ↦ none | some later ↦ some (out ++ later) ]
]

abbrev pub join : List Text → Text
join [] = []
join (chunk ∷ chunks) = chunk ++ join chunks

module _ (m : Dict Text) (sep : is_separate (keys m) ≡ true) where
  drain-Restores :
      (final : Bool) (buffer : Text)
      → (d : Drained) × (drain final (record { mapping = m; buffer = buffer })
          ≡ some (d.output, record { mapping = m; buffer = d.left }))
        × Restores m final buffer d
  unfolding drain
  drain-Restores final buffer =
      let (d, e, r) = drain_loop-Restores m sep final (suc (length buffer)) buffer (omega arith) in
      (d, rw (e, drain), r)

  flush-scan :
      (buffer : Text)
      → flush (record { mapping = m; buffer = buffer })
        ≡ some (scan m 0 buffer, record { mapping = m; buffer = [] })
  unfolding flush
  flush-scan buffer =
      let (d, e, r) = drain-Restores true buffer in e ∙ rw ((r.ends refl).0, (r.ends refl).1)

  stream_from-scan :
      (chunks : List Text) (buffer : Text)
      → stream_from chunks (record { mapping = m; buffer = buffer })
        ≡ some (scan m 0 (buffer ++ join chunks))
  unfolding stream_from feed
  stream_from-scan [] buffer = rw (flush-scan buffer, stream_from) (rw (append-nil buffer))
  stream_from-scan (chunk ∷ chunks) buffer =
      let (d, e, r) = drain-Restores false (buffer ++ chunk) in
      rw (e, stream_from)
        (rw (stream_from-scan chunks d.left) (
          ap some (
            sym (r.goes_on (join chunks) refl)
            ∙ ap (scan m 0) (append_assoc buffer chunk (join chunks)))))

  -- If no placeholder is empty or stands inside another, demasking a stream returns, whatever the
  -- chunks, and what it gives out in all is the one-pass replacement on the joined chunks: the
  -- result does not depend on where the text is cut.
  pub stream-scan :
      (chunks : List Text) → stream_from chunks (new_demasker m) ≡ some (scan m 0 (join chunks))
  stream-scan chunks = stream_from-scan chunks []

  -- Under the same condition `demask` returns the one-pass replacement on its text.
  pub demask-scan : (text : Text) → demask text m ≡ some (scan m 0 text)
  unfolding demask feed
  demask-scan text =
      let (d, e, r) = drain-Restores false text in
      rw (e, demask)
        (rw (flush-scan d.left) (
          ap some (
            ap (λ b. d.output ++ scan m 0 b) (sym (append-nil d.left))
            ∙ sym (r.goes_on [] refl)
            ∙ ap (scan m 0) (append-nil text))))
