-- ===== src/Gateway/Requests/Blocks.antt =====
-- Context blocks: where `truncateContextBlock` cuts, and how long a block can be.
use kkode.Prelude.{
  ℕ, ◌+◌, ◌≤◌, ◌<◌, false, List, [], ◌∷◌, ◌++◌, ◌==◌, ◌≡◌, refl, sym, ap, arith, ltb, leb,
  Bool-cases, inl, inr, All, append-nil, ◌∙◌, none, some, Option, subst,
}
use kkode.Strings.{Text, is_empty, trim_space}
use kkode.Strings.Bytes.{utf8_len, byte_len, byte_len-append, IsLongestWithin}
use kkode.Gateway.Requests.{
  fitting, truncate_context_block, context_block, sanitize_context_blocks, add_some,
  truncation_note, max_run_context_block_bytes,
}

-- The loop's invariant: `used` bytes are passed already.
record IsFit (used max : ℕ) (s t : Text) : Type 0 where
  rest : Text
  split : s ≡ t ++ rest
  fits : used + byte_len t ≤ max
  longest : (c : ℕ) (u : Text) → rest ≡ c ∷ u → max < used + byte_len t + utf8_len c

same_head : (c d : ℕ) (s u : Text) → c ∷ s ≡ d ∷ u → c ≡ d
same_head c d s u e = cc

IsFit-nil :
    (used max : ℕ) (c : ℕ) (s : Text)
    → used ≤ max
    → max < used + utf8_len c
    → IsFit used max (c ∷ s) []
unfolding byte_len
IsFit-nil used max c s h over = record {
  rest = c ∷ s;
  split = refl;
  fits = omega (arith, h);
  longest = λ d u e. let same = ap utf8_len (same_head c d s u e) in omega (arith, over, same);
}

IsFit-cons :
    (used max : ℕ) (c : ℕ) (s t : Text)
    → IsFit (used + utf8_len c) max s t
    → IsFit used max (c ∷ s) (c ∷ t)
unfolding byte_len
IsFit-cons used max c s t k = record {
  rest = k.rest;
  split = ap (◌∷◌ c) k.split;
  fits = omega (arith, k.fits);
  longest = λ d u e. omega (arith, k.longest d u e);
}

fitting-IsFit : (used max : ℕ) (s : Text) → used ≤ max → IsFit used max s (fitting used max s)
unfolding fitting
fitting-IsFit used max [] h = record {
  rest = [];
  split = refl;
  fits = unfold byte_len in omega (arith, h);
  longest = λ c u e. absurd (cc e);
}
fitting-IsFit used max (c ∷ s) h = elim (Bool-cases (ltb max (used + utf8_len c))) [
  | inl e ↦ rw e (IsFit-nil used max c s h (ground (arith, e)))
  | inr e ↦
      rw e (IsFit-cons used max c s _ (fitting-IsFit (used + utf8_len c) max s (ground (arith, e))))
]

byte_len-snoc : (t : Text) (c : ℕ) → byte_len (t ++ c ∷ []) ≡ byte_len t + utf8_len c
byte_len-snoc t c = byte_len-append t (c ∷ []) ∙ unfold byte_len in omega arith

byte_len-cons : (c : ℕ) (u : Text) → utf8_len c ≤ byte_len (c ∷ u)
unfolding byte_len
byte_len-cons c u = omega arith

-- `truncateContextBlock` keeps the longest start of the text, cut between two code points, that
-- has at most the given number of bytes, where that number is not 0.
pub truncate_context_block-IsLongestWithin :
    (text : Text) (max : ℕ) → 0 < max → IsLongestWithin max text (truncate_context_block text max)
unfolding truncate_context_block
truncate_context_block-IsLongestWithin text max h =
    let positive : (max == 0) ≡ false = ground (arith, h) in
    elim (Bool-cases (leb (byte_len text) max)) [
      | inl e ↦
          rw (positive, e)
            (record {
              rest = [];
              split = sym (append-nil text);
              fits = ground (arith, e);
              longest = λ c u q. absurd (cc q);
            })
      | inr e ↦
          let k = fitting-IsFit 0 max text (omega arith) in
          rw (positive, e)
            (record {
              rest = k.rest;
              split = k.split;
              fits = omega (arith, k.fits);
              longest =
                  λ c u q. omega (arith, k.longest c u q, byte_len-snoc (fitting 0 max text) c);
            })
    ]

-- A block that is neither empty nor longer than the bound and the note together.
pub record IsBlock (block : Text) : Type 0 where
  pub some_text : is_empty block ≡ false
  pub short : byte_len block ≤ max_run_context_block_bytes + byte_len truncation_note

is_empty-append : (s t : Text) → is_empty s ≡ false → is_empty (s ++ t) ≡ false
unfolding is_empty
is_empty-append [] t h = absurd (cc h)
is_empty-append (c ∷ s) t h = refl

IsBlock-cut :
    (text : Text)
    → is_empty (truncate_context_block text max_run_context_block_bytes) ≡ false
    → IsBlock (truncate_context_block text max_run_context_block_bytes ++ truncation_note)
IsBlock-cut text h =
    let bound = max_run_context_block_bytes in
    let k = truncate_context_block-IsLongestWithin text bound (omega arith) in
    record {
      some_text = is_empty-append (truncate_context_block text bound) truncation_note h;
      short =
          omega
            (arith, k.fits, byte_len-append (truncate_context_block text bound) truncation_note);
    }

All-add_some :
    (o : Option Text) (bs : List Text)
    → ((b : Text) → o ≡ some b → IsBlock b)
    → All IsBlock bs
    → All IsBlock (add_some o bs)
All-add_some none bs h k = k
All-add_some (some b) bs h k = (h b refl, k)

context_block-IsBlock : (text b : Text) → context_block text ≡ some b → IsBlock b
unfolding context_block
context_block-IsBlock text b h = elim (Bool-cases (is_empty text)) [
  | inl e ↦ absurd (cc (rw e at h))
  | inr e ↦ elim (Bool-cases (ltb max_run_context_block_bytes (byte_len text))) [
    | inl f ↦
        let cut = truncate_context_block text max_run_context_block_bytes in
        elim (Bool-cases (is_empty cut)) [
          | inl g ↦ absurd (cc (rw (e, f, g) at h))
          | inr g ↦
              let same : cut ++ truncation_note ≡ b = cc (rw (e, f, g) at h) in
              subst IsBlock same (IsBlock-cut text g)
        ]
    | inr f ↦
        let same : text ≡ b = cc (rw (e, f) at h) in
        subst IsBlock same (record { some_text = e; short = ground (arith, f) })
  ]
]

-- Every context block that `SanitizeContextBlocks` lets through has some text, and at most 32768
-- bytes besides the note on a cut, whatever the redaction of secrets does.
pub sanitize_context_blocks-IsBlock :
    (redact : Text → Text) (blocks : List Text)
    → All IsBlock (sanitize_context_blocks redact blocks)
unfolding sanitize_context_blocks
sanitize_context_blocks-IsBlock redact [] = tt
sanitize_context_blocks-IsBlock redact (block ∷ blocks) =
    All-add_some _ _ (context_block-IsBlock (trim_space (redact block)))
      (sanitize_context_blocks-IsBlock redact blocks)
