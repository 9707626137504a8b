-- ===== src/Gateway/Service/Paging.antt =====
-- Pages of lists: `pageSlice` of gateway/mcp_probe.go, and `trimRuns`, its kin for other lists,
-- `nextOffset` and the reading of query parameters of gateway/server.go.
use kkode.Prelude.{
  ℕ, zero, suc, ◌+◌, ◌-◌, ◌≤◌, ◌<◌, min, Bool, true, false, ◌||◌, not, List, [], ◌∷◌, ◌++◌, ◌==◌,
  ltb, leb, if◌then◌else◌, ◌&&◌, length, take, drop, ◌≡◌, refl, sym, ap, ap₂, ltb→lt, lt→ltb, ◌∙◌,
  arith, Bool-cases, inl, inr, length-take, length-drop, take-append-drop, take-all, Option, none,
  some,
}
use kkode.Prelude.Int.{ℤ, pos, negsuc, magnitude}
use kkode.Strings.{Text, is_empty, trim_space}

-- A page, the number of its items, and whether more follow.
pub record Page {ℓ} (A : Type ℓ) : Type ℓ where
  pub items : List A
  pub returned : ℕ
  pub truncated : Bool

module _ {ℓ} {A : Type ℓ} where
  abbrev pub empty_page : Page A
  empty_page = record { items = []; returned = 0; truncated = false }

  -- `pageSlice`. Sums do not wrap: the offset is below the length where they are computed, and the
  -- limits of the callers are at most 5000.
  unfoldable pub page_slice : List A → ℤ → ℤ → Page A
  page_slice xs limit offset =
      let from = magnitude offset in
      let end = min (from + magnitude limit) (length xs) in
      if magnitude limit == 0 || leb (length xs) from then empty_page else record {
        items = take (end - from) (drop from xs);
        returned = end - from;
        truncated = ltb end (length xs);
      }

  -- `trimRuns`, `trimSessionSummaries`, `trimResources` and `trimCheckpoints`: the caller has asked
  -- for one item more than the limit.
  unfoldable pub trim_page : List A → ℕ → Page A
  trim_page xs limit =
      let truncated = ltb limit (length xs) in
      let kept = if truncated then take limit xs else xs in
      record { items = kept; returned = length kept; truncated = truncated }

-- `nextOffset`; 0 says that nothing follows.
unfoldable pub next_offset : ℕ → ℕ → Bool → ℕ
next_offset offset returned truncated =
    if not truncated then 0 else if returned == 0 then 0 else offset + returned

-- `queryNonNegativeIntParam`, with `strconv.Atoi` as an argument. None is the answer 400.
unfoldable pub query_non_negative : (Text → Option ℤ) → Text → ℕ → Option ℕ
unfolding trim_space is_empty
query_non_negative atoi value fallback =
    if is_empty (trim_space value) then some fallback else elim (atoi (trim_space value)) [
      | none ↦ none
      | some (pos n) ↦ some n
      | some (negsuc n) ↦ none
    ]

-- `queryNonNegativeLimitParam`
unfoldable pub query_limit : (Text → Option ℤ) → Text → ℕ → ℕ → Option ℕ
unfolding query_non_negative
query_limit atoi value fallback max = elim (query_non_negative atoi value fallback) [
  | none ↦ none
  | some n ↦ if ltb 0 max && ltb max n then some max else some n
]

-- What a client reads that asks for one page after the other, from an offset on, until it is told
-- that nothing follows.
abbrev pub read_all {ℓ} : {A : Type ℓ} → (ℕ → Page A) → ℕ → ℕ → List A
read_all page zero offset = []
read_all page (suc fuel) offset =
    let p = page offset in
    let next = next_offset offset p.returned p.truncated in
    let rest = read_all page fuel next in if next == 0 then p.items else p.items ++ rest

-- The page of a list from an offset on.
abbrev pub IsPage {ℓ} : {A : Type ℓ} → List A → ℕ → ℕ → Page A → Type ℓ
IsPage xs limit from p =
    (p.items ≡ take limit (drop from xs))
    × (p.returned ≡ min limit (length xs - from))
    × (p.truncated ≡ ltb (from + limit) (length xs))

module _ {ℓ} {A : Type ℓ} where
  take-min : (n : ℕ) (xs : List A) → take (min n (length xs)) xs ≡ take n xs
  take-min n xs = elim (Bool-cases (leb (length xs) n)) [
    | inl e ↦
        let size : min n (length xs) ≡ length xs = ground (arith, e) in
        rw size (take-all (length xs) xs (omega arith) ∙ sym (take-all n xs (ground (arith, e))))
    | inr e ↦ let size : min n (length xs) ≡ n = ground (arith, e) in rw size refl
  ]

  pub drop-end : (n : ℕ) (xs : List A) → length xs ≤ n → drop n xs ≡ []
  drop-end zero [] h = refl
  drop-end zero (x ∷ xs) h = absurd (omega (arith, h))
  drop-end (suc n) [] h = refl
  drop-end (suc n) (x ∷ xs) h = drop-end n xs (omega (arith, h))

  drop-drop : (n m : ℕ) (xs : List A) → drop m (drop n xs) ≡ drop (n + m) xs
  drop-drop zero m xs = ap (λ k. drop k xs) (omega arith)
  drop-drop (suc n) zero [] = sym (drop-end (suc n + zero) [] (omega arith))
  drop-drop (suc n) (suc m) [] = sym (drop-end (suc n + suc m) [] (omega arith))
  drop-drop (suc n) m (x ∷ xs) = drop-drop n m xs ∙ ap (λ k. drop k (x ∷ xs)) (sum n m)
    where
      sum : (n m : ℕ) → suc (n + m) ≡ suc n + m
      sum n m = omega arith

  take-take : (n m : ℕ) (xs : List A) → n ≤ m → take n (take m xs) ≡ take n xs
  take-take zero m xs h = refl
  take-take (suc n) zero xs h = absurd (omega (arith, h))
  take-take (suc n) (suc m) [] h = refl
  take-take (suc n) (suc m) (x ∷ xs) h = ap (◌∷◌ x) (take-take n m xs (omega (arith, h)))

  page_slice-IsPage :
      (xs : List A) (limit from : ℕ)
      → 0 < limit
      → IsPage xs limit from (page_slice xs (pos limit) (pos from))
  unfolding page_slice
  page_slice-IsPage xs limit from h = elim (Bool-cases (leb (length xs) from)) [
    | inl e ↦
        let skipped : (limit == 0 || leb (length xs) from) ≡ true = ground (arith, e) in
        rw skipped (
          sym (
              ap (take limit) (drop-end from xs (ground (arith, e)))
              ∙ take-all limit [] (omega arith)),
          ground (arith, e),
          ground (arith, e),
        )
    | inr e ↦
        let kept : (limit == 0 || leb (length xs) from) ≡ false = ground (arith, e, h) in
        let size : min (from + limit) (length xs) - from ≡ min limit (length xs - from) =
          ground (arith, e) in
        rw kept (
          ap (λ k. take k (drop from xs)) (size ∙ ap (min limit) (sym (length-drop from xs)))
              ∙ take-min limit (drop from xs),
          size,
          ground (arith, e),
        )
  ]

  pub trim_page-IsPage :
      (xs : List A) (limit from : ℕ)
      → IsPage xs limit from (trim_page (take (limit + 1) (drop from xs)) limit)
  unfolding trim_page
  trim_page-IsPage xs limit from =
      let ys = drop from xs in
      let more = take (limit + 1) ys in
      let size : length more ≡ min (limit + 1) (length xs - from) =
        length-take (limit + 1) ys ∙ ap (min (limit + 1)) (length-drop from xs) in
      elim (Bool-cases (ltb limit (length more))) [
        | inl e ↦ rw e (
          take-take limit (limit + 1) ys (omega arith),
          length-take limit more ∙ omega (arith, size, ltb→lt limit (length more) e),
          sym (
              lt→ltb (from + limit) (length xs)
                (omega (arith, size, ltb→lt limit (length more) e))),
        )
        | inr e ↦
            let short : length more ≤ limit = ground (arith, e) in
            rw e (
              sym (take-all limit more short) ∙ take-take limit (limit + 1) ys (omega arith),
              omega (arith, size, short),
              last (from + limit) (length xs) (omega (arith, size, short)),
            )
      ]
    where
      last : (a b : ℕ) → b ≤ a → false ≡ ltb a b
      last a b h = ground arith

  pub read_all-drop :
      (page : ℕ → Page A) (xs : List A) (limit fuel from : ℕ)
      → 0 < limit
      → length xs ≤ from + fuel
      → ((n : ℕ) → IsPage xs limit n (page n))
      → read_all page fuel from ≡ drop from xs
  unfolding next_offset
  read_all-drop page xs limit zero from p h k = sym (drop-end from xs (omega (arith, h)))
  read_all-drop page xs limit (suc fuel) from p h k =
      let (items, returned, truncated) = k from in
      elim (Bool-cases (ltb (from + limit) (length xs))) [
        | inl e ↦
            let more : from + limit < length xs = ltb→lt (from + limit) (length xs) e in
            let full : (page from).returned ≡ limit = returned ∙ omega (arith, more) in
            let some_items : ((page from).returned == 0) ≡ false = ground (arith, full, p) in
            let next : (from + (page from).returned == 0) ≡ false = ground (arith, full, p) in
            rw (truncated ∙ e, some_items, next)
              (ap₂ ◌++◌ items (
                  read_all-drop page xs limit fuel (from + (page from).returned) p
                    (omega (arith, full, h, p)) k
                  ∙ ap (λ n. drop (from + n) xs) full
                  ∙ sym (drop-drop from limit xs))
                ∙ take-append-drop limit (drop from xs))
        | inr e ↦ rw (truncated ∙ e) (
            items
            ∙ take-all limit (drop from xs)
                (omega (arith, length-drop from xs, within (from + limit) (length xs) e)))
      ]
    where
      within : (a b : ℕ) → ltb a b ≡ false → b ≤ a
      within a b h = ground arith

-- A client that follows `next_offset` from the start of a list, with a limit that is not 0, reads
-- every item of the list once and in order: of a list that the service slices itself, and of one of
-- which it asks for one item more than the limit. Reading as many pages as the list has items is
-- enough.
pub read_all-all {ℓ} :
    {A : Type ℓ} (xs : List A) (limit : ℕ)
    → 0 < limit
    → (read_all (λ n. page_slice xs (pos limit) (pos n)) (length xs) 0 ≡ xs)
      × (read_all (λ n. trim_page (take (limit + 1) (drop n xs)) limit) (length xs) 0 ≡ xs)
read_all-all xs limit h = (
  read_all-drop _ xs limit (length xs) 0 h (omega arith) (λ n. page_slice-IsPage xs limit n h),
  read_all-drop _ xs limit (length xs) 0 h (omega arith) (λ n. trim_page-IsPage xs limit n),
)
