-- ===== src/Workspace/Output.antt =====
-- `boundedCommandBuffer` of workspace/workspace.go: the first bytes of a command's output.
use kkode.Prelude.{
  ℕ, zero, suc, ◌+◌, ◌-◌, ◌≤◌, Bool, true, false, List, [], ◌∷◌, ◌++◌, append-nil, append_assoc,
  leb, ltb, leb→le, arith, if◌then◌else◌, length, take, ◌≡◌, refl, sym, ap, ap₂, subst, ◌∙◌,
  Bool-cases, inl, inr, length-take, take-all,
}
use kkode.Prelude.Int.{ℤ, magnitude}

pub record BoundedBuffer : Type 0 where
  pub buf : List ℕ
  pub max_bytes : ℤ
  pub truncated : Bool

-- `Write`, whose answer is always the length of what it was given.
unfoldable pub write_bytes : List ℕ → BoundedBuffer → BoundedBuffer
write_bytes p b =
    if leb (magnitude b.max_bytes) (length b.buf)
    then record b { truncated = true }
    else if ltb (magnitude b.max_bytes - length b.buf) (length p)
    then record b { buf = b.buf ++ take (magnitude b.max_bytes - length b.buf) p; truncated = true }
    else record b { buf = b.buf ++ p }

unfoldable pub write_each : List (List ℕ) → BoundedBuffer → BoundedBuffer
unfolding write_bytes
write_each [] b = b
write_each (p ∷ ps) b = write_each ps (write_bytes p b)

unfoldable pub all_bytes : List (List ℕ) → List ℕ
all_bytes [] = []
all_bytes (p ∷ ps) = p ++ all_bytes ps

abbrev pub empty_buffer : ℤ → BoundedBuffer
empty_buffer n = record { buf = []; max_bytes = n; truncated = false }

-- The buffer has the first bytes of what was written, and all of them unless it says otherwise.
record IsFirst (n : ℤ) (written : List ℕ) (b : BoundedBuffer) : Type 0 where
  same_max : b.max_bytes ≡ n
  first : b.buf ≡ take (magnitude n) written
  complete : b.truncated ≡ false → b.buf ≡ written

take-append : (n : ℕ) (xs ys : List ℕ) → take n (xs ++ ys) ≡ take n xs ++ take (n - length xs) ys
take-append zero xs ys = ap (λ k. take k ys) (none_left (length xs))
  where
    none_left : (k : ℕ) → 0 ≡ 0 - k
    none_left k = omega arith
take-append (suc n) [] ys = ap (λ k. take k ys) all_left
  where
    all_left : suc n ≡ suc n - 0
    all_left = omega arith
take-append (suc n) (x ∷ xs) ys =
    ap (x ∷◌) (take-append n xs ys ∙ ap (λ k. take n xs ++ take k ys) (same (length xs)))
  where
    same : (k : ℕ) → n - k ≡ suc n - suc k
    same k = omega arith

-- A buffer that is full has what the limit lets through; one that is not has everything.
full : (n : ℕ) (xs ys : List ℕ) → n ≤ length (take n xs) → take n xs ≡ take n (xs ++ ys)
full n xs ys h =
    sym (take-append n xs ys ∙ ap (λ k. take n xs ++ take k ys) none_left ∙ append-nil (take n xs))
  where
    none_left : n - length xs ≡ 0
    none_left = omega (arith, length-take n xs)

room : (n : ℕ) (xs : List ℕ) → length (take n xs) + 1 ≤ n → take n xs ≡ xs
room n xs h = take-all n xs (omega (arith, length-take n xs))

-- What a write adds where there is room.
added :
    (n : ℕ) (xs p : List ℕ)
    → length (take n xs) + 1 ≤ n
    → take n xs ++ take (n - length (take n xs)) p ≡ take n (xs ++ p)
added n xs p h =
    ap (λ k. take n xs ++ take (n - k) p) (ap length (room n xs h)) ∙ sym (take-append n xs p)

write_bytes-IsFirst :
    (n : ℤ) (written p : List ℕ) (b : BoundedBuffer)
    → IsFirst n written b
    → IsFirst n (written ++ p) (write_bytes p b)
unfolding write_bytes
write_bytes-IsFirst n written p b h =
    elim (Bool-cases (leb (magnitude b.max_bytes) (length b.buf))) [
      | inl e ↦ rw e (record {
        same_max = h.same_max;
        first = h.first ∙ full (magnitude n) written p (limit (leb→le _ _ e));
        complete = λ t. absurd (true_false t);
      })
      | inr e ↦ rw e (elim (Bool-cases (ltb (magnitude b.max_bytes - length b.buf) (length p))) [
        | inl q ↦ rw q (record {
          same_max = h.same_max;
          first = put_together e;
          complete = λ t. absurd (true_false t);
        })
        | inr q ↦ rw q (record {
          same_max = h.same_max;
          first = ap (b.buf ++◌) (sym (take-all _ p (fits q))) ∙ put_together e;
          complete = λ t. ap (◌++ p) (h.complete t);
        })
      ])
    ]
  where
    true_false : true ≡ false → ⊥
    true_false e = cc

    limit : magnitude b.max_bytes ≤ length b.buf → magnitude n ≤ length (take (magnitude n) written)
    limit k =
        subst (λ x. magnitude n ≤ length x) h.first
          (subst (λ m. magnitude m ≤ length b.buf) h.same_max k)

    fits : {m : ℕ} → ltb m (length p) ≡ false → length p ≤ m
    fits q = ground arith

    some_room :
        leb (magnitude b.max_bytes) (length b.buf) ≡ false
        → length b.buf + 1 ≤ magnitude b.max_bytes
    some_room e = ground arith

    put_together :
        leb (magnitude b.max_bytes) (length b.buf) ≡ false
        → b.buf ++ take (magnitude b.max_bytes - length b.buf) p ≡ take (magnitude n) (written ++ p)
    put_together e =
        ap₂ (λ m x. x ++ take (magnitude m - length x) p) h.same_max h.first
        ∙ added (magnitude n) written p (
            subst (λ x. length x + 1 ≤ magnitude n) h.first
              (subst (λ m. length b.buf + 1 ≤ magnitude m) h.same_max (some_room e)))

write_each-IsFirst :
    (n : ℤ) (ps : List (List ℕ)) (written : List ℕ) (b : BoundedBuffer)
    → IsFirst n written b
    → IsFirst n (written ++ all_bytes ps) (write_each ps b)
unfolding write_each all_bytes
write_each-IsFirst n [] written b h = subst (λ x. IsFirst n x b) (sym (append-nil written)) h
write_each-IsFirst n (p ∷ ps) written b h =
    subst (λ x. IsFirst n x (write_each ps (write_bytes p b)))
      (append_assoc written p (all_bytes ps))
      (write_each-IsFirst n ps (written ++ p) (write_bytes p b)
        (write_bytes-IsFirst n written p b h))

-- After any sequence of writes the buffer has the first bytes of the output, as many as its limit
-- allows, and none if that is negative; it has the whole output unless it is marked as truncated.
pub write_each-first :
    (n : ℤ) (ps : List (List ℕ))
    → ((write_each ps (empty_buffer n)).buf ≡ take (magnitude n) (all_bytes ps))
      × ((write_each ps (empty_buffer n)).truncated ≡ false
          → (write_each ps (empty_buffer n)).buf ≡ all_bytes ps)
write_each-first n ps =
    let r =
      write_each-IsFirst n ps [] (empty_buffer n)
        (record { same_max = refl; first = nothing (magnitude n); complete = λ t. refl }) in
    (r.first, r.complete)
  where
    nothing : (k : ℕ) → [] ≡ take {A = ℕ} k []
    nothing zero = refl
    nothing (suc k) = refl
