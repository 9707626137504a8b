-- ===== src/Gateway/Events/Sequence.antt =====
-- What one reader of a channel of gateway/event_bus.go sees over time.
use kkode.Prelude.{
  ℕ, Bool, true, false, List, [], ◌∷◌, ◌++◌, append-nil, append_assoc, ltb, if◌then◌else◌, length,
  drop, ◌≡◌, ◌⊎◌, inl, inr, refl, sym, subst, Bool-cases, snoc-append,
}
use kkode.Gateway.Events.{send, try_send}

module _ {A : Type 0} where
  -- `IsSublist xs ys`: the items of `xs` are items of `ys`, each at most once and in the same order.
  abbrev pub IsSublist : List A → List A → Type 0
  IsSublist [] ys = Unit
  IsSublist (x ∷ xs) [] = ⊥
  IsSublist (x ∷ xs) (y ∷ ys) = ((x ≡ y) × IsSublist xs ys) ⊎ IsSublist (x ∷ xs) ys

  IsSublist-tail : (x : A) (xs ys : List A) → IsSublist (x ∷ xs) ys → IsSublist xs ys
  IsSublist-tail x [] ys h = tt
  IsSublist-tail x (z ∷ xs) [] h = absurd h
  IsSublist-tail x (z ∷ xs) (y ∷ ys) (inl h) = inr h.1
  IsSublist-tail x (z ∷ xs) (y ∷ ys) (inr h) = inr (IsSublist-tail x (z ∷ xs) ys h)

  IsSublist-remove :
      (before : List A) (x : A) (bs ys : List A)
      → IsSublist (before ++ x ∷ bs) ys
      → IsSublist (before ++ bs) ys
  IsSublist-remove [] x bs ys h = IsSublist-tail x bs ys h
  IsSublist-remove (a ∷ before) x bs [] h = absurd h
  IsSublist-remove (a ∷ before) x bs (y ∷ ys) (inl h) =
      inl (h.0, IsSublist-remove before x bs ys h.1)
  IsSublist-remove (a ∷ before) x bs (y ∷ ys) (inr h) =
      inr (IsSublist-remove (a ∷ before) x bs ys h)

  IsSublist-skip : (xs ys : List A) (z : A) → IsSublist xs ys → IsSublist xs (ys ++ z ∷ [])
  IsSublist-skip [] ys z h = tt
  IsSublist-skip (x ∷ xs) [] z h = absurd h
  IsSublist-skip (x ∷ xs) (y ∷ ys) z (inl h) = inl (h.0, IsSublist-skip xs ys z h.1)
  IsSublist-skip (x ∷ xs) (y ∷ ys) z (inr h) = inr (IsSublist-skip (x ∷ xs) ys z h)

  IsSublist-snoc :
      (xs ys : List A) (z : A) → IsSublist xs ys → IsSublist (xs ++ z ∷ []) (ys ++ z ∷ [])
  IsSublist-snoc [] [] z h = inl (refl, tt)
  IsSublist-snoc [] (y ∷ ys) z h = inr (IsSublist-snoc [] ys z tt)
  IsSublist-snoc (x ∷ xs) [] z h = absurd h
  IsSublist-snoc (x ∷ xs) (y ∷ ys) z (inl h) = inl (h.0, IsSublist-snoc xs ys z h.1)
  IsSublist-snoc (x ∷ xs) (y ∷ ys) z (inr h) = inr (IsSublist-snoc (x ∷ xs) ys z h)

  -- A send leaves what the reader has and the buffer a part of what was sent.
  send-IsSublist :
      (capacity : ℕ) (last : Bool) (x : A) (got buffer ys : List A)
      → IsSublist (got ++ buffer) ys
      → IsSublist (got ++ send capacity last x buffer) (ys ++ x ∷ [])
  unfolding send
  send-IsSublist capacity last x got buffer ys h =
      elim (Bool-cases (ltb (length buffer) capacity)) [
        | inl e ↦ rw e (put_last buffer h)
        | inr e ↦ rw e (by_last last)
      ]
    where
      put_last :
          (b : List A) → IsSublist (got ++ b) ys → IsSublist (got ++ (b ++ x ∷ [])) (ys ++ x ∷ [])
      put_last b k =
          subst (λ v. IsSublist v (ys ++ x ∷ [])) (append_assoc got b (x ∷ []))
            (IsSublist-snoc (got ++ b) ys x k)

      shorter : (b : List A) → IsSublist (got ++ b) ys → IsSublist (got ++ drop 1 b) ys
      shorter [] k = k
      shorter (c ∷ b) k = IsSublist-remove got c b ys k

      tried :
          (b : List A)
          → IsSublist (got ++ b) ys
          → IsSublist (got ++ try_send capacity x b) (ys ++ x ∷ [])
      tried b k =
          unfold try_send in
          (elim (Bool-cases (ltb (length b) capacity)) [
            | inl e ↦ rw e (put_last b k)
            | inr e ↦ rw e (IsSublist-skip (got ++ b) ys x k)
          ])

      by_last :
          (l : Bool)
          → IsSublist
              (got ++ (if l then try_send capacity x (drop 1 buffer) else buffer))
              (ys ++ x ∷ [])
      by_last true = tried (drop 1 buffer) (shorter buffer h)
      by_last false = IsSublist-skip (got ++ buffer) ys x h

-- What happens at a channel: a send of a message, the last of its run or not, or a read.
pub data Act {ℓ} (A : Type ℓ) : Type ℓ where
  sent : Bool → A → Act A
  read : Act A

module _ {A : Type 0} where
  unfoldable pub all_sent : List (Act A) → List A
  all_sent [] = []
  all_sent (sent last x ∷ acts) = x ∷ all_sent acts
  all_sent (read ∷ acts) = all_sent acts

  -- What the reader has got, oldest first, and the buffer.
  unfoldable pub after : ℕ → List (Act A) → List A × List A → List A × List A
  unfolding send
  after capacity [] s = s
  after capacity (sent last x ∷ acts) (got, buffer) =
      after capacity acts (got, send capacity last x buffer)
  after capacity (read ∷ acts) (got, []) = after capacity acts (got, [])
  after capacity (read ∷ acts) (got, x ∷ buffer) = after capacity acts (got ++ x ∷ [], buffer)

  after-IsSublist' :
      (capacity : ℕ) (acts : List (Act A)) (got buffer ys : List A)
      → IsSublist (got ++ buffer) ys
      → IsSublist
          ((after capacity acts (got, buffer)).0 ++ (after capacity acts (got, buffer)).1)
          (ys ++ all_sent acts)
  unfolding after all_sent
  after-IsSublist' capacity [] got buffer ys h =
      subst (IsSublist (got ++ buffer)) (sym (append-nil ys)) h
  after-IsSublist' capacity (sent last x ∷ acts) got buffer ys h =
      subst (IsSublist _) (snoc-append ys (all_sent acts) x) (
        after-IsSublist' capacity acts got (send capacity last x buffer) (ys ++ x ∷ [])
          (send-IsSublist capacity last x got buffer ys h))
  after-IsSublist' capacity (read ∷ acts) got [] ys h = after-IsSublist' capacity acts got [] ys h
  after-IsSublist' capacity (read ∷ acts) got (x ∷ buffer) ys h =
      after-IsSublist' capacity acts (got ++ x ∷ []) buffer ys
        (subst (λ v. IsSublist v ys) (sym (snoc-append got buffer x)) h)

  -- Over any sequence of sends and reads, what a reader has got, together with what its channel still
  -- holds, is a part of what was sent, in the order in which it was sent and nothing twice.
  pub after-IsSublist :
      (capacity : ℕ) (acts : List (Act A))
      → IsSublist
          ((after capacity acts ([], [])).0 ++ (after capacity acts ([], [])).1)
          (all_sent acts)
  after-IsSublist capacity acts = after-IsSublist' capacity acts [] [] [] tt
