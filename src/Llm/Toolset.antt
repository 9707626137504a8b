-- ===== src/Llm/Toolset.antt =====
-- `ToolSet` of llm/tools.go: definitions of tools, and their handlers. A copy is the same set.
use kkode.Prelude.{
  Bool, true, false, List, [], ◌∷◌, ◌++◌, if◌then◌else◌, Option, none, some, ◌≡◌, refl, sym, ap,
  subst, ◌∙◌, Bool-cases, inl, inr,
}
use kkode.Strings.{Text, text_eq}
use kkode.Strings.Prefixes.{text_eq_iff}
use kkode.Llm.Tools.{Handler, ToolRegistry, handler_of}

pub record ToolSet (Tool W : Type 0) : Type 0 where
  pub definitions : List Tool
  pub handlers : ToolRegistry W

module _ {W : Type 0} where
  -- `handlers[name] = handler`
  unfoldable pub put_handler : ToolRegistry W → Text → Option (Handler W) → ToolRegistry W
  unfolding text_eq
  put_handler [] n h = (n, h) ∷ []
  put_handler ((m, g) ∷ reg) n h =
      let rest = put_handler reg n h in if text_eq m n then (n, h) ∷ reg else (m, g) ∷ rest

  -- The loop over the other handlers, in the order in which the map gives them.
  unfoldable pub put_handlers : ToolRegistry W → ToolRegistry W → ToolRegistry W
  unfolding put_handler
  put_handlers reg [] = reg
  put_handlers reg ((n, h) ∷ more) = put_handlers (put_handler reg n h) more

  -- The keys of a map are different.
  abbrev pub HasKeys : ToolRegistry W → Type 0
  HasKeys [] = Unit
  HasKeys ((n, h) ∷ reg) = (handler_of reg n ≡ none) × HasKeys reg

  abbrev pub or_handler :
      Option (Option (Handler W)) → Option (Option (Handler W)) → Option (Option (Handler W))
  or_handler none b = b
  or_handler (some a) b = some a

  handler_of-put_handler :
      (reg : ToolRegistry W) (n k : Text) (h : Option (Handler W))
      → handler_of (put_handler reg n h) k ≡ (if text_eq n k then some h else handler_of reg k)
  unfolding handler_of put_handler
  handler_of-put_handler [] n k h = elim (Bool-cases (text_eq n k)) [
    | inl e ↦ rw e refl
    | inr e ↦ rw e refl
  ]
  handler_of-put_handler ((m, g) ∷ reg) n k h = elim (Bool-cases (text_eq m n)) [
    | inl e ↦ rw e (elim (Bool-cases (text_eq n k)) [
      | inl q ↦ rw q refl
      | inr q ↦ rw (q, subst (λ x. text_eq x k ≡ false) (sym ((text_eq_iff m n).0 e)) q) refl
    ])
    | inr e ↦ rw e (elim (Bool-cases (text_eq m k)) [
      | inr p ↦ rw p (handler_of-put_handler reg n k h)
      | inl p ↦ elim (Bool-cases (text_eq n k)) [
        | inl q ↦
            absurd
              (clash e ((text_eq_iff m n).1 ((text_eq_iff m k).0 p ∙ sym ((text_eq_iff n k).0 q))))
        | inr q ↦ rw (p, q) refl
      ]
    ])
  ]
    where
      clash : {b : Bool} → b ≡ false → b ≡ true → ⊥
      clash e q = cc

  -- A registry with the handlers of another one put in has the other one's handler where it has one,
  -- even a nil one, and its own elsewhere. The keys of the other one are different.
  pub handler_of-put_handlers :
      (reg more : ToolRegistry W) (k : Text)
      → HasKeys more
      → handler_of (put_handlers reg more) k ≡ or_handler (handler_of more k) (handler_of reg k)
  unfolding put_handlers handler_of
  handler_of-put_handlers reg [] k u = refl
  handler_of-put_handlers reg ((n, h) ∷ more) k u = elim (Bool-cases (text_eq n k)) [
    | inl e ↦
        handler_of-put_handlers (put_handler reg n h) more k u.1
        ∙ rw (e, subst (λ x. handler_of more x ≡ none) ((text_eq_iff n k).0 e) u.0)
            (handler_of-put_handler reg n k h ∙ rw e refl)
    | inr e ↦
        handler_of-put_handlers (put_handler reg n h) more k u.1
        ∙ rw e (ap (or_handler (handler_of more k)) (handler_of-put_handler reg n k h ∙ rw e refl))
  ]

module _ {Tool W : Type 0} where
  -- `NewToolSet`
  unfoldable pub new_tool_set : List Tool → ToolRegistry W → ToolSet Tool W
  unfolding put_handlers
  new_tool_set defs reg = record { definitions = defs; handlers = put_handlers [] reg }

  -- `Merge`
  unfoldable pub merge : ToolSet Tool W → ToolSet Tool W → ToolSet Tool W
  unfolding put_handlers
  merge s other = record {
    definitions = s.definitions ++ other.definitions;
    handlers = put_handlers s.handlers other.handlers;
  }
