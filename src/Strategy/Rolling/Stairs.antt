-- ===== src/Strategy/Rolling/Stairs.antt =====
-- The deques of a rolling range: an entry stays while it is among the last ones and no later price
-- beats it, so that the left end is the best price of the window.
use gptrader_mw_v.Prelude.{
  ℕ, suc, ◌≡◌, refl, ap, ◌∙◌, Bool, true, false, List, [], ◌∷◌, ◌≤◌, ltb, if◌then◌else◌, Bool-cases,
  inl, inr, arith,
}
use gptrader_mw_v.Decimal.{Decimal}
use gptrader_mw_v.Strategy.Rolling.{Entry, pop_right, pop_left, keep_left, leftmost}

-- When a new price takes the place of an old one: a total order.
pub record IsOrder (beats : Decimal → Decimal → Bool) : Type 0 where
  pub chains : (a b c : Decimal) → beats a b ≡ true → beats b c ≡ true → beats a c ≡ true
  pub connects : (a b : Decimal) → beats a b ≡ false → beats b a ≡ true

-- The entries whose number is not too early, of a list that begins with the latest.
unfoldable pub kept : ℕ → List Entry → List Entry
kept earliest [] = []
kept earliest (e ∷ es) = if ltb e.index earliest then [] else e ∷ kept earliest es

-- The numbers go down from the latest entry.
unfoldable pub Falling : List Entry → Type 0
Falling [] = Unit
Falling (e ∷ []) = Unit
Falling (e ∷ d ∷ es) = (suc d.index ≤ e.index) × Falling (d ∷ es)

module _ (beats : Decimal → Decimal → Bool) where
  -- The deque after all entries of a list that begins with the latest.
  unfoldable pub stairs : List Entry → List Entry
  unfolding pop_right
  stairs [] = []
  stairs (e ∷ es) = e ∷ pop_right (beats e.price) (stairs es)

  abbrev pub best : Decimal → Decimal → Decimal
  best a b = if beats a b then a else b

  -- The best price of the entries.
  unfoldable pub best_of : Entry → List Entry → Decimal
  best_of e [] = e.price
  best_of e (d ∷ es) = best e.price (best_of d es)

  -- Taking from one end commutes with taking from the other.
  pop_right-keep_left :
      (earliest : ℕ) (beaten : Decimal → Bool) (e : Entry) (es : List Entry)
      → (beaten e.price ≡ true → pop_right beaten es ≡ pop_right beaten (keep_left earliest e es))
        × (beaten e.price ≡ false
            → keep_left earliest e es ≡ pop_right beaten (keep_left earliest e es))
  unfolding pop_right
  pop_right-keep_left earliest beaten e [] = ground arith
  pop_right-keep_left earliest beaten e (d ∷ es) = ground arith

  pop_left-pop_right :
      (earliest : ℕ) (beaten : Decimal → Bool) (es : List Entry)
      → pop_left earliest (pop_right beaten es) ≡ pop_right beaten (pop_left earliest es)
  unfolding pop_left pop_right
  pop_left-pop_right earliest beaten [] = refl
  pop_left-pop_right earliest beaten (e ∷ es) = elim (Bool-cases (beaten e.price)) [
    | inl h ↦
        ground
          (arith, h, pop_left-pop_right earliest beaten es, pop_right-keep_left earliest beaten e)
    | inr h ↦
        ground
          (arith, h, pop_left-pop_right earliest beaten es, pop_right-keep_left earliest beaten e)
  ]

  Falling-tail : (e : Entry) (es : List Entry) → Falling (e ∷ es) → Falling es
  unfolding Falling
  Falling-tail e [] falling = tt
  Falling-tail e (d ∷ es) falling = falling.1

  kept-early :
      (earliest : ℕ) (e : Entry) (es : List Entry)
      → Falling (e ∷ es)
      → ltb e.index earliest ≡ true
      → kept earliest es ≡ []
  unfolding kept Falling
  kept-early earliest e [] falling early = refl
  kept-early earliest e (d ∷ es) falling early = ground arith

  -- Without the entries that are too early, the deque is that of the others.
  pub pop_left-stairs :
      (earliest : ℕ) (es : List Entry)
      → Falling es
      → pop_left earliest (stairs es) ≡ stairs (kept earliest es)
  unfolding pop_left stairs kept
  pop_left-stairs earliest [] falling = refl
  pop_left-stairs earliest (e ∷ es) falling = elim (Bool-cases (ltb e.index earliest)) [
    | inl early ↦
        let none_left =
          pop_left-pop_right earliest (beats e.price) (stairs es)
          ∙ ap (λ ds. pop_right (beats e.price) ds)
              (pop_left-stairs earliest es (Falling-tail e es falling)
                ∙ ap stairs (kept-early earliest e es falling early)) in
        ground (arith, early, none_left)
    | inr late ↦
        let others_left =
          pop_left-pop_right earliest (beats e.price) (stairs es)
          ∙ ap (λ ds. pop_right (beats e.price) ds)
              (pop_left-stairs earliest es (Falling-tail e es falling)) in
        ground (arith, late, others_left)
  ]

  -- Every price in front of another one is beaten by the one behind it.
  unfoldable Rising : List Entry → Type 0
  Rising [] = Unit
  Rising (e ∷ []) = Unit
  Rising (e ∷ d ∷ es) = (beats e.price d.price ≡ false) × Rising (d ∷ es)

  module _ (order : IsOrder beats) where
    Rising-tail : (e : Entry) (es : List Entry) → Rising (e ∷ es) → Rising es
    unfolding Rising
    Rising-tail e [] rising = tt
    Rising-tail e (d ∷ es) rising = rising.1

    pop_right-Rising :
        (e : Entry) (es : List Entry) → Rising es → Rising (e ∷ pop_right (beats e.price) es)
    unfolding Rising pop_right
    pop_right-Rising e [] rising = tt
    pop_right-Rising e (d ∷ es) rising =
        by_cases (beats e.price d.price) refl (pop_right-Rising e es (Rising-tail d es rising))
      where
        by_cases :
            (b : Bool)
            → beats e.price d.price ≡ b
            → Rising (e ∷ pop_right (beats e.price) es)
            → Rising (e ∷ (if b then pop_right (beats e.price) es else d ∷ es))
        by_cases true h popped = popped
        by_cases false h popped = (h, rising)

    stairs-Rising : (es : List Entry) → Rising (stairs es)
    unfolding stairs Rising
    stairs-Rising [] = tt
    stairs-Rising (e ∷ es) = pop_right-Rising e (stairs es) (stairs-Rising es)

    leftmost-beats :
        (e : Entry) (es : List Entry) → Rising (e ∷ es) → beats (leftmost e.price es) e.price ≡ true
    unfolding leftmost Rising
    leftmost-beats e [] rising = elim (Bool-cases (beats e.price e.price)) [
      | inl h ↦ h
      | inr h ↦ order.connects _ _ h
    ]
    leftmost-beats e (d ∷ es) rising =
        order.chains _ _ _ (leftmost-beats d es rising.1) (order.connects _ _ rising.0)

    -- What a price does not beat, it does not beat further to the left.
    leftmost-unbeaten :
        (price : Decimal) (e : Entry) (es : List Entry)
        → Rising (e ∷ es)
        → beats price e.price ≡ false
        → beats price (leftmost e.price es) ≡ false
    leftmost-unbeaten price e es rising h = elim (Bool-cases (beats price (leftmost e.price es))) [
      | inl beaten ↦ ground (arith, order.chains _ _ _ beaten (leftmost-beats e es rising))
      | inr unbeaten ↦ unbeaten
    ]

    leftmost-pop_right :
        (price : Decimal) (e : Entry) (es : List Entry)
        → Rising (e ∷ es)
        → leftmost price (pop_right (beats price) (e ∷ es)) ≡ best price (leftmost e.price es)
    unfolding leftmost pop_right Rising
    leftmost-pop_right price e [] rising = ground arith
    leftmost-pop_right price e (d ∷ es) rising = elim (Bool-cases (beats price e.price)) [
      | inl h ↦ rw h (leftmost-pop_right price d es rising.1)
      | inr h ↦ rw (h, leftmost-unbeaten price e (d ∷ es) rising h) refl
    ]

    -- The left end of the deque is the best price.
    pub leftmost-stairs :
        (e : Entry) (es : List Entry)
        → leftmost e.price (pop_right (beats e.price) (stairs es)) ≡ best_of e es
    unfolding stairs best_of leftmost pop_right
    leftmost-stairs e [] = refl
    leftmost-stairs e (d ∷ es) =
        leftmost-pop_right e.price d (pop_right (beats d.price) (stairs es))
          (pop_right-Rising d (stairs es) (stairs-Rising es))
        ∙ ap (best e.price) (leftmost-stairs d es)
