-- ===== src/Lifecycle/Routes.antt =====
-- What an accepted definition of a signal generator promises.
use gptrader_mw_v.Prelude.{
  true, false, ◌||◌, ◌≡◌, ◌⊎◌, inl, inr, Bool-cases, String, str_eq, eq_iff, List, [], ◌∷◌, OnOk,
  is_empty, strip, arith,
}
use gptrader_mw_v.Lifecycle.{is_nothing}
use gptrader_mw_v.Lifecycle.Definitions.{
  SignalGeneratorDefinition, strip_ids, has_blank_id, strip_routes, has_blank_route, is_known,
  has_unknown, make_generator_definition,
}

-- An id is one of a list.
abbrev pub Known : List String → String → Type 0
Known [] id = ⊥
Known (k ∷ ks) id = (k ≡ id) ⊎ Known ks id

-- Every route has a name and leads to one of the strategies.
abbrev pub Routed : List String → List (String × String) → Type 0
Routed ids [] = Unit
Routed ids ((regime, id) ∷ routes) =
    (is_empty regime ≡ false) × (is_empty id ≡ false) × Known ids id × Routed ids routes

abbrev pub AllNamed : List String → Type 0
AllNamed [] = Unit
AllNamed (id ∷ ids) = (is_empty id ≡ false) × AllNamed ids

is_known-Known : (ids : List String) (id : String) → is_known ids id ≡ true → Known ids id
unfolding is_known
is_known-Known [] id h = cc
is_known-Known (k ∷ ks) id h = elim (Bool-cases (str_eq k id)) [
  | inl same ↦ inl ((eq_iff k id).0 same)
  | inr other ↦ inr (is_known-Known ks id (ground arith))
]

routes-Routed :
    (ids : List String) (routes : List (String × String))
    → has_blank_route routes ≡ false
    → has_unknown ids routes ≡ false
    → Routed ids routes
unfolding has_blank_route has_unknown
routes-Routed ids [] h k = tt
routes-Routed ids ((regime, id) ∷ routes) h k = (
  ground arith,
  ground arith,
  is_known-Known ids id (ground arith),
  routes-Routed ids routes (ground arith) (ground arith),
)

ids-AllNamed : (ids : List String) → has_blank_id ids ≡ false → AllNamed ids
unfolding has_blank_id
ids-AllNamed [] h = tt
ids-AllNamed (id ∷ ids) h = (ground arith, ids-AllNamed ids (ground arith))

-- A definition of a signal generator as it should be.
pub record IsValid (d : SignalGeneratorDefinition) : Type 0 where
  pub identified : is_empty d.generator_id ≡ false
  pub named : is_empty d.name ≡ false
  pub strategies : is_nothing d.strategy_ids ≡ false
  pub all_named : AllNamed d.strategy_ids
  pub routed : Routed d.strategy_ids d.regime_routes

-- An accepted definition of a signal generator has an id, a name and at least one strategy, none of
-- them blank, and each of its routes has a name and leads to one of its strategies.
pub make_generator_definition-IsValid :
    (d : SignalGeneratorDefinition) → OnOk IsValid (make_generator_definition d)
unfolding make_generator_definition
make_generator_definition-IsValid d = elim (Bool-cases (is_empty (strip d.generator_id))) [
  | inl bad ↦ rw bad tt
  | inr identified ↦ rw identified (elim (Bool-cases (is_empty (strip d.name))) [
    | inl bad ↦ rw bad tt
    | inr named ↦
        rw named
          (elim (Bool-cases
            (is_nothing (strip_ids d.strategy_ids) || has_blank_id (strip_ids d.strategy_ids))) [
              | inl bad ↦ rw bad tt
              | inr listed ↦
                  rw listed (elim (Bool-cases (has_blank_route (strip_routes [] d.regime_routes))) [
                    | inl bad ↦ rw bad tt
                    | inr filled ↦
                        rw filled
                          (elim (Bool-cases (
                            has_unknown (strip_ids d.strategy_ids)
                              (strip_routes [] d.regime_routes))) [
                                | inl bad ↦ rw bad tt
                                | inr known ↦ rw known (record {
                                  identified = identified;
                                  named = named;
                                  strategies = ground arith;
                                  all_named =
                                      ids-AllNamed (strip_ids d.strategy_ids) (ground arith);
                                  routed =
                                      routes-Routed (strip_ids d.strategy_ids)
                                        (strip_routes [] d.regime_routes) filled known;
                                })
                              ])
                  ])
            ])
  ])
]
