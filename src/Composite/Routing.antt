-- ===== src/Composite/Routing.antt =====
-- RegimeSignalGenerator (domain/signal_generator/regime_signal_generator.py). A generator is its
-- `generate`.
use gptrader_mw_v.Prelude.{
  String, Option, none, some, List, [], Result, ok, ◌>>=◌, ◌>>◌, refuse_if, is_empty, strip,
}
use gptrader_mw_v.Decimal.{Context}
use gptrader_mw_v.Signal.{Value, text, wait_signal}
use gptrader_mw_v.Strategy.{StrategyContext, GeneratedSignal}
use gptrader_mw_v.Lifecycle.{find}

pub record RegimeSignalGenerator : Type 0 where
  pub generators : List (String × (StrategyContext → Result GeneratedSignal))
  pub metadata_key : String

-- `RegimeSignalGenerator.__post_init__`
unfoldable pub make_regime_generator : RegimeSignalGenerator → Result RegimeSignalGenerator
make_regime_generator g = do
  refuse_if (is_empty (strip g.metadata_key)) "metadata_key is required"
  ok (record g { metadata_key = strip g.metadata_key })

module _ ⦃context : Context⦄ where
  -- `GeneratedSignal(signal=Signal.wait())`
  abbrev pub waiting : Result GeneratedSignal
  waiting = do
    signal ← wait_signal []
    ok (record { signal = signal; strategy_results = []; metadata = [] })

  abbrev pub delegate :
      Option (StrategyContext → Result GeneratedSignal) → StrategyContext → Result GeneratedSignal
  delegate none c = waiting
  delegate (some generate) c = generate c

  abbrev pub route : RegimeSignalGenerator → Option Value → StrategyContext → Result GeneratedSignal
  route g (some (text regime)) c = delegate (find g.generators regime) c
  route g _ c = waiting

  -- `RegimeSignalGenerator.generate`
  unfoldable pub generate_routed : RegimeSignalGenerator → StrategyContext → Result GeneratedSignal
  unfolding find
  generate_routed g c = route g (find c.metadata g.metadata_key) c
