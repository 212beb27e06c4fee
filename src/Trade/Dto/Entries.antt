-- ===== src/Trade/Dto/Entries.antt =====
-- What an entry of the signal log holds.
use gptrader_mw_v.Prelude.{◌≡◌, String, ok, arith}
use gptrader_mw_v.Strategy.{GeneratedSignal}
use gptrader_mw_v.Trade.Journal.{SignalLogEntry}
use gptrader_mw_v.Trade.Dto.{make_log_entry}

pub make_log_entry-ok :
    (s g : String) (x : GeneratedSignal) (entry : SignalLogEntry)
    → make_log_entry s g x ≡ ok entry
    → entry.generated_signal ≡ x
unfolding make_log_entry
make_log_entry-ok s g x entry h = ground arith
