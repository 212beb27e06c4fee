-- ===== src/Trade/Manage/Decisions.antt =====
-- When `manage` closes an open position, and which calls it makes.
use gptrader_mw_v.Prelude.{
  true, false, ◌≡◌, refl, subst, inl, inr, some, [], ◌∷◌, Result, ok, err, OnOk, Error,
  Result-cases, Bool-cases, is_blank,
}
use gptrader_mw_v.Market.{latest_candle}
use gptrader_mw_v.Position.{is_open}
use gptrader_mw_v.Position.Events.{IsValid}
use gptrader_mw_v.Execution.{OrderRequest}
use gptrader_mw_v.Strategy.{make_context, GeneratedSignal}
use gptrader_mw_v.Trade.Journal.{Journal, SignalLogEntry, append_signal, submit, and_then}
use gptrader_mw_v.Trade.Dto.{
  Ports, ClosePositionCommand, check_close_command, ManageOpenPositionCommand,
  ManageOpenPositionResult, order_submitted, skipped, make_log_entry,
}
use gptrader_mw_v.Trade.Execute.{log_signal}
use gptrader_mw_v.Trade.Dto.Entries.{make_log_entry-ok}
use gptrader_mw_v.Trade.Close.{close}
use gptrader_mw_v.Trade.Close.Orders.{ClosingOrder, close-Submitted}
use gptrader_mw_v.Trade.Manage.{is_opposite_signal, close_opposite, react, manage_open, manage}

-- What a run of `manage` leaves: nothing, a logged signal, or a logged signal on the other side and
-- then the order that closes the position.
pub data Managed (command : ManageOpenPositionCommand) (j : Journal)
    : Result ManageOpenPositionResult × Journal → Type 0 where
  raised : (e : Error) → is_open command.position.status ≡ true → Managed command j (err e, j)
  not_open :
      (x : ManageOpenPositionResult)
      → is_open command.position.status ≡ false
      → x.status ≡ skipped
      → Managed command j (ok x, j)
  kept :
      (entry : SignalLogEntry) (r : Result ManageOpenPositionResult)
      → is_open command.position.status ≡ true
      → OnOk
          (λ x.
            (x.status ≡ skipped)
            × (is_opposite_signal command.position.direction entry.generated_signal.signal.direction
                ≡ false))
          r
      → Managed command j (r, append_signal entry ∷ j)
  closed :
      (entry : SignalLogEntry) (order : OrderRequest) (r : Result ManageOpenPositionResult)
      → is_open command.position.status ≡ true
      → is_opposite_signal command.position.direction entry.generated_signal.signal.direction ≡ true
      → ClosingOrder command.position order
      → OnOk (λ x. x.status ≡ order_submitted) r
      → Managed command j (r, submit order ∷ append_signal entry ∷ j)

module _ (ports : Ports) where
  close_opposite-Managed :
      (command : ManageOpenPositionCommand) (j : Journal) (entry : SignalLogEntry)
      (g : GeneratedSignal)
      → IsValid command.position
      → is_open command.position.status ≡ true
      → is_opposite_signal command.position.direction entry.generated_signal.signal.direction ≡ true
      → Managed command j (close_opposite ports command g (append_signal entry ∷ j))
  unfolding close_opposite check_close_command
  close_opposite-Managed command j entry g v open_ opposite =
      let c : ClosePositionCommand = record {
        position = command.position;
        client_order_id_prefix = command.client_order_id_prefix;
      } in
      let s = (close-Submitted ports c (append_signal entry ∷ j) v).0 open_ in
      elim (Bool-cases (is_blank command.client_order_id_prefix)) [
        | inl blank ↦ rw blank (kept entry (err _) open_ tt)
        | inr named ↦ rw named (elim (Result-cases (close ports c (append_signal entry ∷ j)).0) [
          | inr (e, h) ↦
              rw h (simp s.called (closed entry s.order (err e) open_ opposite s.closes tt))
          | inl (x, h) ↦ rw h (
              simp s.called (
                closed entry s.order (ok _) open_ opposite s.closes
                  (subst (OnOk _) h s.answered).0))
        ])
      ]

  react-Managed :
      (command : ManageOpenPositionCommand) (j : Journal) (entry : SignalLogEntry)
      (g : GeneratedSignal)
      → IsValid command.position
      → is_open command.position.status ≡ true
      → entry.generated_signal ≡ g
      → Managed command j (react ports command g (append_signal entry ∷ j))
  unfolding react
  react-Managed command j entry g v open_ same =
      elim (Bool-cases (is_opposite_signal command.position.direction g.signal.direction)) [
        | inr agrees ↦ rw agrees (kept entry (ok _) open_ (refl, simp same agrees))
        | inl opposite ↦
            rw opposite (close_opposite-Managed command j entry g v open_ (simp same opposite))
      ]

  after_log :
      (command : ManageOpenPositionCommand) (g : GeneratedSignal) (j : Journal)
      → IsValid command.position
      → is_open command.position.status ≡ true
      → Managed command j (
          and_then
            (log_signal ports command.signal_id command.generator_id g j).0
            (λ _. react ports command g)
            (log_signal ports command.signal_id command.generator_id g j).1)
  unfolding log_signal
  after_log command g j v open_ =
      elim (Result-cases (make_log_entry command.signal_id command.generator_id g)) [
        | inr (e, h) ↦ rw h (raised e open_)
        | inl (entry, h) ↦ rw h (elim (Result-cases (ports.record_signal entry j)) [
          | inr (e, hr) ↦ rw hr (kept entry (err e) open_ tt)
          | inl (u, hr) ↦
              rw hr (react-Managed command j entry g v open_ (make_log_entry-ok _ _ g entry h))
        ])
      ]

  manage_open-Managed :
      (command : ManageOpenPositionCommand) (j : Journal)
      → IsValid command.position
      → is_open command.position.status ≡ true
      → Managed command j (manage_open ports command j)
  unfolding manage_open
  manage_open-Managed command j v open_ =
      elim (Result-cases
        (ports.load_snapshot command.position.symbol command.timeframe command.candle_limit)) [
          | inr (e, h) ↦ rw h (raised e open_)
          | inl (m, h) ↦
              rw h
                (elim (Result-cases (
                  ports.load_features m.first.symbol m.first.timeframe
                    (latest_candle m).closed_at)) [
                      | inr (e, hf) ↦ rw hf (raised e open_)
                      | inl (f, hf) ↦
                          rw hf
                            (elim (Result-cases (make_context m command.indicators (some f) [])) [
                              | inr (e, hc) ↦ rw hc (raised e open_)
                              | inl (c, hc) ↦ rw hc (elim (Result-cases (ports.generate c)) [
                                | inr (e, hg) ↦ rw hg (raised e open_)
                                | inl (g, hg) ↦ rw hg (after_log command g j v open_)
                              ])
                            ])
                    ])
        ]

  -- For a valid position and whatever the ports answer, a run of `manage` leaves one of these traces:
  -- on a closed position it makes no call and reports that it skipped; on an open one it raises without
  -- a call; or it logs the signal and then either raises or skips without an order, skipping only if the
  -- signal is not opposite; or the signal is opposite and it submits exactly one order, which reduces the
  -- position by its whole quantity on the other side, and reports a submitted order if it returns.
  pub manage-Managed :
      (command : ManageOpenPositionCommand) (j : Journal)
      → IsValid command.position
      → Managed command j (manage ports command j)
  unfolding manage
  manage-Managed command j v = elim (Bool-cases (is_open command.position.status)) [
    | inr shut ↦ rw shut (not_open _ shut refl)
    | inl open_ ↦ rw open_ (manage_open-Managed command j v open_)
  ]
