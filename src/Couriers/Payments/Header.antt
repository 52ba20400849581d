-- ===== src/Couriers/Payments/Header.antt =====
-- The paid header of an order: `_recompute_order_paid` of couriers/payments.py.
use alpha_pos_local.Base.{
  ℕ, Bool, true, not, ◌&&◌, Option, none, some, List, [], ◌∷◌, leb, ltb, is_some, if◌then◌else◌,
  Outcome, ok, err,
}
use alpha_pos_local.Base.Text.{Text, codes, text_eq}
use alpha_pos_local.Couriers.Payments.Rows.{Order, Store, Refusal, save_order}
use alpha_pos_local.Couriers.Payments.Evidence.{Totals, payment_evidence}

unfoldable pub all_of : Text → List Text → Bool
all_of m [] = true
all_of m (n ∷ methods) = text_eq n m && all_of m methods

-- The one method of the evidence, or MIXED.
unfoldable pub header_method : List Text → Text
header_method [] = codes "MIXED"
header_method (m ∷ methods) = if all_of m methods then m else codes "MIXED"

abbrev pub or_time : Option ℕ → ℕ → ℕ
or_time none now = now
or_time (some t) now = t

-- An accounting time is set once, when the order first becomes paid.
abbrev pub recorded : Order → Option ℕ → Option ℕ
recorded o at =
    if not o.is_paid && not (is_some o.accounting_recorded_at) then at else o.accounting_recorded_at

unfoldable pub covered : Totals → Bool
covered t = ltb 0 t.total && leb t.due t.total

-- A header that is paid is never cleared; fields of a header that is not are.
unfoldable pub recomputed : Totals → (at : Option ℕ) (now : ℕ) → Order → Order
recomputed t at now o =
    if covered t
    then record o {
      is_paid = true;
      accounting_recorded_at = recorded o at;
      payment_method = some (header_method t.methods);
      paid_at = some (or_time t.latest now);
    }
    else if o.is_paid
    then o
    else record o { payment_method = none; paid_at = none }

unfoldable pub write_header :
    Outcome Refusal Totals → Order → (at : Option ℕ) (now : ℕ) → Store → Store
write_header (err e) o at now s = s
write_header (ok t) o at now s = record s { orders = save_order (recomputed t at now o) s.orders }

-- `_recompute_order_paid`, at a time `now`; the evidence of an order may have defects, and then
-- nothing is written.
unfoldable pub recompute : (Text → Bool) → Order → (at : Option ℕ) (now : ℕ) → Store → Store
recompute is_concrete o at now s = write_header (payment_evidence is_concrete o s) o at now s
