-- ===== src/Billing/Kept.antt =====
-- internal/billing/usage.go: no usage is lost between the service and the database.
use fa.Prelude.{◌≡◌, Bool, false, ◌||◌, List, [], ◌∷◌}
use fa.Prelude.Text.{Text, eq_text}
use fa.Billing.{Usage, UsageItem, Bills, Failures, id_of, is_unbilled, send}

-- The identifier stands in the database, or the service has taken an event of it.
unfoldable pub has_item : Text → List UsageItem → Bool
has_item id [] = false
has_item id (item ∷ items) = eq_text item.usage_id id || has_item id items

unfoldable pub has_event : Text → List Usage → Bool
has_event id [] = false
has_event id (u ∷ us) = eq_text (id_of u) id || has_event id us

unfoldable pub accounted : Text → Bills → Bool
unfolding has_item has_event
accounted id s = has_item id s.items || has_event id s.events

-- A usage that is billed.
abbrev pub IsBilled : Usage → Type 0
IsBilled u = is_unbilled u ≡ false

told : Usage → Bills → Bills
told u s = record s { events = u ∷ s.events }

-- The usages that are sent, with what fails in each attempt.
unfoldable pub send_all : List (Usage × Failures) → Bills → Bills
unfolding send
send_all [] s = s
send_all ((u, failures) ∷ sends) s = send_all sends (send failures u s)

unfoldable pub mentions : Text → List (Usage × Failures) → Bool
mentions id [] = false
mentions id ((u, failures) ∷ sends) = eq_text (id_of u) id || mentions id sends

abbrev pub IsKept : Usage × Failures → Type 0
IsKept (u, failures) = (failures.save ≡ false) × IsBilled u
