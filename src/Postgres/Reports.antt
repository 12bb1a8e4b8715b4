-- ===== src/Postgres/Reports.antt =====
-- durable.go: the reads of reports.
use team_10_queue_serivce.Base.{
  ℕ, ◌+◌, Bool, true, false, ◌&&◌, List, [], ◌∷◌, Option, none, some, ltb, ◌==◌, if◌then◌else◌,
}
use team_10_queue_serivce.Base.Sort.{sort_by}
use team_10_queue_serivce.Models.Status.{
  RightStatus, MembershipStatus, expired, used, queued, right_active, offer_pending, declined,
  purchased, sold_out,
}
use team_10_queue_serivce.Models.{QueueMembership, ProductMetrics, Right, product_not_found}
use team_10_queue_serivce.Models.Result.{Result, ok, err}
use team_10_queue_serivce.Postgres.State.{Durable}
use team_10_queue_serivce.Postgres.Rows.{find_stock}

abbrev pub same_status : MembershipStatus → MembershipStatus → Bool
same_status queued queued = true
same_status right_active right_active = true
same_status offer_pending offer_pending = true
same_status declined declined = true
same_status purchased purchased = true
same_status sold_out sold_out = true
same_status (MembershipStatus.other a) (MembershipStatus.other b) = a == b
same_status _ _ = false

-- DurableRepo.CountMembershipsByStatus, as the map that it returns: no row counts 0.
unfoldable pub count_memberships_by_status : ℕ → List QueueMembership → MembershipStatus → ℕ
count_memberships_by_status p [] status = 0
count_memberships_by_status p (m ∷ ms) status =
    (if (m.product_id == p) && same_status m.status status then 1 else 0)
    + count_memberships_by_status p ms status

abbrev pub rows_of_user : ℕ → List QueueMembership → List QueueMembership
rows_of_user u [] = []
rows_of_user u (m ∷ ms) = if m.user_id == u then m ∷ rows_of_user u ms else rows_of_user u ms

-- ORDER BY created_at DESC
abbrev pub newer : QueueMembership → QueueMembership → Bool
newer a b = ltb b.created_at a.created_at

-- DurableRepo.ListMembershipsByUser
unfoldable pub list_memberships_by_user : ℕ → Durable → List QueueMembership
list_memberships_by_user u d = sort_by newer (rows_of_user u d.memberships)

abbrev pub is_used : RightStatus → Bool
is_used used = true
is_used _ = false

abbrev pub is_expired : RightStatus → Bool
is_expired expired = true
is_expired _ = false

-- COUNT(*) … WHERE product_id = ?
abbrev pub count_contenders : ℕ → List QueueMembership → ℕ
count_contenders p [] = 0
count_contenders p (m ∷ ms) = (if m.product_id == p then 1 else 0) + count_contenders p ms

-- COUNT(token) FILTER (WHERE status = …) … WHERE product_id = ?
abbrev pub count_rights : ℕ → (RightStatus → Bool) → List Right → ℕ
count_rights p test [] = 0
count_rights p test (r ∷ rs) =
    (if (r.product_id == p) && test r.status then 1 else 0) + count_rights p test rs

-- The rows that AVG takes, with the ends of their time spans. A NULL is passed over.
abbrev pub drop_off_spans : ℕ → List QueueMembership → List (ℕ × ℕ)
drop_off_spans p [] = []
drop_off_spans p (m ∷ ms) =
    if (m.product_id == p) && same_status m.status declined
    then (m.created_at, m.updated_at) ∷ drop_off_spans p ms
    else drop_off_spans p ms

abbrev span_to : ℕ → Option ℕ → List (ℕ × ℕ) → List (ℕ × ℕ)
span_to from none spans = spans
span_to from (some until) spans = (from, until) ∷ spans

abbrev pub payment_spans : ℕ → List Right → List (ℕ × ℕ)
payment_spans p [] = []
payment_spans p (r ∷ rs) =
    if (r.product_id == p) && is_used r.status
    then span_to r.created_at r.used_at (payment_spans p rs)
    else payment_spans p rs

-- DurableRepo.GetProductMetrics; `average` is PostgreSQL's AVG of the spans, as a duration.
unfoldable pub get_product_metrics : (List (ℕ × ℕ) → Option ℕ) → ℕ → Durable → Result ProductMetrics
unfolding count_memberships_by_status
get_product_metrics average p d = elim (find_stock p d.stocks) [
  | none ↦ err product_not_found
  | some stock ↦ ok (record {
    total_stock = stock.total_stock;
    total_contenders = count_contenders p d.memberships;
    used_rights_count = count_rights p is_used d.rights;
    expired_rights_count = count_rights p is_expired d.rights;
    sold_out_count = count_memberships_by_status p d.memberships sold_out;
    drop_off_count = count_memberships_by_status p d.memberships declined;
    avg_payment_time = average (payment_spans p d.rights);
    avg_drop_off_time = average (drop_off_spans p d.memberships);
  })
]
