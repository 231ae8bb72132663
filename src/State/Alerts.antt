-- ===== src/State/Alerts.antt =====
-- The alerts of a room (core/domain/exposure.go) and the state that its members imply.
use kanpachi.Base.{
  ℕ, not, ◌&&◌, ◌≡◌, refl, List, [], ◌∷◌, arith, nat_beq, any, filter, if◌then◌else◌, is_empty,
  Bool-cases, inl, inr, ap, ◌∙◌,
}
use kanpachi.State.Types.{Alert, AlertKind, alert_code, RoomState}
use kanpachi.State.{has_alert, drop_alerts}

any-drop :
    (code : Alert → ℕ) (k j : ℕ) (l : List Alert)
    → any (λ a. nat_beq (code a) j) (filter (λ a. not (nat_beq (code a) k)) l)
      ≡ (not (nat_beq k j) && any (λ a. nat_beq (code a) j) l)
any-drop code k j [] = ground arith
any-drop code k j (a ∷ l) = ground (arith, any-drop code k j l)

drop_where :
    (code : Alert → ℕ) (k j : ℕ) (l : List Alert)
    → any
        (λ a. nat_beq (code a) j)
        (if is_empty l then l else filter (λ a. not (nat_beq (code a) k)) l)
      ≡ (not (nat_beq k j) && any (λ a. nat_beq (code a) j) l)
drop_where code k j [] = ground arith
drop_where code k j (a ∷ l) = any-drop code k j (a ∷ l)

alerts-drop_alerts :
    (r : RoomState) (k : AlertKind)
    → (drop_alerts r k).alerts ≡ (
        if is_empty r.alerts
        then r.alerts
        else filter (λ a. not (nat_beq (alert_code a.kind) (alert_code k))) r.alerts)
unfolding drop_alerts
alerts-drop_alerts r k = elim (Bool-cases (is_empty r.alerts)) [
  | inl e ↦ rw e refl
  | inr e ↦ rw e refl
]

-- Dropping the alerts of a kind leaves none of that kind and all of every other.
pub has_alert-drop_alerts :
    (r : RoomState) (k j : AlertKind)
    → has_alert (drop_alerts r k) j ≡ (not (nat_beq (alert_code k) (alert_code j)) && has_alert r j)
unfolding has_alert
has_alert-drop_alerts r k j =
    ap (any (λ a. nat_beq (alert_code a.kind) (alert_code j))) (alerts-drop_alerts r k)
    ∙ drop_where (λ a. alert_code a.kind) (alert_code k) (alert_code j) r.alerts
