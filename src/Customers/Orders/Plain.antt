-- ===== src/Customers/Orders/Plain.antt =====
-- Writes that leave the state and the amounts of an order: its type, courier and contact data.
use alpha_pos_local.Base.{ℕ, ◌≡◌, refl, ◌∙◌, Option, none, some}
use alpha_pos_local.Base.Text.{Text}
use alpha_pos_local.Customers.Orders.Rows.{Order, Host}
use alpha_pos_local.Customers.Orders.Details.{
  Edit, edited, set_person, set_phone, set_address, set_description, set_courier,
}

abbrev pub SameMoney : Order → Order → Type 0
SameMoney o p =
    (p.is_paid ≡ o.is_paid)
    × (p.subtotal ≡ o.subtotal)
    × (p.discount_amount ≡ o.discount_amount)
    × (p.total_amount ≡ o.total_amount)

abbrev pub Plain : Order → Order → Type 0
Plain o p =
    (p.pk ≡ o.pk)
    × (p.status ≡ o.status)
    × (p.ready_at ≡ o.ready_at)
    × (p.is_deleted ≡ o.is_deleted)
    × SameMoney o p

Plain-trans : (o p q : Order) → Plain o p → Plain p q → Plain o q
Plain-trans o p q (a, b, c, d, (e, f, g, h)) (a', b', c', d', (e', f', g', h')) =
    (a' ∙ a, b' ∙ b, c' ∙ c, d' ∙ d, (e' ∙ e, f' ∙ f, g' ∙ g, h' ∙ h))

phone-Plain : (host : Host) (t : Option Text) (o : Order) → Plain o (set_phone host t o)
phone-Plain host none o = (refl, refl, refl, refl, (refl, refl, refl, refl))
phone-Plain host (some t) o = (refl, refl, refl, refl, (refl, refl, refl, refl))

address-Plain : (t : Option (Option Text)) (o : Order) → Plain o (set_address t o)
address-Plain none o = (refl, refl, refl, refl, (refl, refl, refl, refl))
address-Plain (some t) o = (refl, refl, refl, refl, (refl, refl, refl, refl))

description-Plain : (t : Option Text) (o : Order) → Plain o (set_description t o)
description-Plain none o = (refl, refl, refl, refl, (refl, refl, refl, refl))
description-Plain (some t) o = (refl, refl, refl, refl, (refl, refl, refl, refl))

pub person-Plain : (k : Option ℕ) (o : Order) → Plain o (set_person k o)
unfolding set_person
person-Plain k o = (refl, refl, refl, refl, (refl, refl, refl, refl))

courier-Plain : (k : Option (Option ℕ)) (o : Order) → Plain o (set_courier k o)
courier-Plain none o = (refl, refl, refl, refl, (refl, refl, refl, refl))
courier-Plain (some k) o = person-Plain k o

pub edited-Plain : (host : Host) (e : Edit) (o : Order) → Plain o (edited host e o)
unfolding edited
edited-Plain host e o =
    let p = set_phone host e.phone_number o in
    let q = set_address e.delivery_address p in
    let r = set_description e.description q in
    Plain-trans o r (set_courier e.delivery_person r)
      (Plain-trans o q r
        (Plain-trans o p q (phone-Plain host e.phone_number o) (address-Plain e.delivery_address p))
        (description-Plain e.description q))
      (courier-Plain e.delivery_person r)
