-- ===== src/Net/SocketEndpoint/Order.antt =====
-- operator==, operator<=> and Hash of an endpoint.
use Prim.Native.Nat.{Ordering}
use cpp_core_systems.Prelude.{◌≡◌, ◌↔◌, ◌<◌, ◌⊎◌, inl, inr, subst, sym, ap, true, arith}
use cpp_core_systems.Net.IpAddress
use cpp_core_systems.Net.IpAddress.{IpAddress}
use cpp_core_systems.Net.IpAddress.Order
use cpp_core_systems.Net.IpAddress.Order.{opposite}
use cpp_core_systems.Net.SocketEndpoint.{SocketEndpoint, equal, three_way, hash}
use cpp_core_systems.Net.SocketEndpoint.Text.{IsValid}

module _ (l r : SocketEndpoint) (v : IsValid l) (w : IsValid r) where
  addresses : (IpAddress.equal l.address r.address ≡ true) ↔ (l.address ≡ r.address)
  addresses = Order.equal_iff l.address r.address v.address w.address

  -- On valid endpoints operator== is identity.
  pub endpoint-equal_iff : (equal l r ≡ true) ↔ (l ≡ r)
  unfolding equal
  endpoint-equal_iff = (
    λ h.
        let address : l.address ≡ r.address = addresses.0 (ground arith) in
        let port : l.port ≡ r.port = ground arith in
        let scope : l.scope_id ≡ r.scope_id = ground arith in joined address port scope,
    λ e.
        let address = addresses.1 (ap (λ c. c.address) e) in
        let port : l.port ≡ r.port = ap (λ c. c.port) e in
        let scope : l.scope_id ≡ r.scope_id = ap (λ c. c.scope_id) e in ground arith,
  )
    where
      joined : l.address ≡ r.address → l.port ≡ r.port → l.scope_id ≡ r.scope_id → l ≡ r
      joined a p s = λ i. record { address = a i; port = p i; scope_id = s i }

  -- operator<=> is eq exactly where operator== holds.
  pub endpoint-three_way-eq : (three_way l r ≡ Ordering.eq) ↔ (equal l r ≡ true)
  unfolding three_way equal
  endpoint-three_way-eq =
      let same = Order.three_way-eq l.address r.address v.address w.address in
      (λ h. ground (arith, same), λ h. ground (arith, same))

  -- Endpoints that operator== calls equal have one hash.
  pub endpoint-hash-equal : equal l r ≡ true → hash l ≡ hash r
  endpoint-hash-equal h = ap hash (endpoint-equal_iff.0 h)

-- operator<=> turns round with its arguments.
pub endpoint-three_way-opposite : (l r : SocketEndpoint) → three_way r l ≡ opposite (three_way l r)
unfolding three_way
endpoint-three_way-opposite l r = ground (arith, Order.three_way-opposite l.address r.address)

-- The parts decide in turn.
abbrev Below : SocketEndpoint → SocketEndpoint → Type 0
Below l r =
    (IpAddress.three_way l.address r.address ≡ Ordering.lt)
    ⊎ ((IpAddress.three_way l.address r.address ≡ Ordering.eq)
        × ((l.port < r.port) ⊎ ((l.port ≡ r.port) × (l.scope_id < r.scope_id))))

Below-inv : (l r : SocketEndpoint) → three_way l r ≡ Ordering.lt → Below l r
unfolding three_way
Below-inv l r h = ground arith

below : (l r : SocketEndpoint) → Below l r → three_way l r ≡ Ordering.lt
unfolding three_way
below l r b = ground arith

same_address :
    (l r : SocketEndpoint)
    → IsValid l
    → IsValid r
    → IpAddress.three_way l.address r.address ≡ Ordering.eq
    → l.address ≡ r.address
same_address l r v w h =
    (addresses l r v w).0 ((Order.three_way-eq l.address r.address v.address w.address).0 h)

-- If operator<=> puts one valid endpoint before a second and the second before a valid third, it
-- puts the first before the third.
pub endpoint-three_way_trans :
    (l m r : SocketEndpoint)
    → IsValid l
    → IsValid m
    → IsValid r
    → three_way l m ≡ Ordering.lt
    → three_way m r ≡ Ordering.lt
    → three_way l r ≡ Ordering.lt
endpoint-three_way_trans l m r u v w h k = elim (Below-inv l m h) [
  | inl ab ↦ elim (Below-inv m r k) [
    | inl bc ↦ below l r (inl (Order.three_way_trans l.address m.address r.address ab bc))
    | inr (e, rest) ↦ below l r (
        inl
          (subst (λ a. IpAddress.three_way l.address a ≡ Ordering.lt) (same_address m r v w e) ab))
  ]
  | inr (e, rest) ↦ elim (Below-inv m r k) [
    | inl bc ↦ below l r (
        inl (
          subst (λ a. IpAddress.three_way a r.address ≡ Ordering.lt) (sym (same_address l m u v e))
            bc))
    | inr (f, more) ↦ below l r (
        inr (
          subst (λ a. IpAddress.three_way l.address a ≡ Ordering.eq) (same_address m r v w f) e,
          omega arith,
        ))
  ]
]
