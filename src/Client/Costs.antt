-- ===== src/Client/Costs.antt =====
-- What `resolveCosts` of client.go charges a request: units, and the two sides of the bucket.
use gokalshi.Base.{
  ℤ, pos, ◌≡◌, refl, Option, none, some, List, arith, Bool-cases, inl, inr, if◌then◌else◌, ◌==◌,
  Text, codes, text_eq,
}
use gokalshi.Float.{Float, IsOrdered}
use gokalshi.EndpointCost.{CostRoute, lookup_cost}
use gokalshi.Client.{Client, at_least_one, billed, charge, charge_by_table, resolve_costs}

module _ (float : Float) (laws : IsOrdered float) where
  open float use {F, le, mul, zero, of_ℕ}

  -- So many times each of the two.
  abbrev pub times : F × F → ℤ → F × F
  times costs units =
      (mul costs.0 (of_ℕ (at_least_one units)), mul costs.1 (of_ℕ (at_least_one units)))

  callers-times :
      (read_cost write_cost : F) (units : ℤ)
      → (mul read_cost (of_ℕ (at_least_one units)), mul write_cost (of_ℕ (at_least_one units)))
        ≡ times (mul read_cost (of_ℕ 1), mul write_cost (of_ℕ 1)) units
  callers-times read_cost write_cost units =
      rw (laws.mul-one read_cost, laws.mul-one write_cost) refl

  billed-times :
      (method : Text) (unit : F) (units : ℤ)
      → billed float method unit units ≡ times (billed float method unit (pos 1)) units
  unfolding billed
  billed-times method unit units = elim (Bool-cases (method == codes "GET")) [
    | inl get ↦ rw (get, laws.mul-one unit, laws.zero-mul (at_least_one units)) refl
    | inr other ↦ rw (other, laws.mul-one unit, laws.zero-mul (at_least_one units)) refl
  ]

  charge-times :
      (callers one : F × F) (method : Text) (default : F) (units : ℤ) (found : Option F)
      → callers ≡ times one units
      → charge float callers method default units found
        ≡ times (charge float one method default (pos 1) found) units
  unfolding charge
  charge-times callers one method default units (some unit) e = billed-times method unit units
  charge-times callers one method default units none e = elim (Bool-cases (le default zero)) [
    | inl unset ↦ rw unset e
    | inr set ↦ rw set (billed-times method default units)
  ]

  charge_by_table-times :
      (callers one : F × F) (method path : Text) (default : F) (units : ℤ)
      (table : Option (List (CostRoute F)))
      → callers ≡ times one units
      → charge_by_table float callers method path default units table
        ≡ times (charge_by_table float one method path default (pos 1) table) units
  unfolding charge_by_table
  charge_by_table-times callers one method path default units none e = e
  charge_by_table-times callers one method path default units (some routes) e =
      charge-times callers one method default units (lookup_cost routes method path) e

  -- For floats that multiply by one and by zero as usual: the costs of a request for so many units
  -- (one at least) are that many times the costs for one unit, whether the caller, the table or the
  -- default decides them.
  pub resolve_costs-units :
      (c : Client F) (method path : Text) (read_cost write_cost : F) (units : ℤ)
      → resolve_costs float c method path read_cost write_cost units
        ≡ times (resolve_costs float c method path read_cost write_cost (pos 1)) units
  unfolding resolve_costs
  resolve_costs-units c method path read_cost write_cost units =
      charge_by_table-times _ _ method path c.default_cost units c.cost_routes
        (callers-times read_cost write_cost units)

  -- A GET is charged nothing for writing, any other request nothing for reading.
  abbrev pub IsOneSided : Text → F × F → Type 0
  IsOneSided method costs = (if method == codes "GET" then costs.1 else costs.0) ≡ zero

  callers-IsOneSided :
      (method : Text) (read_cost write_cost : F) (units : ℤ)
      → IsOneSided method (read_cost, write_cost)
      → IsOneSided method
          (mul read_cost (of_ℕ (at_least_one units)), mul write_cost (of_ℕ (at_least_one units)))
  callers-IsOneSided method read_cost write_cost units h =
      elim (Bool-cases (method == codes "GET")) [
        | inl get ↦
            let nothing : write_cost ≡ zero = rw get at h in rw (get, nothing) (laws.zero-mul _)
        | inr other ↦
            let nothing : read_cost ≡ zero = rw other at h in rw (other, nothing) (laws.zero-mul _)
      ]

  billed-IsOneSided :
      (method : Text) (unit : F) (units : ℤ) → IsOneSided method (billed float method unit units)
  unfolding billed
  billed-IsOneSided method unit units = ground arith

  charge-IsOneSided :
      (callers : F × F) (method : Text) (default : F) (units : ℤ) (found : Option F)
      → IsOneSided method callers
      → IsOneSided method (charge float callers method default units found)
  unfolding charge
  charge-IsOneSided callers method default units (some unit) h = billed-IsOneSided method unit units
  charge-IsOneSided callers method default units none h = elim (Bool-cases (le default zero)) [
    | inl unset ↦ rw unset h
    | inr set ↦ rw set (billed-IsOneSided method default units)
  ]

  charge_by_table-IsOneSided :
      (callers : F × F) (method path : Text) (default : F) (units : ℤ)
      (table : Option (List (CostRoute F)))
      → IsOneSided method callers
      → IsOneSided method (charge_by_table float callers method path default units table)
  unfolding charge_by_table charge
  charge_by_table-IsOneSided callers method path default units none h = h
  charge_by_table-IsOneSided callers method path default units (some routes) h =
      charge-IsOneSided callers method default units (lookup_cost routes method path) h

  -- If the caller's figures put nothing on the write side of a GET and nothing on the read side of
  -- another method, then neither do the costs that are charged: a request takes read tokens or
  -- write tokens, never both.
  pub resolve_costs-IsOneSided :
      (c : Client F) (method path : Text) (read_cost write_cost : F) (units : ℤ)
      → IsOneSided method (read_cost, write_cost)
      → IsOneSided method (resolve_costs float c method path read_cost write_cost units)
  unfolding resolve_costs
  resolve_costs-IsOneSided c method path read_cost write_cost units h =
      charge_by_table-IsOneSided _ method path c.default_cost units c.cost_routes
        (callers-IsOneSided method read_cost write_cost units h)
