-- ===== src/Endpoint/Batch.antt =====
-- What the batch methods of event_orders.go are charged, and what happens to a batch that costs
-- more than the bucket holds.
use gokalshi.Base.{
  ℤ, ℕ, ◌≡◌, refl, true, false, Option, none, some, List, arith, Bool-cases, inl, inr,
  if◌then◌else◌, ◌==◌, Text, codes, text_eq, Map,
}
use gokalshi.Float.{Float, IsOrdered}
use gokalshi.EndpointCost.{CostRoute, lookup_cost}
use gokalshi.RateLimit.{ReadWriteTokenBucket, Attempt, write_cap, over_capacity, acquire}
use gokalshi.Client.{
  Client, beyond_capacity, at_least_one, billed, charge, charge_by_table, resolve_costs, do_request,
  do_json, decoded, after_acquire,
}
use gokalshi.Client.Configure.{Fetch}
use gokalshi.Endpoint.{call_of, perform, write_request}

module _ (float : Float) where
  open float use {F, lt, le, mul, zero, of_ℕ}

  -- What one unit is charged: the table's figure, else its default if that is positive, else the
  -- caller's figure.
  unfoldable pub table_figure : F → F → Option F → F
  table_figure callers default (some unit) = unit
  table_figure callers default none = if le default zero then callers else default

  unfoldable pub figure_in : Text → Text → F → F → Option (List (CostRoute F)) → F
  figure_in method path callers default none = callers
  figure_in method path callers default (some routes) =
      table_figure callers default (lookup_cost routes method path)

  abbrev pub unit_figure : Client F → Text → Text → F → F
  unit_figure c method path callers = figure_in method path callers c.default_cost c.cost_routes

  pub figure_in-found :
      (method path : Text) (callers default unit : F) (routes : List (CostRoute F))
      → lookup_cost routes method path ≡ some unit
      → figure_in method path callers default (some routes) ≡ unit
  unfolding figure_in table_figure
  figure_in-found method path callers default unit routes h = rw h refl

module _ (float : Float) (laws : IsOrdered float) where
  open float use {F, lt, le, mul, zero, of_ℕ}

  charge-write :
      (method : Text) (callers default : F) (units : ℤ) (found : Option F)
      → (method == codes "GET") ≡ false
      → charge float
          (mul zero (of_ℕ (at_least_one units)), mul callers (of_ℕ (at_least_one units)))
          method
          default
          units
          found
        ≡ (zero, mul (table_figure float callers default found) (of_ℕ (at_least_one units)))
  unfolding charge billed table_figure
  charge-write method callers default units (some unit) h = rw h refl
  charge-write method callers default units none h = elim (Bool-cases (le default zero)) [
    | inl unset ↦ rw (unset, laws.zero-mul (at_least_one units)) refl
    | inr set ↦ rw (set, h) refl
  ]

  charge_by_table-write :
      (method path : Text) (callers default : F) (units : ℤ) (table : Option (List (CostRoute F)))
      → (method == codes "GET") ≡ false
      → charge_by_table float
          (mul zero (of_ℕ (at_least_one units)), mul callers (of_ℕ (at_least_one units)))
          method
          path
          default
          units
          table
        ≡ (
          zero,
          mul (figure_in float method path callers default table) (of_ℕ (at_least_one units)),
        )
  unfolding charge_by_table figure_in
  charge_by_table-write method path callers default units none h =
      rw (laws.zero-mul (at_least_one units)) refl
  charge_by_table-write method path callers default units (some routes) h =
      charge-write method callers default units (lookup_cost routes method path) h

  pub resolve_costs-write :
      (c : Client F) (method path : Text) (callers : F) (units : ℤ)
      → (method == codes "GET") ≡ false
      → resolve_costs float c method path zero callers units
        ≡ (zero, mul (unit_figure float c method path callers) (of_ℕ (at_least_one units)))
  unfolding resolve_costs
  resolve_costs-write c method path callers units h =
      charge_by_table-write method path callers c.default_cost units c.cost_routes h

  acquire-beyond :
      (rounds : List (Attempt F)) (read_cost write_cost : F) (b : ReadWriteTokenBucket F)
      → lt (write_cap float b.cfg) write_cost ≡ true
      → acquire float rounds read_cost write_cost b ≡ over_capacity b
  unfolding acquire
  acquire-beyond rounds read_cost write_cost b over = ground arith

module _ (float : Float) (laws : IsOrdered float) {B : Type 0}
    (nested flat : Text → Option (Text × Text)) (encode : Map Text Text → Text)
    (marshal : B → Option Text) where
  open float use {F, lt, mul, of_ℕ}

  -- A request with another method than GET that costs more than the write capacity, at so many
  -- units of the figure that the table, its default or the caller gives, fails with the limiter's
  -- error and leaves the client as it was. Multiplying by zero is taken to be as usual.
  pub write_request-beyond_capacity {ℓ} :
      {T : Type ℓ} (decode : Text → Option T) (fetch : Fetch F) (c : Client F) (method path : Text)
      (cost : ℕ) (units : ℤ) (body : Option B) (params : Map Text Text)
      → (method == codes "GET") ≡ false
      → lt
          (write_cap float c.limiter.cfg)
          (mul (unit_figure float c method path (of_ℕ cost)) (of_ℕ (at_least_one units)))
        ≡ true
      → perform float nested flat encode marshal decode
          (write_request float method path cost units body params)
          fetch
          c
        ≡ (c, some (inl beyond_capacity))
  unfolding perform do_json do_request call_of after_acquire decoded
  write_request-beyond_capacity decode fetch c method path cost units body params writes over =
      rw
        (
          resolve_costs-write float laws c method path (of_ℕ cost) units writes,
          acquire-beyond float laws fetch.fetch_attempts float.zero
              (mul (unit_figure float c method path (of_ℕ cost)) (of_ℕ (at_least_one units)))
              c.limiter over,
        )
        refl
