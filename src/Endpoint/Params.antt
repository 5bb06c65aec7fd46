-- ===== src/Endpoint/Params.antt =====
-- Parameter maps of the endpoint methods, read back.
use gokalshi.Base.{
  ◌≡◌, refl, ap, ◌∙◌, ℤ, pos, negsuc, ltb_ℤ, true, false, Option, none, some, List, [], ◌∷◌, Text,
  codes, text_eq, text_eqb, Map, lookup, arith, Bool-cases, inl, inr,
}
use gokalshi.Query.{Setting, string_param, int_ptr_param, int_param, build_query}
use gokalshi.Query.Decimal.{read_int, read_int-itoa}
use gokalshi.Query.Build.{shown, says, over, over-none, lookup-build_query}
use gokalshi.Endpoint.Markets.{GetMarketsParams, get_markets_to_map}
use gokalshi.Endpoint.EventOrders.{CancelOrderV2Params, cancel_order_v2_to_map}
use gokalshi.Endpoint.OrderGroups.{OrderGroupActionParams, order_group_action_to_map}

-- What the server reads from a parameter that may be absent.
abbrev text_of : Option Text → Text
text_of none = []
text_of (some t) = t

abbrev int_ptr_of : Option Text → Option ℤ
int_ptr_of none = none
int_ptr_of (some t) = read_int t

abbrev int_of : Option ℤ → ℤ
int_of none = pos 0
int_of (some z) = z

text_of-string_param : (k t : Text) → text_of (shown (string_param k t)) ≡ t
text_of-string_param k [] = refl
text_of-string_param k (c ∷ t) = refl

int_of-int_param :
    (k : Text) (z : ℤ) → ltb_ℤ z (pos 0) ≡ false → int_of (int_ptr_of (shown (int_param k z))) ≡ z
int_of-int_param k (negsuc n) h = absurd (ground arith)
int_of-int_param k (pos n) h = elim (Bool-cases (ltb_ℤ (pos 0) (pos n))) [
  | inl positive ↦ rw positive (ap (λ o. int_of o) (read_int-itoa (pos n)))
  | inr unset ↦ let nothing : pos 0 ≡ pos n = ap pos (ground arith) in rw unset nothing
]

int_ptr_of-int_ptr_param : (k : Text) (z : Option ℤ) → int_ptr_of (shown (int_ptr_param k z)) ≡ z
int_ptr_of-int_ptr_param k none = refl
int_ptr_of-int_ptr_param k (some z) = read_int-itoa z

-- The parameters as the server reads them.
unfoldable pub read_get_markets : Map Text Text → GetMarketsParams
read_get_markets m = record {
  limit = int_of (int_ptr_of (lookup (codes "limit") m));
  cursor = text_of (lookup (codes "cursor") m);
  event_ticker = text_of (lookup (codes "event_ticker") m);
  series_ticker = text_of (lookup (codes "series_ticker") m);
  status = text_of (lookup (codes "status") m);
  tickers = text_of (lookup (codes "tickers") m);
  mve_filter = text_of (lookup (codes "mve_filter") m);
  min_created_ts = int_of (int_ptr_of (lookup (codes "min_created_ts") m));
  max_created_ts = int_of (int_ptr_of (lookup (codes "max_created_ts") m));
  min_updated_ts = int_of (int_ptr_of (lookup (codes "min_updated_ts") m));
  min_close_ts = int_of (int_ptr_of (lookup (codes "min_close_ts") m));
  max_close_ts = int_of (int_ptr_of (lookup (codes "max_close_ts") m));
  min_settled_ts = int_of (int_ptr_of (lookup (codes "min_settled_ts") m));
  max_settled_ts = int_of (int_ptr_of (lookup (codes "max_settled_ts") m));
}

abbrev pub IsUnsigned : ℤ → Type 0
IsUnsigned z = ltb_ℤ z (pos 0) ≡ false

-- A request that is not negative anywhere.
pub record IsGetMarkets (p : GetMarketsParams) : Type 0 where
  pub limit : IsUnsigned p.limit
  pub min_created_ts : IsUnsigned p.min_created_ts
  pub max_created_ts : IsUnsigned p.max_created_ts
  pub min_updated_ts : IsUnsigned p.min_updated_ts
  pub min_close_ts : IsUnsigned p.min_close_ts
  pub max_close_ts : IsUnsigned p.max_close_ts
  pub min_settled_ts : IsUnsigned p.min_settled_ts
  pub max_settled_ts : IsUnsigned p.max_settled_ts

-- A field, read from a list of settings that says what is shown for it.
abbrev Says : Text → Setting → List Setting → Type 0
Says k s ss = says k ss none ≡ over (shown s) true none

said :
    (k : Text) (s : Setting) (ss : List Setting) → Says k s ss → lookup k (build_query ss) ≡ shown s
said k s ss h = lookup-build_query k ss ∙ h ∙ over-none (shown s)

text_read :
    (k t : Text) (ss : List Setting)
    → Says k (string_param k t) ss
    → text_of (lookup k (build_query ss)) ≡ t
text_read k t ss h = ap text_of (said k (string_param k t) ss h) ∙ text_of-string_param k t

int_read :
    (k : Text) (z : ℤ) (ss : List Setting)
    → IsUnsigned z
    → Says k (int_param k z) ss
    → int_of (int_ptr_of (lookup k (build_query ss))) ≡ z
int_read k z ss unsigned h =
    ap (λ x. int_of (int_ptr_of x)) (said k (int_param k z) ss h) ∙ int_of-int_param k z unsigned

int_ptr_read :
    (k : Text) (z : Option ℤ) (ss : List Setting)
    → Says k (int_ptr_param k z) ss
    → int_ptr_of (lookup k (build_query ss)) ≡ z
int_ptr_read k z ss h =
    ap int_ptr_of (said k (int_ptr_param k z) ss h) ∙ int_ptr_of-int_ptr_param k z

-- A query for markets without negative numbers can be read back from its parameters: reading an
-- absent text as empty, an absent number as zero and a present one as a decimal gives all fields.
pub read_get_markets-get_markets_to_map :
    (p : GetMarketsParams) → IsGetMarkets p → read_get_markets (get_markets_to_map p) ≡ p
unfolding get_markets_to_map read_get_markets says text_eqb
read_get_markets-get_markets_to_map p h =
    let read_limit : int_of (int_ptr_of (lookup (codes "limit") (get_markets_to_map p))) ≡ p.limit =
      int_read (codes "limit") p.limit _ h.limit refl in
    let read_cursor : text_of (lookup (codes "cursor") (get_markets_to_map p)) ≡ p.cursor =
      text_read (codes "cursor") p.cursor _ refl in
    let read_event_ticker : text_of (lookup (codes "event_ticker") (get_markets_to_map p))
        ≡ p.event_ticker =
      text_read (codes "event_ticker") p.event_ticker _ refl in
    let read_series_ticker : text_of (lookup (codes "series_ticker") (get_markets_to_map p))
        ≡ p.series_ticker =
      text_read (codes "series_ticker") p.series_ticker _ refl in
    let read_status : text_of (lookup (codes "status") (get_markets_to_map p)) ≡ p.status =
      text_read (codes "status") p.status _ refl in
    let read_tickers : text_of (lookup (codes "tickers") (get_markets_to_map p)) ≡ p.tickers =
      text_read (codes "tickers") p.tickers _ refl in
    let read_mve_filter : text_of (lookup (codes "mve_filter") (get_markets_to_map p))
        ≡ p.mve_filter =
      text_read (codes "mve_filter") p.mve_filter _ refl in
    let read_min_created_ts : int_of
          (int_ptr_of (lookup (codes "min_created_ts") (get_markets_to_map p)))
        ≡ p.min_created_ts =
      int_read (codes "min_created_ts") p.min_created_ts _ h.min_created_ts refl in
    let read_max_created_ts : int_of
          (int_ptr_of (lookup (codes "max_created_ts") (get_markets_to_map p)))
        ≡ p.max_created_ts =
      int_read (codes "max_created_ts") p.max_created_ts _ h.max_created_ts refl in
    let read_min_updated_ts : int_of
          (int_ptr_of (lookup (codes "min_updated_ts") (get_markets_to_map p)))
        ≡ p.min_updated_ts =
      int_read (codes "min_updated_ts") p.min_updated_ts _ h.min_updated_ts refl in
    let read_min_close_ts : int_of
          (int_ptr_of (lookup (codes "min_close_ts") (get_markets_to_map p)))
        ≡ p.min_close_ts =
      int_read (codes "min_close_ts") p.min_close_ts _ h.min_close_ts refl in
    let read_max_close_ts : int_of
          (int_ptr_of (lookup (codes "max_close_ts") (get_markets_to_map p)))
        ≡ p.max_close_ts =
      int_read (codes "max_close_ts") p.max_close_ts _ h.max_close_ts refl in
    let read_min_settled_ts : int_of
          (int_ptr_of (lookup (codes "min_settled_ts") (get_markets_to_map p)))
        ≡ p.min_settled_ts =
      int_read (codes "min_settled_ts") p.min_settled_ts _ h.min_settled_ts refl in
    let read_max_settled_ts : int_of
          (int_ptr_of (lookup (codes "max_settled_ts") (get_markets_to_map p)))
        ≡ p.max_settled_ts =
      int_read (codes "max_settled_ts") p.max_settled_ts _ h.max_settled_ts refl in
    λ i. record {
      limit = read_limit i;
      cursor = read_cursor i;
      event_ticker = read_event_ticker i;
      series_ticker = read_series_ticker i;
      status = read_status i;
      tickers = read_tickers i;
      mve_filter = read_mve_filter i;
      min_created_ts = read_min_created_ts i;
      max_created_ts = read_max_created_ts i;
      min_updated_ts = read_min_updated_ts i;
      min_close_ts = read_min_close_ts i;
      max_close_ts = read_max_close_ts i;
      min_settled_ts = read_min_settled_ts i;
      max_settled_ts = read_max_settled_ts i;
    }

-- The three parameters of the cancellation.
unfoldable pub read_cancel_order_v2 : Map Text Text → CancelOrderV2Params
read_cancel_order_v2 m = record {
  market_ticker = text_of (lookup (codes "market_ticker") m);
  subaccount = int_of (int_ptr_of (lookup (codes "subaccount") m));
  exchange_index = int_ptr_of (lookup (codes "exchange_index") m);
}

-- The parameters of a cancellation can be read back if the subaccount is not negative: the exchange
-- index too, whether it is absent, zero or negative.
pub read_cancel_order_v2-cancel_order_v2_to_map :
    (p : CancelOrderV2Params)
    → IsUnsigned p.subaccount
    → read_cancel_order_v2 (cancel_order_v2_to_map p) ≡ p
unfolding cancel_order_v2_to_map read_cancel_order_v2 says text_eqb
read_cancel_order_v2-cancel_order_v2_to_map p h =
    let read_market_ticker : text_of (lookup (codes "market_ticker") (cancel_order_v2_to_map p))
        ≡ p.market_ticker =
      text_read (codes "market_ticker") p.market_ticker _ refl in
    let read_subaccount : int_of
          (int_ptr_of (lookup (codes "subaccount") (cancel_order_v2_to_map p)))
        ≡ p.subaccount =
      int_read (codes "subaccount") p.subaccount _ h refl in
    let read_exchange_index : int_ptr_of
          (lookup (codes "exchange_index") (cancel_order_v2_to_map p))
        ≡ p.exchange_index =
      int_ptr_read (codes "exchange_index") p.exchange_index _ refl in
    λ i. record {
      market_ticker = read_market_ticker i;
      subaccount = read_subaccount i;
      exchange_index = read_exchange_index i;
    }

pub order_group_action_to_map-default_index :
    (p : OrderGroupActionParams)
    → ltb_ℤ (pos 0) p.exchange_index ≡ false
    → lookup (codes "exchange_index") (order_group_action_to_map p) ≡ none
unfolding order_group_action_to_map says text_eqb
order_group_action_to_map-default_index p unset =
    lookup-build_query (codes "exchange_index") _ ∙ rw unset refl
