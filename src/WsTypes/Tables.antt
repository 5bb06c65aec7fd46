-- ===== src/WsTypes/Tables.antt =====
-- The tables of tools/generate_ws_types/main.go. A set is a list, and a table whose keys are a
-- struct and a field is a list of triples.
use gokalshi.Base.{ℕ, List, [], ◌∷◌, Text, codes, Map}
use gokalshi.Generate.Resolve.{FieldTable}

abbrev pub msg_type_to_struct_name : Map Text Text
msg_type_to_struct_name =
    (codes "orderbook_snapshot", codes "OrderbookSnapshotData")
    ∷ (codes "orderbook_delta", codes "OrderbookDeltaData")
    ∷ (codes "ticker", codes "TickerData")
    ∷ (codes "trade", codes "TradeData")
    ∷ (codes "fill", codes "FillData")
    ∷ (codes "market_position", codes "MarketPositionData")
    ∷ (codes "market_lifecycle_v2", codes "MarketLifecycleV2Data")
    ∷ (codes "event_lifecycle", codes "EventLifecycleData")
    ∷ (codes "multivariate_market_lifecycle", codes "MultivariateMarketLifecycleData")
    ∷ (codes "user_order", codes "UserOrderData")
    ∷ (codes "order_group_updates", codes "OrderGroupUpdateData")
    ∷ (codes "rfq_created", codes "RFQCreatedData")
    ∷ (codes "rfq_deleted", codes "RFQDeletedData")
    ∷ (codes "quote_created", codes "QuoteCreatedData")
    ∷ (codes "quote_accepted", codes "QuoteAcceptedData")
    ∷ (codes "quote_executed", codes "QuoteExecutedData")
    ∷ (codes "event_fee_update", codes "EventFeeUpdateData")
    ∷ (codes "cfbenchmarks_value", codes "CfbenchmarksValueData")
    ∷ (codes "cfbenchmarks_value_indexlist", codes "CfbenchmarksValueIndexlistData")
    ∷ (codes "cfbenchmarks_value_5hz", codes "CfbenchmarksValue5HzData")
    ∷ (codes "cfbenchmarks_value_5hz_indexlist", codes "CfbenchmarksValue5HzIndexlistData")
    ∷ (codes "pyth_value", codes "PythValueData")
    ∷ (codes "pyth_value_underlying_list", codes "PythValueUnderlyingListData")
    ∷ []

abbrev pub msg_type_to_const_name : Map Text Text
msg_type_to_const_name =
    (codes "orderbook_snapshot", codes "WSMsgOrderbookSnapshot")
    ∷ (codes "orderbook_delta", codes "WSMsgOrderbookDelta")
    ∷ (codes "ticker", codes "WSMsgTicker")
    ∷ (codes "trade", codes "WSMsgTrade")
    ∷ (codes "fill", codes "WSMsgFill")
    ∷ (codes "market_position", codes "WSMsgMarketPosition")
    ∷ (codes "market_lifecycle_v2", codes "WSMsgMarketLifecycleV2")
    ∷ (codes "event_lifecycle", codes "WSMsgEventLifecycle")
    ∷ (codes "multivariate_market_lifecycle", codes "WSMsgMultivariateMarketLifecycle")
    ∷ (codes "user_order", codes "WSMsgUserOrder")
    ∷ (codes "order_group_updates", codes "WSMsgOrderGroupUpdates")
    ∷ (codes "rfq_created", codes "WSMsgRFQCreated")
    ∷ (codes "rfq_deleted", codes "WSMsgRFQDeleted")
    ∷ (codes "quote_created", codes "WSMsgQuoteCreated")
    ∷ (codes "quote_accepted", codes "WSMsgQuoteAccepted")
    ∷ (codes "quote_executed", codes "WSMsgQuoteExecuted")
    ∷ (codes "event_fee_update", codes "WSMsgEventFeeUpdate")
    ∷ (codes "cfbenchmarks_value", codes "WSMsgCfbenchmarksValue")
    ∷ (codes "cfbenchmarks_value_indexlist", codes "WSMsgCfbenchmarksValueIndexlist")
    ∷ (codes "cfbenchmarks_value_5hz", codes "WSMsgCfbenchmarksValue5Hz")
    ∷ (codes "cfbenchmarks_value_5hz_indexlist", codes "WSMsgCfbenchmarksValue5HzIndexlist")
    ∷ (codes "pyth_value", codes "WSMsgPythValue")
    ∷ (codes "pyth_value_underlying_list", codes "WSMsgPythValueUnderlyingList")
    ∷ []

abbrev pub ref_type_overrides : Map Text Text
ref_type_overrides =
    (codes "marketSide", codes "Side")
    ∷ (codes "bookSide", codes "BookSide")
    ∷ (codes "orderAction", codes "Action")
    ∷ (codes "marketTicker", codes "string")
    ∷ (codes "marketId", codes "string")
    ∷ (codes "commandId", codes "int")
    ∷ (codes "subscriptionId", codes "int")
    ∷ (codes "sequenceNumber", codes "int")
    ∷ []

abbrev pub ws_field_type_overrides : FieldTable
ws_field_type_overrides =
    (codes "MarketLifecycleV2Data", codes "event_type", codes "MarketLifecycleEventType")
    ∷ (codes "OrderGroupUpdateData", codes "event_type", codes "OrderGroupEventType")
    ∷ (codes "EventLifecycleData", codes "collateral_return_type", codes "CollateralReturnType")
    ∷ (codes "UserOrderData", codes "status", codes "OrderStatus")
    ∷ (codes "UserOrderData", codes "self_trade_prevention_type", codes "STPType")
    ∷ (codes "QuoteAcceptedData", codes "accepted_side", codes "Side")
    ∷ (codes "MultivariateLookupSelectedMarket", codes "side", codes "Side")
    ∷ (codes "EventFeeUpdateData", codes "fee_type_override", codes "FeeType")
    ∷ (codes "UpdateSubParams", codes "action", codes "WSUpdateAction")
    ∷ []

abbrev pub forced_nullable : FieldTable
forced_nullable = (codes "MarketLifecycleV2Data", codes "is_deactivated", []) ∷ []

abbrev pub inline_sub_object_names : FieldTable
inline_sub_object_names =
    (
      codes "MarketLifecycleV2Data",
      codes "additional_metadata",
      codes "MarketLifecycleAdditionalMetadata",
    )
    ∷ (
      codes "MultivariateLookupData",
      codes "selected_markets",
      codes "MultivariateLookupSelectedMarket",
    )
    ∷ (codes "RFQCreatedData", codes "mve_selected_legs", codes "MveSelectedLeg")
    ∷ []

abbrev pub skip_inline_generation : List Text
skip_inline_generation = codes "MveSelectedLeg" ∷ []

abbrev pub shared_schema_names : Map Text Text
shared_schema_names = (codes "cfbenchmarksAvgData", codes "CfbenchmarksAvgData") ∷ []

abbrev pub skip_channels : List Text
skip_channels = codes "root" ∷ codes "control_frames" ∷ []

abbrev pub error_code_names : Map ℕ Text
error_code_names =
    (1, codes "WSErrUnableToProcess")
    ∷ (2, codes "WSErrParamsRequired")
    ∷ (3, codes "WSErrChannelsRequired")
    ∷ (4, codes "WSErrSIDsRequired")
    ∷ (5, codes "WSErrUnknownCommand")
    ∷ (6, codes "WSErrAlreadySubscribed")
    ∷ (7, codes "WSErrUnknownSID")
    ∷ (8, codes "WSErrUnknownChannel")
    ∷ (9, codes "WSErrAuthRequired")
    ∷ (10, codes "WSErrChannelError")
    ∷ (11, codes "WSErrInvalidParam")
    ∷ (12, codes "WSErrExactlyOneSID")
    ∷ (13, codes "WSErrUnsupportedAction")
    ∷ (14, codes "WSErrMarketTickerReq")
    ∷ (15, codes "WSErrActionRequired")
    ∷ (16, codes "WSErrMarketNotFound")
    ∷ (17, codes "WSErrInternal")
    ∷ (18, codes "WSErrCommandTimeout")
    ∷ (19, codes "WSErrShardFactorPositive")
    ∷ (20, codes "WSErrShardFactorRequired")
    ∷ (21, codes "WSErrShardKeyRange")
    ∷ (22, codes "WSErrShardFactorTooLarge")
    ∷ (23, codes "WSErrMatchIDsRequired")
    ∷ (24, codes "WSErrIndexIDsRequired")
    ∷ (25, codes "WSErrSubBufferOverflow")
    ∷ (26, codes "WSErrSubscriptionLimit")
    ∷ (27, codes "WSErrTooManyRequests")
    ∷ (28, codes "WSErrUnderlyingTickersRequired")
    ∷ []

abbrev pub go_field_name_overrides : Map Text Text
go_field_name_overrides = (codes "sids", codes "SIDs") ∷ []
