-- ===== src/OrderType.antt =====
-- The order record of src/sigmax/order_type.hpp. A `std::int64_t` is an integer.
use Prim.Native.String.{String}
use sigmax.Base.Int.{ℤ}

pub data OrderSide : Type 0 where
  buy sell : OrderSide

-- `NEW` is `fresh` here.
pub data OrderState : Type 0 where
  fresh partial filled cancelled : OrderState

-- `Timestamp`, `OrderId` and `InstrumentId`
abbrev pub Timestamp : Type 0
Timestamp = ℤ

abbrev pub OrderId : Type 0
OrderId = ℤ

abbrev pub InstrumentId : Type 0
InstrumentId = String

pub record Order : Type 0 where
  pub order_id : OrderId
  pub instrument_id : InstrumentId
  pub side : OrderSide
  pub state : OrderState
  pub quantity : ℤ
  pub price : ℤ
  pub ts : Timestamp
